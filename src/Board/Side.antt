-- ===== src/Board/Side.antt =====
-- One port of the firewall with the memory and the receiver behind it, cycle by cycle, as main.cpp
-- connects them. A signal that is written in a cycle is seen in the next one.
pub mod Laws
use sc_co_si_m.Prelude.{
  ℕ, zero, suc, ◌+◌, Bool, true, false, Option, none, some, List, [], ◌∷◌, ◌++◌, if◌then◌else◌,
  range, ◌==◌,
}
use sc_co_si_m.Firewall.Packet.{Port}
use sc_co_si_m.Firewall.Output
use sc_co_si_m.Firewall.Output.{OutPort}
use sc_co_si_m.Firewall.Direct
use sc_co_si_m.Firewall.Direct.{DirectPort}
use sc_co_si_m.Firewall.Module.{nb_read, left}
use sc_co_si_m.Board.Memory.{Memory, read, write}
use sc_co_si_m.Board.Receiver.{entry, directentry}

-- The signals and the receiver of a port: pkt_out_ready, pkt_out_done, and indone.
pub record Wires : Type 0 where
  pub ready : Bool
  pub done : Bool
  pub indone : Bool

pub record Side : Type 0 where
  pub memory : Memory
  pub fifo : List ℕ
  pub port : OutPort
  pub wires : Wires

-- The value of a signal after a cycle.
abbrev pub written : Option Bool → Bool → Bool
written none before = before
written (some b) before = b

unfoldable pub receive : Bool × Option Bool → Bool → Wires → Wires
receive (indone, signal) ready w = record {
  ready = ready;
  done = written signal w.done;
  indone = indone;
}

-- What the port's actions make of the memory and of the ready signal.
unfoldable pub stored : List Output.Action → Memory → Memory
stored [] m = m
stored (Output.mem_write a v ∷ out) m = stored out (write a v m)
stored (x ∷ out) m = stored out m

unfoldable pub ready_after : List Output.Action → Bool → Bool
ready_after [] before = before
ready_after (Output.ready b ∷ out) before = ready_after out b
ready_after (x ∷ out) before = ready_after out before

-- A cycle of the port's thread and of the receiver's. The fifo is read where both the port and the
-- memory are idle.
unfoldable pub cycle : Port → Side → List Output.Action × Side
unfolding receive
cycle p b =
    let idle = if b.wires.done then false else if b.port.preready then false else true in
    let (s, out) = Output.thread (read b.memory) p b.port b.wires.done (nb_read idle b.fifo) in
    (
      out,
      record {
        memory = stored out b.memory;
        fifo = left idle b.fifo;
        port = s;
        wires =
            receive (entry b.wires.ready b.wires.indone) (ready_after out b.wires.ready) b.wires;
      },
    )

unfoldable pub cycles : Port → ℕ → Side → List Output.Action × Side
cycles p zero b = ([], b)
cycles p (suc n) b = let (out, t) = cycle p b in let (outs, u) = cycles p n t in (out ++ outs, u)
