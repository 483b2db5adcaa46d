-- ===== src/Board/Direct.antt =====
-- The direct memory port of the firewall with the same memory and the receiver's other thread,
-- cycle by cycle, as main.cpp connects them.
pub mod Laws
use sc_co_si_m.Prelude.{
  ℕ, zero, suc, Bool, true, false, Option, none, some, List, [], ◌∷◌, ◌++◌, if◌then◌else◌,
}
use sc_co_si_m.Firewall.Packet.{Port}
use sc_co_si_m.Firewall.Direct
use sc_co_si_m.Firewall.Direct.{DirectPort}
use sc_co_si_m.Firewall.Module.{nb_read, left}
use sc_co_si_m.Board.Memory.{Memory, read, write}
use sc_co_si_m.Board.Receiver.{directentry}
use sc_co_si_m.Board.Side.{Wires, receive}

-- The wires are direct_pkt_out_ready and direct_pkt_out_done, and the thread's own indone; the fifos
-- are dir_mem_out_fifo_k and dir_mem_responce_fifo_k.
pub record DirectSide : Type 0 where
  pub memory : Memory
  pub fifo : List ℕ
  pub responce_fifo : List ℕ
  pub port : DirectPort
  pub wires : Wires

unfoldable pub stored : List Direct.Action → Memory → Memory
stored [] m = m
stored (Direct.mem_write a v ∷ out) m = stored out (write a v m)
stored (x ∷ out) m = stored out m

unfoldable pub answered : List Direct.Action → List ℕ → List ℕ
answered [] ws = ws
answered (Direct.responce_fifo r ∷ out) ws = answered out (ws ++ r ∷ [])
answered (x ∷ out) ws = answered out ws

unfoldable pub ready_after : List Direct.Action → Bool → Bool
ready_after [] before = before
ready_after (Direct.ready b ∷ out) before = ready_after out b
ready_after (x ∷ out) before = ready_after out before

unfoldable pub cycle : Port → DirectSide → List Direct.Action × DirectSide
cycle p b =
    let idle = if b.wires.done then false else if b.port.preready then false else true in
    let (s, out) = Direct.thread (read b.memory) p b.port b.wires.done (nb_read idle b.fifo) in
    (
      out,
      record {
        memory = stored out b.memory;
        fifo = left idle b.fifo;
        responce_fifo = answered out b.responce_fifo;
        port = s;
        wires =
            receive (directentry b.wires.ready b.wires.indone) (ready_after out b.wires.ready)
              b.wires;
      },
    )

unfoldable pub cycles : Port → ℕ → DirectSide → List Direct.Action × DirectSide
cycles p zero b = ([], b)
cycles p (suc n) b = let (out, t) = cycle p b in let (outs, u) = cycles p n t in (out ++ outs, u)

-- An access of the bus: the bus threads leave the address, the kind and the word.
unfoldable pub write_request : ℕ → ℕ → DirectSide → DirectSide
write_request a v b =
    let (s, w) = Direct.request_write a v b.port in record b { port = s; fifo = b.fifo ++ w ∷ [] }

unfoldable pub read_request : ℕ → ℕ → DirectSide → DirectSide
read_request a v b =
    let (s, w) = Direct.request_read a v b.port in record b { port = s; fifo = b.fifo ++ w ∷ [] }
