-- ===== src/Board/Side/Laws.antt =====
-- A port with its memory against a memory that carries out one packet after the other.
use sc_co_si_m.Prelude.{
  ℕ, suc, ◌+◌, ◌≡◌, refl, sym, ap, ◌∙◌, Bool, true, false, none, some, List, [], ◌∷◌, ◌++◌, range,
  set_range, ◌==◌, ==_iff, Bool-cases, inl, inr, arith, if◌then◌else◌,
}
use mathlib.Core.Path.{subst}
use sc_co_si_m.Firewall.Packet.{Port}
use sc_co_si_m.Firewall.Output
use sc_co_si_m.Firewall.Output.{OutPort, bram, response, execute, take_out, interface_out}
use sc_co_si_m.Firewall.Output.Laws.{thread_lem, thread-read}
use sc_co_si_m.Board.Memory.{Memory, read, write}
use sc_co_si_m.Board.Receiver.{entry}
use sc_co_si_m.Board.Side.{Side, Wires, receive, stored, ready_after, cycle, cycles}

-- The word of the memory that the packet `w` is for.
abbrev pub place : Port → ℕ → ℕ
place p w = bram p + range w 31 22

-- What the packets do to the memory, one after the other, and the answers that the reads get.
unfoldable pub carry_out : Port → List ℕ → Memory → List ℕ × Memory
carry_out p [] m = ([], m)
carry_out p (w ∷ ws) m =
    let of_read = carry_out p ws m in
    let of_write = carry_out p ws (write (place p w) (range w 15 0) m) in
    if range w 21 20 == 1
    then (response w (read m (place p w)) ∷ of_read.0, of_read.1)
    else of_write

-- A read takes one cycle, any other packet four.
unfoldable pub duration : List ℕ → ℕ
duration [] = 0
duration (w ∷ ws) =
    let rest = duration ws in if range w 21 20 == 1 then suc rest else suc (suc (suc (suc rest)))

-- The answers among a port's actions, and its acknowledgements of writes.
unfoldable pub answers : List Output.Action → List ℕ
answers [] = []
answers (Output.responce_fifo r ∷ out) = r ∷ answers out
answers (x ∷ out) = answers out

abbrev pub at_rest : Wires
at_rest = record { ready = false; done = false; indone = false }

module _ (p : Port) (m : Memory) (o : Bool) (w : ℕ) (ws : List ℕ) where
  abbrev waiting : Side
  waiting = record {
    memory = m;
    fifo = w ∷ ws;
    port = record { preready = false; is_write_op = o };
    wires = at_rest;
  }

  cycle-read :
      range w 21 20 ≡ 1
      → cycle p waiting ≡ (
        Output.responce_fifo (response w (read m (place p w))) ∷ [],
        record waiting { fifo = ws; port = record { preready = false; is_write_op = false } },
      )
  unfolding cycle receive stored ready_after entry
  cycle-read op =
      rw (thread-read (read m) p (record { preready = false; is_write_op = o }) w refl op) refl

  -- After the first cycle of a write.
  abbrev stores : Side
  stores = record {
    memory = write (place p w) (range w 15 0) m;
    fifo = ws;
    port = record { preready = true; is_write_op = true };
    wires = record at_rest { ready = true };
  }

  low_half : set_range 0 15 0 (range w 15 0) ≡ range w 15 0
  low_half = omega arith

  cycle-store :
      (range w 21 20 == 1) ≡ false
      → cycle p waiting ≡ (
        Output.mem_write (place p w) (range w 15 0)
            ∷ Output.out_addr_to_read (place p w)
            ∷ Output.ready true
            ∷ [],
        stores,
      )
  unfolding cycle receive stored ready_after entry interface_out take_out execute
  cycle-store op =
      rw
        (
          thread_lem (read m) p (record { preready = false; is_write_op = o }) false (some w),
          op,
          low_half,
        )
        refl

  -- The other three: the receiver sees the ready signal; the port sees the done signal; and the
  -- receiver takes it back.
  abbrev acknowledged : Side
  acknowledged = record stores {
    port = record { preready = false; is_write_op = true };
    wires = at_rest;
  }

  cycles-handshake :
      (n : ℕ)
      → cycles p (suc (suc (suc n))) stores ≡ (
        Output.ready false ∷ Output.write_ended ∷ (cycles p n acknowledged).0,
        (cycles p n acknowledged).1,
      )
  unfolding cycles cycle receive stored ready_after entry interface_out
  cycles-handshake n =
      rw
        (
          thread_lem (read stores.memory) p stores.port false none,
          thread_lem (read stores.memory) p stores.port true none,
          thread_lem (read stores.memory) p acknowledged.port true none,
        )
        refl

-- The acknowledgements of writes among a port's actions, and the packets that are no reads.
unfoldable pub ended : List Output.Action → ℕ
ended [] = 0
ended (Output.write_ended ∷ out) = suc (ended out)
ended (x ∷ out) = ended out

unfoldable pub writes : List ℕ → ℕ
writes [] = 0
writes (w ∷ ws) = let rest = writes ws in if range w 21 20 == 1 then rest else suc rest

pub record Serves (p : Port) (ws : List ℕ) (m : Memory) (r : List Output.Action × Side)
    : Type 0 where
  pub answered : answers r.0 ≡ (carry_out p ws m).0
  pub carried_out : r.1.memory ≡ (carry_out p ws m).1
  pub acknowledged_all : ended r.0 ≡ writes ws
  pub emptied : r.1.fifo ≡ []
  pub at_rest_again : r.1.wires ≡ at_rest
  pub idle : r.1.port.preready ≡ false

abbrev pub resting : Memory → List ℕ → Bool → Side
resting m ws o = record {
  memory = m;
  fifo = ws;
  port = record { preready = false; is_write_op = o };
  wires = at_rest;
}

-- Some actions, and then the cycles of what is left.
abbrev continue : Port → List ℕ → List Output.Action × Side → List Output.Action × Side
continue p ws c = let (out, t) = cycles p (duration ws) c.1 in (c.0 ++ out, t)

cycles_read :
    (p : Port) (w : ℕ) (ws : List ℕ) (m : Memory) (o : Bool)
    → (range w 21 20 == 1) ≡ true
    → cycles p (duration (w ∷ ws)) (resting m (w ∷ ws) o)
      ≡ continue p ws
          (Output.responce_fifo (response w (read m (place p w))) ∷ [], resting m ws false)
unfolding cycles duration
cycles_read p w ws m o e =
    rw e (ap (continue p ws) (cycle-read p m o w ws ((==_iff (range w 21 20) 1).0 e)))

cycles_write :
    (p : Port) (w : ℕ) (ws : List ℕ) (m : Memory) (o : Bool)
    → (range w 21 20 == 1) ≡ false
    → cycles p (duration (w ∷ ws)) (resting m (w ∷ ws) o)
      ≡ continue p ws (
        Output.mem_write (place p w) (range w 15 0)
            ∷ Output.out_addr_to_read (place p w)
            ∷ Output.ready true
            ∷ Output.ready false
            ∷ Output.write_ended
            ∷ [],
        resting (write (place p w) (range w 15 0) m) ws true,
      )
unfolding cycles duration
cycles_write p w ws m o e = rw e (
    ap (λ c. let (out, t) = cycles p (suc (suc (suc (duration ws)))) c.1 in (c.0 ++ out, t))
      (cycle-store p m o w ws e)
    ∙ ap
        (λ (c : List Output.Action × Side). (
          Output.mem_write (place p w) (range w 15 0)
              ∷ Output.out_addr_to_read (place p w)
              ∷ Output.ready true
              ∷ c.0,
          c.1,
        ))
        (cycles-handshake p m o w ws (duration ws)))

-- A port at rest with the memory and the receiver behind it, for any packets in its fifo: within
-- one cycle for each read and four for any other packet, it has done to the memory what carrying
-- out the packets one after the other does, given the same answers in the same order, and
-- acknowledged every packet that is no read once; its fifo is empty, and it is at rest again.
pub cycles-Serves :
    (p : Port) (ws : List ℕ) (m : Memory) (o : Bool)
    → Serves p ws m (cycles p (duration ws) (resting m ws o))
unfolding cycles duration carry_out answers ended writes
cycles-Serves p [] m o = record {
  answered = refl;
  carried_out = refl;
  acknowledged_all = refl;
  emptied = refl;
  at_rest_again = refl;
  idle = refl;
}
cycles-Serves p (w ∷ ws) m o = elim (Bool-cases (range w 21 20 == 1)) [
  | inl e ↦
      let ih = cycles-Serves p ws m false in
      subst (Serves p (w ∷ ws) m) (sym (cycles_read p w ws m o e)) (record {
        answered = rw e (ap (λ l. response w (read m (place p w)) ∷ l) ih.answered);
        carried_out = rw e ih.carried_out;
        acknowledged_all = rw e ih.acknowledged_all;
        emptied = ih.emptied;
        at_rest_again = ih.at_rest_again;
        idle = ih.idle;
      })
  | inr e ↦
      let ih = cycles-Serves p ws (write (place p w) (range w 15 0) m) true in
      subst (Serves p (w ∷ ws) m) (sym (cycles_write p w ws m o e)) (record {
        answered = rw e ih.answered;
        carried_out = rw e ih.carried_out;
        acknowledged_all = rw e (ap suc ih.acknowledged_all);
        emptied = ih.emptied;
        at_rest_again = ih.at_rest_again;
        idle = ih.idle;
      })
]
