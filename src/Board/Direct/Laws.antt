-- ===== src/Board/Direct/Laws.antt =====
-- A direct access, from the bus to the memory and back.
use sc_co_si_m.Prelude.{ℕ, ◌%◌, ◌^◌, ◌≡◌, refl, Bool, true, false, none, some, [], ◌∷◌}
use sc_co_si_m.Firewall.Packet.{Port}
use sc_co_si_m.Firewall.Direct
use sc_co_si_m.Firewall.Direct.{
  DirectPort, request_write, request_read, execute, take_out, direct_mem_out,
}
use sc_co_si_m.Firewall.Direct.Laws.{thread_lem, low_half}
use sc_co_si_m.Board.Memory.{Memory, read, write}
use sc_co_si_m.Board.Receiver.{directentry}
use sc_co_si_m.Board.Side.{receive}
use sc_co_si_m.Board.Side.Laws.{at_rest}
use sc_co_si_m.Board.Direct.{
  DirectSide, stored, answered, ready_after, cycle, cycles, write_request, read_request,
}

-- Nothing is asked for, and the wires are at rest.
abbrev pub resting : Memory → ℕ → Bool → DirectSide
resting m a r = record {
  memory = m;
  fifo = [];
  responce_fifo = [];
  port = record { out_address = a; out_read = r; preready = false };
  wires = at_rest;
}

-- A direct write takes four cycles, stores the low 16 bits of the word, is acknowledged once, and
-- leaves the port at rest; a direct read takes one, and puts the memory's word into the fifo.
pub direct_cycles :
    (p : Port) (a v a0 : ℕ) (r0 : Bool) (m : Memory)
    → (cycles p 4 (write_request a v (resting m a0 r0)) ≡ (
      Direct.mem_write a (v % 2 ^ 16)
          ∷ Direct.addr_to_read a
          ∷ Direct.ready true
          ∷ Direct.write_ended
          ∷ Direct.ready false
          ∷ [],
      resting (write a (v % 2 ^ 16) m) a false,
    ))
      × (cycles p 1 (read_request a v (resting m a0 r0)) ≡ (
        Direct.responce_fifo (read m a) ∷ Direct.read_pending ∷ [],
        record (resting m a true) { responce_fifo = read m a ∷ [] },
      ))
unfolding cycles cycle write_request read_request request_write request_read direct_mem_out take_out
    execute stored answered ready_after receive directentry
direct_cycles p a v a0 r0 m =
    let s : DirectPort = record { out_address = a; out_read = false; preready = false } in
    let t : DirectPort = record { out_address = a; out_read = false; preready = true } in
    let n = write a (v % 2 ^ 16) m in
    (
      rw
          (
            thread_lem (read m) p s false (some v),
            low_half v,
            thread_lem (read n) p t false none,
            thread_lem (read n) p t true none,
            thread_lem (read n) p s true none,
          )
          refl,
      rw (thread_lem (read m) p (record s { out_read = true }) false (some v)) refl,
    )
