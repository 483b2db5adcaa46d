-- ===== src/System/Driven.antt =====
-- The driver on the module of the firewall: the device that a driver's reads and writes reach by
-- b_transport.
pub mod Laws
use sc_co_si_m.Prelude.{ℕ, List, [], ◌∷◌, Bool, true, false, ◌&&◌, not, if◌then◌else◌, u32}
use sc_co_si_m.Firewall.Registers.{
  b_transport, ok_response, address_error, byte_enable_error, WriteTarget, packet, unknown,
  execute_write,
}
use sc_co_si_m.Firewall.Module.Ends.{ended}
use sc_co_si_m.Firewall.Transport.{Signals, fetch}
use sc_co_si_m.Firewall.Module.{Firewall, Event, bus_write, step, run}
use sc_co_si_m.Driver.Machine.{Device}

-- The module, m_register_read, and the rounds that the module's threads will make from each of the
-- driver's accesses to the next, and then no more. `blocked` tells that b_transport never returned.
pub record Bench : Type 0 where
  pub firewall : Firewall
  pub register_read : ℕ
  pub later_rounds : List (List Event)
  pub blocked : Bool

abbrev pub next_rounds : List (List Event) → List Event
next_rounds [] = []
next_rounds (es ∷ rest) = es

abbrev pub last_rounds : List (List Event) → List (List Event)
last_rounds [] = []
last_rounds (es ∷ rest) = rest

-- The rounds after an access.
abbrev pub pass : Bench → Bench
pass b = record b {
  firewall = (run (next_rounds b.later_rounds) b.firewall).1;
  later_rounds = last_rounds b.later_rounds;
}

-- Whether a write needs a round of another thread to end: for the direct ports, which are not in
-- `Firewall`, their own threads see to it.
abbrev pub waits : WriteTarget → Bool
waits (packet p) = true
waits unknown = true
waits t = false

-- A write that b_transport admits: the write thread's round, and the wait for m_write_ended_event.
unfoldable pub write_and_wait : ℕ → ℕ → Bench → Bench
write_and_wait a v b =
    let f = (step (bus_write a v) b.firewall).1 in
    let hangs = waits (execute_write a) && not (ended (next_rounds b.later_rounds) f) in
    pass (record b { firewall = f; blocked = hangs })

-- What the virtual driver makes of a read that is refused.
abbrev pub no_word : ℕ
no_word = 0xFFFFFFFF

module _ (mem : ℕ → ℕ) where
  -- The signals that the read thread reads: those of the statistics show the threads' counters.
  abbrev pub signals : Firewall → Signals
  signals f = record {
    mem_read = λ p. mem;
    in_responce = f.in_responce;
    total = λ p. (f.input p).count_total;
    droped = λ p. (f.input p).count_droped;
    fw_rule_hit_counter = λ p. (f.input p).rule_hit_counter;
  }

  -- Of what b_transport admits, the read thread's word, in the four bytes of the payload.
  unfoldable pub admit_read : ℕ → Bench → ℕ × Bench
  admit_read a b =
      let v = fetch (signals b.firewall) a b.register_read in
      elim (b_transport 4 a false) [
        | ok_response ↦ (u32 v, pass (record b { register_read = v }))
        | address_error ↦ (no_word, b)
        | byte_enable_error ↦ (no_word, b)
      ]

  unfoldable pub admit_write : ℕ → ℕ → Bench → Bench
  admit_write v a b = elim (b_transport 4 a false) [
    | ok_response ↦ write_and_wait a v b
    | address_error ↦ b
    | byte_enable_error ↦ b
  ]

  -- After a call that never returned no other is made.
  unfoldable pub bench_read : ℕ → Bench → ℕ × Bench
  bench_read a b = if b.blocked then (no_word, b) else admit_read a b

  unfoldable pub bench_write : ℕ → ℕ → Bench → Bench
  bench_write v a b = if b.blocked then b else admit_write v a b

  abbrev pub bench : Device Bench
  bench = record { ioread32 = bench_read; iowrite32 = bench_write }
