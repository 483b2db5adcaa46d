-- ===== src/Virtual/Calls/Counts.antt =====
-- The statistics of a virtual driver are the driver's, without the values at the start.
use sc_co_si_m.Prelude.{ℕ, ◌^◌, ◌<◌, ◌≡◌, refl, arith, ◌==◌, sub32}
use sc_co_si_m.Driver.Machine.{Device, M, return, load, ◌>>=◌}
use sc_co_si_m.Driver.Map.{bram1, bram2, bram3, bram4, word_at}
use sc_co_si_m.Driver.Stats.{Counters, InitStats, StatDs, read_counters, read_stats_per_port}
use sc_co_si_m.Virtual.Access.{Access}
use sc_co_si_m.Virtual.Refines.{
  Refines, Implements, bind-Refines, return-Refines, if-Refines, Refines_along,
}
use sc_co_si_m.Virtual.Calls.{sc_report, sc_read_stats_per_port}

abbrev pub no_counts : Counters
no_counts = record { total = 0; fifo = 0; fw = 0 }

abbrev pub no_stats : InitStats
no_stats = record { port1 = no_counts; port2 = no_counts; port3 = no_counts; port4 = no_counts }

less_zero : (n : ℕ) → n < 2 ^ 32 → sub32 n 0 ≡ n
less_zero n h = omega arith

module _ {W : Type 0} (d : Device W) where
  -- The three registers of a port, as they are.
  raw_report : StatDs → ℕ → M W StatDs
  raw_report r base = do
    t ← load d (word_at base 9)
    q ← load d (word_at base 11)
    w ← load d (word_at base 13)
    return (record r { total_passed = t; fifo_dropped = q; fw_dropped = w })

  report_raw :
      ((a : ℕ) (s : W) → (d.ioread32 a s).0 < 2 ^ 32)
      → (r : StatDs) (base : ℕ) (s : W)
      → (read_counters d base no_counts >>= λ now.
            return
              (record r { total_passed = now.total; fifo_dropped = now.fifo; fw_dropped = now.fw }))
          s
        ≡ raw_report r base s
  unfolding read_counters raw_report
  report_raw h r base s =
      let s1 = (d.ioread32 (word_at base 9) s).1 in
      let s2 = (d.ioread32 (word_at base 11) s1).1 in
      rw
        (
          less_zero _ (h (word_at base 9) s),
          less_zero _ (h (word_at base 11) s1),
          less_zero _ (h (word_at base 13) s2),
        )
        refl

module _ {C W : Type 0} {x : Access C} {d : Device W} {Ready Starts : C → Type 0} {view : C → W}
    (i : Implements x d Ready Starts view) where
  report-Refines :
      ((a : ℕ) (s : W) → (d.ioread32 a s).0 < 2 ^ 32)
      → (r : StatDs) (base : ℕ)
      → Refines Ready view (sc_report x r base) (
          read_counters d base no_counts >>= λ now.
          return
            (record r { total_passed = now.total; fifo_dropped = now.fifo; fw_dropped = now.fw }))
  unfolding sc_report raw_report
  report-Refines h r base = Refines_along Ready view (report_raw d h r base) (
      bind-Refines Ready view (i.read_refines (word_at base 9) (omega arith)) λ t.
        bind-Refines Ready view (i.read_refines (word_at base 11) (omega arith)) λ q.
          bind-Refines Ready view (i.read_refines (word_at base 13) (omega arith))
            λ w. return-Refines Ready view _)

  -- On a device whose registers are words.
  pub sc_read_stats-read_stats :
      (r : StatDs)
      → ((a : ℕ) (s : W) → (d.ioread32 a s).0 < 2 ^ 32)
      → Refines Ready view (sc_read_stats_per_port x r) (read_stats_per_port d 0 no_stats r)
  unfolding sc_read_stats_per_port read_stats_per_port
  sc_read_stats-read_stats r h =
      if-Refines Ready view (r.port == 1) (λ _. report-Refines h r bram1)
        (λ _.
          if-Refines Ready view (r.port == 2) (λ _. report-Refines h r bram2)
            (λ _.
              if-Refines Ready view (r.port == 3) (λ _. report-Refines h r bram3)
                (λ _.
                  if-Refines Ready view (r.port == 4) (λ _. report-Refines h r bram4)
                    (λ _. return-Refines Ready view _))))
