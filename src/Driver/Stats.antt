-- ===== src/Driver/Stats.antt =====
-- The statistics: the part of `mfd_init` (init_modules.h) that takes their values when the driver is
-- loaded, and `readStatsPerPort` and `readStatsPerAllPorts` of kernel_mode.c.
pub mod Laws
use sc_co_si_m.Prelude.{ℕ, ◌+◌, Option, none, some, ◌==◌, if◌then◌else◌, u32, sub32}
use sc_co_si_m.Driver.Machine.{Device, M, return, stop, load, ◌>>=◌, ◌>>◌}
use sc_co_si_m.Driver.Map.{bram1, bram2, bram3, bram4, word_at}

-- The counters of a port: init_stat_total, init_stat_fifo and init_stat_fw of that port.
pub record Counters : Type 0 where
  pub total : ℕ
  pub fifo : ℕ
  pub fw : ℕ

pub record InitStats : Type 0 where
  pub port1 : Counters
  pub port2 : Counters
  pub port3 : Counters
  pub port4 : Counters

-- `struct stat_ds`
pub record StatDs : Type 0 where
  pub port : ℕ
  pub total_passed : ℕ
  pub fifo_dropped : ℕ
  pub fw_dropped : ℕ

abbrev pub starting_statistics_total : ℕ
starting_statistics_total = 9

abbrev pub starting_statistics_fifo : ℕ
starting_statistics_fifo = 11

abbrev pub starting_statistics_fw : ℕ
starting_statistics_fw = 13

module _ {S : Type 0} (d : Device S) where
  pub init_stats : M S InitStats
  init_stats = do
    t1 ← load d (word_at bram1 9)
    t2 ← load d (word_at bram2 9)
    t3 ← load d (word_at bram3 9)
    t4 ← load d (word_at bram4 9)
    q1 ← load d (word_at bram1 11)
    q2 ← load d (word_at bram2 11)
    q3 ← load d (word_at bram3 11)
    q4 ← load d (word_at bram4 11)
    w1 ← load d (word_at bram1 13)
    w2 ← load d (word_at bram2 13)
    w3 ← load d (word_at bram3 13)
    w4 ← load d (word_at bram4 13)
    return (record {
      port1 = record { total = t1; fifo = q1; fw = w1 };
      port2 = record { total = t2; fifo = q2; fw = w2 };
      port3 = record { total = t3; fifo = q3; fw = w3 };
      port4 = record { total = t4; fifo = q4; fw = w4 };
    })

  -- The three reads of a port, each less its value at the start.
  unfoldable pub read_counters : ℕ → Counters → M S Counters
  read_counters base c = do
    t ← load d (word_at base starting_statistics_total)
    q ← load d (word_at base starting_statistics_fifo)
    w ← load d (word_at base starting_statistics_fw)
    return (record { total = sub32 t c.total; fifo = sub32 q c.fifo; fw = sub32 w c.fw })

  unfoldable pub read_stats_per_port : ℕ → InitStats → StatDs → M S StatDs
  read_stats_per_port gid init r =
      let report = λ (base : ℕ) (c : Counters). (do
        now ← read_counters base c
        return (record r {
          total_passed = now.total;
          fifo_dropped = now.fifo;
          fw_dropped = now.fw;
        })) in
      if gid == 0
      then (if r.port == 1
          then report bram1 init.port1
          else if r.port == 2
          then report bram2 init.port2
          else if r.port == 3
          then report bram3 init.port3
          else if r.port == 4
          then report bram4 init.port4
          else return (record r { total_passed = 0; fifo_dropped = 0; fw_dropped = 0 }))
      else stop

  -- The sums of `int` wrap round as the unsigned ones do on the board's compiler.
  pub read_stats_per_all_ports : ℕ → InitStats → StatDs → M S StatDs
  read_stats_per_all_ports gid init r =
      if gid == 0
      then (do
        a ← read_counters bram1 init.port1
        b ← read_counters bram2 init.port2
        c ← read_counters bram3 init.port3
        e ← read_counters bram4 init.port4
        return (record r {
          total_passed = u32 (a.total + b.total + c.total + e.total);
          fifo_dropped = u32 (a.fifo + b.fifo + c.fifo + e.fifo);
          fw_dropped = u32 (a.fw + b.fw + c.fw + e.fw);
        }))
      else stop
