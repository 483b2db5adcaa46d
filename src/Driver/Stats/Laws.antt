-- ===== src/Driver/Stats/Laws.antt =====
-- What the statistics report.
use sc_co_si_m.Prelude.{ℕ, ◌+◌, ◌<◌, ◌^◌, ◌≡◌, ◌≢◌, arith, u32, ◌==◌, if◌then◌else◌}
use sc_co_si_m.Driver.Machine.{Device, done, bug}
use sc_co_si_m.Driver.Map.{bram1, bram2, bram3, bram4, word_at}
use sc_co_si_m.Driver.Stats.{
  Counters, InitStats, StatDs, init_stats, read_counters, read_stats_per_port,
  read_stats_per_all_ports,
}

-- What a port number asks for; there is nothing for a number that is no port's.
pub counters_of : InitStats → ℕ → Counters
counters_of n port =
    if port == 1
    then n.port1
    else if port == 2
    then n.port2
    else if port == 3
    then n.port3
    else if port == 4
    then n.port4
    else record { total = 0; fifo = 0; fw = 0 }

-- The structure that reports `c`.
abbrev pub report : StatDs → Counters → StatDs
report r c = record r { total_passed = c.total; fifo_dropped = c.fifo; fw_dropped = c.fw }

abbrev pub sum_counters : InitStats → Counters
sum_counters n = record {
  total = u32 (n.port1.total + n.port2.total + n.port3.total + n.port4.total);
  fifo = u32 (n.port1.fifo + n.port2.fifo + n.port3.fifo + n.port4.fifo);
  fw = u32 (n.port1.fw + n.port2.fw + n.port3.fw + n.port4.fw);
}

module _ {S : Type 0} (d : Device S) where
  pub read_stats_per_port_refused :
      (gid : ℕ) (init : InitStats) (r : StatDs) (s : S)
      → gid ≢ 0
      → read_stats_per_port d gid init r s ≡ bug s
  unfolding read_stats_per_port
  read_stats_per_port_refused gid init r s g = ground arith

  pub read_stats_per_all_ports_refused :
      (gid : ℕ) (init : InitStats) (r : StatDs) (s : S)
      → gid ≢ 0
      → read_stats_per_all_ports d gid init r s ≡ bug s
  unfolding read_stats_per_all_ports
  read_stats_per_all_ports_refused gid init r s g = ground arith

  -- A register that can be read without changing the device, and what it holds.
  abbrev pub Holds : S → ℕ → ℕ → Type 0
  Holds s a v = d.ioread32 a s ≡ (v, s)

  -- The three counters of a port.
  pub record HoldsPort (s : S) (base : ℕ) (c : Counters) : Type 0 where
    pub total_held : Holds s (word_at base 9) c.total
    pub fifo_held : Holds s (word_at base 11) c.fifo
    pub fw_held : Holds s (word_at base 13) c.fw

  pub record HoldsAll (s : S) (c : InitStats) : Type 0 where
    pub port1_held : HoldsPort s bram1 c.port1
    pub port2_held : HoldsPort s bram2 c.port2
    pub port3_held : HoldsPort s bram3 c.port3
    pub port4_held : HoldsPort s bram4 c.port4

  -- `c` and then `n` more, in 32-bit counters.
  abbrev pub advance : Counters → Counters → Counters
  advance c n = record {
    total = u32 (c.total + n.total);
    fifo = u32 (c.fifo + n.fifo);
    fw = u32 (c.fw + n.fw);
  }

  abbrev pub IsWords : Counters → Type 0
  IsWords c = (c.total < 2 ^ 32) × (c.fifo < 2 ^ 32) × (c.fw < 2 ^ 32)

  read_counters_lem :
      (s : S) (base : ℕ) (c n : Counters)
      → IsWords c
      → IsWords n
      → HoldsPort s base (advance c n)
      → read_counters d base c s ≡ done n s
  unfolding read_counters
  read_counters_lem s base c n cw nw h =
      rw h.total_held (rw h.fifo_held (rw h.fw_held (ground arith)))

  abbrev pub AreWords : InitStats → Type 0
  AreWords c = IsWords c.port1 × IsWords c.port2 × IsWords c.port3 × IsWords c.port4

  abbrev pub advance_all : InitStats → InitStats → InitStats
  advance_all c n = record {
    port1 = advance c.port1 n.port1;
    port2 = advance c.port2 n.port2;
    port3 = advance c.port3 n.port3;
    port4 = advance c.port4 n.port4;
  }

  init_stats_lem : (s : S) (c : InitStats) → HoldsAll s c → init_stats d s ≡ done c s
  unfolding init_stats
  init_stats_lem s c h =
      rw (h.port1_held.total_held, h.port2_held.total_held, h.port3_held.total_held)
        (rw (h.port4_held.total_held, h.port1_held.fifo_held, h.port2_held.fifo_held)
          (rw (h.port3_held.fifo_held, h.port4_held.fifo_held, h.port1_held.fw_held)
            (rw (h.port2_held.fw_held, h.port3_held.fw_held, h.port4_held.fw_held))))

  module _ (init n : InitStats) (iw : AreWords init) (nw : AreWords n) (s : S)
      (h : HoldsAll s (advance_all init n)) where
    abbrev ReadsBack : (base : ℕ) (c m : Counters) → Type 0
    ReadsBack base c m = read_counters d base c s ≡ done m s

    each_port :
        ReadsBack bram1 init.port1 n.port1
        × ReadsBack bram2 init.port2 n.port2
        × ReadsBack bram3 init.port3 n.port3
        × ReadsBack bram4 init.port4 n.port4
    each_port = (
      read_counters_lem s bram1 init.port1 n.port1 iw.0 nw.0 h.port1_held,
      read_counters_lem s bram2 init.port2 n.port2 iw.1 nw.1 h.port2_held,
      read_counters_lem s bram3 init.port3 n.port3 iw.2 nw.2 h.port3_held,
      read_counters_lem s bram4 init.port4 n.port4 iw.3 nw.3 h.port4_held,
    )

    -- Loading the driver takes the values of the counters; later, with all registers readable,
    -- root's statistics of a port are what its three 32-bit counters gained since then, also where
    -- a counter has passed 2^32, zeros for a number that is no port's, and the statistics of all
    -- ports are the sums of those of the four, as 32-bit words.
    pub read_stats_since_load :
        (loaded : S) (r : StatDs)
        → HoldsAll loaded init
        → (init_stats d loaded ≡ done init loaded)
          × (read_stats_per_port d 0 init r s ≡ done (report r (counters_of n r.port)) s)
          × (read_stats_per_all_ports d 0 init r s ≡ done (report r (sum_counters n)) s)
    unfolding read_stats_per_port read_stats_per_all_ports counters_of
    read_stats_since_load loaded r l =
        (init_stats_lem loaded init l, ground (arith, each_port), ground (arith, each_port))
