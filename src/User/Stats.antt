-- ===== src/User/Stats.antt =====
-- The statistics: readStatsTotalPerPort, readStatsFifoPerPort and readStatsFwPerPort of one port,
-- readStatsTotal, readStatsFifo and readStatsFw of all. `stack` is what the structure held.
use sc_co_si_m.Prelude.{ℕ, if◌then◌else◌}
use sc_co_si_m.Driver.Machine.{M, return, stop, ◌>>=◌}
use sc_co_si_m.Driver.Stats.{StatDs}
use sc_co_si_m.User.Kernel.{Kernel, or_exit}
use sc_co_si_m.User.Access.{no_port}

module _ {S : Type 0} (kernel : Kernel S) (stack : StatDs) where
  pub read_stats_total_per_port : ℕ → M S ℕ
  read_stats_total_per_port inport = if no_port inport then stop else (do
    r ← or_exit (kernel.ioctl_read_stats (record stack { port = inport; total_passed = 0 }))
    return r.total_passed)

  pub read_stats_fifo_per_port : ℕ → M S ℕ
  read_stats_fifo_per_port inport = if no_port inport then stop else (do
    r ← or_exit (kernel.ioctl_read_stats (record stack { port = inport; fifo_dropped = 0 }))
    return r.fifo_dropped)

  pub read_stats_fw_per_port : ℕ → M S ℕ
  read_stats_fw_per_port inport = if no_port inport then stop else (do
    r ← or_exit (kernel.ioctl_read_stats (record stack { port = inport; fw_dropped = 0 }))
    return r.fw_dropped)

  pub read_stats_total : M S ℕ
  read_stats_total = do
    r ← or_exit (kernel.ioctl_read_stats_all (record stack { total_passed = 0 }))
    return r.total_passed

  pub read_stats_fifo : M S ℕ
  read_stats_fifo = do
    r ← or_exit (kernel.ioctl_read_stats_all (record stack { fifo_dropped = 0 }))
    return r.fifo_dropped

  pub read_stats_fw : M S ℕ
  read_stats_fw = do
    r ← or_exit (kernel.ioctl_read_stats_all (record stack { fw_dropped = 0 }))
    return r.fw_dropped
