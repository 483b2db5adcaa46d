-- ===== src/User/Kernel.antt =====
-- What the library calls: the commands of the driver, one by one, and the user database.
use sc_co_si_m.Prelude.{Option, some, none}
use sc_co_si_m.Driver.Machine.{M, return, stop, ◌>>=◌}
use sc_co_si_m.Driver.Rules.{FwDs}
use sc_co_si_m.Driver.Packets.{AccessDs}
use sc_co_si_m.Driver.Bram.{DirectAccessDs}
use sc_co_si_m.Driver.Stats.{StatDs}

-- open("/dev/sw_firewall"), one ioctl on a structure, and close: the structure afterwards, or `none`
-- where the result of ioctl is negative.
pub record Kernel (S : Type 0) : Type 0 where
  pub ioctl_setup_fw_port : FwDs → M S (Option FwDs)
  pub ioctl_read_fw_port : FwDs → M S (Option FwDs)
  pub ioctl_access_bram : AccessDs → M S (Option AccessDs)
  pub ioctl_direct_access_bram : DirectAccessDs → M S (Option DirectAccessDs)
  pub ioctl_read_stats : StatDs → M S (Option StatDs)
  pub ioctl_read_stats_all : StatDs → M S (Option StatDs)

-- `if (rc < 0) exit(1)`; `bug` ends the process.
abbrev pub or_exit : {S A : Type 0} → M S (Option A) → M S A
or_exit m = m >>= λ r. elim r [ none ↦ stop | some a ↦ return a ]
