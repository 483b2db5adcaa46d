-- ===== src/Driver/Ioctl.antt =====
-- `my_unlocked_ioctl`, `my_open` and `my_close`: the driver's entry points (kernel_mode.c,
-- init_modules.h), and the command codes of ioctl_fw.h.
pub mod Laws
use sc_co_si_m.Prelude.{ℕ, Bool, zero, suc, ◌+◌, ◌-◌, ◌==◌, if◌then◌else◌, not}
use sc_co_si_m.Driver.Machine.{Device, M, return, ◌>>=◌, ◌>>◌}
use sc_co_si_m.Driver.Rules.{FwDs, setup_fw, read_fw_regs, check_fw_regs}
use sc_co_si_m.Driver.Bram.{DirectAccessDs, access_bram}
use sc_co_si_m.Driver.Packets.{AccessDs, access_bram_fw}
use sc_co_si_m.Driver.Stats.{InitStats, StatDs, read_stats_per_port, read_stats_per_all_ports}

-- The macros _IO, _IOR, _IOW, _IOC_TYPE and _IOC_SIZE of the kernel's linux/ioctl.h.
pub record IoctlAbi : Type 0 where
  pub io : ℕ → ℕ → ℕ
  pub ior : ℕ → ℕ → ℕ → ℕ
  pub iow : ℕ → ℕ → ℕ → ℕ
  pub ioc_type : ℕ → ℕ
  pub ioc_size : ℕ → ℕ

-- 'k'
abbrev pub myioc_type : ℕ
myioc_type = 107

-- The last argument is sizeof of the structure, 4 bytes for each of its fields.
module _ (k : IoctlAbi) where
  abbrev pub ioctl_setup_fw_port : ℕ
  ioctl_setup_fw_port = k.iow myioc_type (k.io myioc_type 1) 24

  abbrev pub ioctl_check_fw_port : ℕ
  ioctl_check_fw_port = k.ior myioc_type (k.io myioc_type 2) 24

  abbrev pub ioctl_read_fw_port : ℕ
  ioctl_read_fw_port = k.ior myioc_type (k.io myioc_type 1) 24

  abbrev pub ioctl_read_stats : ℕ
  ioctl_read_stats = k.ior myioc_type (k.io myioc_type 3) 16

  abbrev pub ioctl_read_stats_all : ℕ
  ioctl_read_stats_all = k.ior myioc_type (k.io myioc_type 4) 16

  abbrev pub ioctl_access_bram : ℕ
  ioctl_access_bram = k.iow myioc_type (k.io myioc_type 2) 20

  abbrev pub ioctl_direct_access_bram : ℕ
  ioctl_direct_access_bram = k.iow myioc_type (k.io myioc_type 3) 16

-- What a call brings from user space: for each of the local structures what it holds after
-- copy_from_user, whatever that returned, and what the two copies return (0 where all was copied).
pub record UserArg : Type 0 where
  pub fw : FwDs
  pub stat : StatDs
  pub access : AccessDs
  pub direct : DirectAccessDs
  pub rc_in : ℕ
  pub rc_out : ℕ

-- What copy_to_user is given.
pub data Written : Type 0 where
  nothing : Written
  fw_out : FwDs → Written
  stat_out : StatDs → Written
  access_out : AccessDs → Written
  direct_out : DirectAccessDs → Written

-- What the call returns: -EINVAL, or what a copy returned.
pub data Reply : Type 0 where
  einval : Reply
  copied : ℕ → Written → Reply

module _ {S : Type 0} (d : Device S) (k : IoctlAbi) (init : InitStats) (gid fuel : ℕ) where
  pub my_unlocked_ioctl : ℕ → UserArg → M S Reply
  my_unlocked_ioctl cmd u =
      if not (k.ioc_type cmd == myioc_type)
      then return einval
      else if cmd == ioctl_setup_fw_port k
      then (do setup_fw d gid u.fw; return (copied u.rc_in nothing))
      else if cmd == ioctl_check_fw_port k
      then (do r ← check_fw_regs d gid u.fw; return (copied u.rc_out (fw_out r.1)))
      else if cmd == ioctl_direct_access_bram k
      then (do r ← access_bram d gid u.direct; return (copied u.rc_out (direct_out r.1)))
      else if cmd == ioctl_access_bram k
      then (do r ← access_bram_fw d fuel gid u.access; return (copied u.rc_out (access_out r)))
      else if cmd == ioctl_read_fw_port k
      then (do r ← read_fw_regs d gid u.fw; return (copied u.rc_out (fw_out r)))
      else if cmd == ioctl_read_stats k
      then (do r ← read_stats_per_port d gid init u.stat; return (copied u.rc_out (stat_out r)))
      else if cmd == ioctl_read_stats_all k
      then (do
        r ← read_stats_per_all_ports d gid init u.stat
        return (copied u.rc_out (stat_out r)))
      else return einval

-- `Device_Open`, and what `my_open` returns: -EBUSY or 0.
pub data OpenResult : Type 0 where
  ebusy opened : OpenResult

-- `if (Device_Open)`, the first step of `my_open`.
abbrev pub in_use : ℕ → Bool
in_use n = not (n == 0)

-- `Device_Open++`, the second step. Nothing in the source keeps the step of another call from coming
-- between the two, on a device that two processes open at once.
abbrev pub count_open : ℕ → ℕ
count_open n = n + 1

-- The whole call, where no step of another one comes between its two.
pub my_open : ℕ → OpenResult × ℕ
my_open n = if in_use n then (ebusy, n) else (opened, count_open n)

pub my_close : ℕ → ℕ
my_close n = n - 1
