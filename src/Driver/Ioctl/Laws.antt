-- ===== src/Driver/Ioctl/Laws.antt =====
-- Who may do what through the driver's entry points.
use sc_co_si_m.Prelude.{
  ℕ, suc, ◌≤◌, ◌≡◌, ◌≢◌, ◌⊎◌, List, [], ◌∷◌, arith, ◌==◌, ◌-◌, refl, if◌then◌else◌,
}
use sc_co_si_m.Driver.Machine.{Device, Outcome, done, bug, spin}
use sc_co_si_m.Driver.Rules.Laws.{
  setup_fw_refused, read_fw_regs_refused, check_fw_regs_refused, after_setup, setup_fw_root,
}
use sc_co_si_m.Driver.Bram.Laws.{access_bram-write_refused}
use sc_co_si_m.Driver.Packets.Laws.{access_bram_fw-write_refused}
use sc_co_si_m.Driver.Stats.{InitStats}
use sc_co_si_m.Driver.Stats.Laws.{read_stats_per_port_refused, read_stats_per_all_ports_refused}
use sc_co_si_m.Driver.Ioctl.{
  IoctlAbi, UserArg, einval, copied, nothing, my_unlocked_ioctl, ioctl_access_bram, myioc_type,
  ioctl_setup_fw_port, ioctl_check_fw_port, ioctl_read_fw_port, ioctl_read_stats,
  ioctl_read_stats_all, ioctl_direct_access_bram, OpenResult, ebusy, opened, my_open, my_close,
}

-- The device as a call left it, however the call ended.
abbrev pub device_of : {S A : Type 0} → Outcome S A → S
device_of (done a s) = s
device_of (bug s) = s
device_of (spin s) = s

-- None of the driver's commands.
abbrev pub IsUnknown : IoctlAbi → ℕ → Type 0
IsUnknown k cmd =
    (k.ioc_type cmd ≢ myioc_type)
    ⊎ ((cmd ≢ ioctl_setup_fw_port k)
        × (cmd ≢ ioctl_check_fw_port k)
        × (cmd ≢ ioctl_direct_access_bram k)
        × (cmd ≢ ioctl_access_bram k)
        × (cmd ≢ ioctl_read_fw_port k)
        × (cmd ≢ ioctl_read_stats k)
        × (cmd ≢ ioctl_read_stats_all k))

module _ {S : Type 0} (d : Device S) (k : IoctlAbi) (init : InitStats) (gid fuel : ℕ) where
  -- A user other than root changes nothing on the device by any command, known or not, except
  -- perhaps by the two accesses to a BRAM with an operation code other than 0.
  pub my_unlocked_ioctl-non_root :
      (cmd : ℕ) (u : UserArg) (s : S)
      → gid ≢ 0
      → (cmd ≡ ioctl_access_bram k → u.access.op_code ≡ 0)
      → (cmd ≡ ioctl_direct_access_bram k → u.direct.op_code ≡ 0)
      → device_of (my_unlocked_ioctl d k init gid fuel cmd u s) ≡ s
  unfolding my_unlocked_ioctl
  my_unlocked_ioctl-non_root cmd u s g a b = ground (
    arith,
    setup_fw_refused d gid u.fw s,
    read_fw_regs_refused d gid u.fw s,
    check_fw_regs_refused d gid u.fw s,
    access_bram-write_refused d gid u.direct s,
    access_bram_fw-write_refused d fuel gid u.access s,
    read_stats_per_port_refused d gid init u.stat s,
    read_stats_per_all_ports_refused d gid init u.stat s,
  )

  -- A command code of another type than the driver's is refused to every user, and so is one that
  -- is none of the seven; the device is not touched.
  pub my_unlocked_ioctl_unknown :
      (cmd : ℕ) (u : UserArg) (s : S)
      → IsUnknown k cmd
      → my_unlocked_ioctl d k init gid fuel cmd u s ≡ done einval s
  unfolding my_unlocked_ioctl
  my_unlocked_ioctl_unknown cmd u s h = ground arith

-- When root calls the setup command, the registers are written with what the local structure
-- holds, whatever copy_from_user returned, which is the result.
pub my_unlocked_ioctl-setup :
    {S : Type 0} (d : Device S) (k : IoctlAbi) (init : InitStats) (fuel : ℕ) (u : UserArg) (s : S)
    → k.ioc_type (ioctl_setup_fw_port k) ≡ myioc_type
    → my_unlocked_ioctl d k init 0 fuel (ioctl_setup_fw_port k) u s
      ≡ done (copied u.rc_in nothing) (after_setup d u.fw s)
unfolding my_unlocked_ioctl
my_unlocked_ioctl-setup d k init fuel u s ty = ground (arith, setup_fw_root d u.fw s)

-- Calls of open and close by any processes, each over before the next begins. The kernel calls `my_close` only for a file
-- that `my_open` opened: `held` counts those, and a close with none is no call.
pub data Call : Type 0 where
  open_call close_call : Call

pub record Files : Type 0 where
  pub device_open : ℕ
  pub held : ℕ

granted : OpenResult → ℕ → ℕ
granted opened h = suc h
granted ebusy h = h

pub call : Call → Files → Files
call open_call f =
    let (r, n) = my_open f.device_open in record { device_open = n; held = granted r f.held }
call close_call f =
    if f.held == 0 then f else record { device_open = my_close f.device_open; held = f.held - 1 }

pub calls : List Call → Files → Files
calls [] f = f
calls (c ∷ cs) f = calls cs (call c f)

calls_exclusive_from :
    (cs : List Call) (f : Files)
    → f.device_open ≡ f.held
    → f.held ≤ 1
    → ((calls cs f).device_open ≡ (calls cs f).held) × ((calls cs f).held ≤ 1)
unfolding calls call granted my_open my_close
calls_exclusive_from [] f e h = (e, h)
calls_exclusive_from (open_call ∷ cs) f e h =
    calls_exclusive_from cs (call open_call f) (ground arith) (ground arith)
calls_exclusive_from (close_call ∷ cs) f e h =
    calls_exclusive_from cs (call close_call f) (ground arith) (ground arith)

-- Whatever processes open and close the device, one call after the other, from a fresh start the
-- driver's counter is the number of open files, and that is never more than one.
calls_exclusive :
    (cs : List Call)
    → let f = calls cs (record { device_open = 0; held = 0 }) in
      (f.device_open ≡ f.held) × (f.held ≤ 1)
calls_exclusive cs = calls_exclusive_from cs _ refl (omega arith)
