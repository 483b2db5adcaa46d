-- ===== src/User/Virtual.antt =====
-- sc_user_mode.h of example/Demo_SC_firewall and of example/Demo_HARDWARE_firewall_ARM: the library
-- over a virtual driver in place of the driver. Where a function is that of user_mode.h, but for
-- the results that the virtual driver's functions do not have, it is that function here.
pub mod Laws
use sc_co_si_m.Prelude.{ℕ, ◌+◌, Bool, ◌||◌, ◌&&◌, not, some, ltb, leb, if◌then◌else◌, ◌==◌}
use sc_co_si_m.Driver.Machine.{M, return, stop, ◌>>=◌, ◌>>◌}
use sc_co_si_m.Driver.Rules.{FwDs}
use sc_co_si_m.Driver.Stats.{StatDs}
use sc_co_si_m.Virtual.Access.{Access}
use sc_co_si_m.Virtual.Calls
use sc_co_si_m.User.Kernel.{Kernel}
use sc_co_si_m.User.Access.{access_bram, access_bram_fw, no_port}
use sc_co_si_m.User.Rules.{setup_sfw, setup_cfw}
use sc_co_si_m.User.Ports.{
  store_gid, set_gid_per_noc_inport, offset_input_ports_bram4, user_noc_output_ports,
}
use sc_co_si_m.User.Stats

-- The virtual driver's functions as the library calls them; the results are not looked at.
unfoldable pub virtual_kernel : {C : Type 0} → Access C → ℕ → Kernel C
virtual_kernel x fuel = record {
  ioctl_setup_fw_port = λ r. (do Calls.sc_setup_fw x r; return (some r));
  ioctl_read_fw_port = λ r. (do t ← Calls.sc_read_fw_regs x r; return (some t));
  ioctl_access_bram = λ r. (do t ← Calls.sc_access_bram_fw x fuel r; return (some t));
  ioctl_direct_access_bram = λ r. (do t ← Calls.sc_access_bram x r; return (some (t.1)));
  ioctl_read_stats = λ r. (do t ← Calls.sc_read_stats_per_port x r; return (some t));
  ioctl_read_stats_all = λ r. stop;
}

-- One of the tests of the bounds against a BRAM of 0x1000 bytes at `base`: ok_bram1 to ok_bram4.
abbrev pub ok_bram : ℕ → ℕ → ℕ → Bool
ok_bram base l h =
    (leb base l || not (leb (base + 0x1000) l)) || (leb base h || not (leb (base + 0x1000) h))

-- The chain of the four tests: none holds.
unfoldable pub bad_offsets : ℕ → ℕ → Bool
bad_offsets l h =
    not (ok_bram 0x40000000 l h)
    && (not (ok_bram 0x40001000 l h)
        && (not (ok_bram 0x40002000 l h) && not (ok_bram 0x40003000 l h)))

module _ {C : Type 0} (kernel : Kernel C) where
  unfoldable pub sc_user_setup_sfw : FwDs → ℕ → ℕ → ℕ → ℕ → ℕ → ℕ → M C (Unit {0})
  sc_user_setup_sfw stack inport l h rule write_ops read_ops =
      if no_port inport
      then stop
      else if ltb 1 rule
      then stop
      else if ltb 1 write_ops
      then stop
      else if ltb 1 read_ops
      then stop
      else if bad_offsets l h
      then stop
      else setup_sfw kernel stack inport l h rule write_ops read_ops

  pub sc_user_setup_cfw : FwDs → ℕ → ℕ → ℕ → ℕ → ℕ → ℕ → ℕ → M C (Unit {0})
  sc_user_setup_cfw = setup_cfw kernel

  pub sc_user_access_bram_fw : ℕ → ℕ → ℕ → ℕ → ℕ → M C ℕ
  sc_user_access_bram_fw = access_bram_fw kernel

  pub sc_user_access_bram : ℕ → ℕ → ℕ → ℕ → M C ℕ
  sc_user_access_bram = access_bram kernel

  unfoldable pub sc_set_gid_per_noc_inport : Bool → ℕ → ℕ → M C (Unit {0})
  sc_set_gid_per_noc_inport = set_gid_per_noc_inport kernel

  -- The row is one of the table of the input ports.
  unfoldable pub sc_set_gid_per_noc_outport : Bool → ℕ → ℕ → M C (Unit {0})
  sc_set_gid_per_noc_outport admin gid outport =
      if leb outport 0 || ltb user_noc_output_ports outport
      then return tt
      else if admin
      then store_gid kernel offset_input_ports_bram4 outport gid
      else return tt

  pub sc_read_stats_total_per_port : StatDs → ℕ → M C ℕ
  sc_read_stats_total_per_port = Stats.read_stats_total_per_port kernel

  pub sc_read_stats_fifo_per_port : StatDs → ℕ → M C ℕ
  sc_read_stats_fifo_per_port = Stats.read_stats_fifo_per_port kernel

  pub sc_read_stats_fw_per_port : StatDs → ℕ → M C ℕ
  sc_read_stats_fw_per_port = Stats.read_stats_fw_per_port kernel
