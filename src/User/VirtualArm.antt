-- ===== src/User/VirtualArm.antt =====
-- sc_user_mode.h of example/Demo_HARDWARE_firewall_ARM: the library of the simulation over that
-- demo's virtual driver. Its functions are those of the other demo's sc_user_mode.h.
use sc_co_si_m.Prelude.{ℕ, Bool}
use sc_co_si_m.Driver.Machine.{M}
use sc_co_si_m.Driver.Rules.{FwDs}
use sc_co_si_m.Driver.Stats.{StatDs}
use sc_co_si_m.Virtual.Semaphore.{Client}
use sc_co_si_m.Virtual.Arm.{ArmOs, access}
use sc_co_si_m.User.Kernel.{Kernel}
use sc_co_si_m.User.Virtual
use sc_co_si_m.User.Virtual.{virtual_kernel}

module _ {W : Type 0} (os : ArmOs W) (fuel : ℕ) where
  pub arm_kernel : Kernel (Client W)
  arm_kernel = virtual_kernel (access os) fuel

  pub sc_user_setup_sfw : FwDs → ℕ → ℕ → ℕ → ℕ → ℕ → ℕ → M (Client W) (Unit {0})
  sc_user_setup_sfw = Virtual.sc_user_setup_sfw arm_kernel

  pub sc_user_setup_cfw : FwDs → ℕ → ℕ → ℕ → ℕ → ℕ → ℕ → ℕ → M (Client W) (Unit {0})
  sc_user_setup_cfw = Virtual.sc_user_setup_cfw arm_kernel

  pub sc_user_access_bram_fw : ℕ → ℕ → ℕ → ℕ → ℕ → M (Client W) ℕ
  sc_user_access_bram_fw = Virtual.sc_user_access_bram_fw arm_kernel

  pub sc_user_access_bram : ℕ → ℕ → ℕ → ℕ → M (Client W) ℕ
  sc_user_access_bram = Virtual.sc_user_access_bram arm_kernel

  pub sc_set_gid_per_noc_inport : Bool → ℕ → ℕ → M (Client W) (Unit {0})
  sc_set_gid_per_noc_inport = Virtual.sc_set_gid_per_noc_inport arm_kernel

  pub sc_set_gid_per_noc_outport : Bool → ℕ → ℕ → M (Client W) (Unit {0})
  sc_set_gid_per_noc_outport = Virtual.sc_set_gid_per_noc_outport arm_kernel

  pub sc_read_stats_total_per_port : StatDs → ℕ → M (Client W) ℕ
  sc_read_stats_total_per_port = Virtual.sc_read_stats_total_per_port arm_kernel

  pub sc_read_stats_fifo_per_port : StatDs → ℕ → M (Client W) ℕ
  sc_read_stats_fifo_per_port = Virtual.sc_read_stats_fifo_per_port arm_kernel

  pub sc_read_stats_fw_per_port : StatDs → ℕ → M (Client W) ℕ
  sc_read_stats_fw_per_port = Virtual.sc_read_stats_fw_per_port arm_kernel
