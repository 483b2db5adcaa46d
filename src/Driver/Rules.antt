-- ===== src/Driver/Rules.antt =====
-- `setupFW`, `readFWRegs` and `checkFWRegs` of kernel_mode.c: the registers of a firewall rule.
pub mod Laws
use sc_co_si_m.Prelude.{ℕ, ◌&&◌, ◌==◌, if◌then◌else◌}
use sc_co_si_m.Driver.Machine.{Device, M, return, stop, load, store, ◌>>=◌, ◌>>◌}
use sc_co_si_m.Driver.Map.{setup_reg, starting_lower_reg, starting_high_reg, starting_rule_reg}

-- `struct fw_ds`
pub record FwDs : Type 0 where
  pub op_code : ℕ
  pub input_port : ℕ
  pub output_port : ℕ
  pub l_addr_reg : ℕ
  pub h_addr_reg : ℕ
  pub rule_reg : ℕ

-- The result of `checkFWRegs`: 1 and -1.
pub data Flag : Type 0 where
  agree differ : Flag

-- The comparison at the end of `checkFWRegs`.
compare_regs : FwDs → FwDs → Flag
compare_regs given actual =
    if given.l_addr_reg == actual.l_addr_reg
      && (given.h_addr_reg == actual.h_addr_reg && given.rule_reg == actual.rule_reg)
    then agree
    else differ

module _ {S : Type 0} (d : Device S) (gid : ℕ) where
  unfoldable pub setup_fw : FwDs → M S (Unit {0})
  setup_fw fw =
      if gid == 0
      then (do
        store d 0 (setup_reg starting_rule_reg fw.input_port)
        store d fw.l_addr_reg (setup_reg starting_lower_reg fw.input_port)
        store d fw.h_addr_reg (setup_reg starting_high_reg fw.input_port)
        store d fw.rule_reg (setup_reg starting_rule_reg fw.input_port))
      else stop

  unfoldable pub read_fw_regs : FwDs → M S FwDs
  read_fw_regs fw =
      if gid == 0
      then (do
        l ← load d (setup_reg starting_lower_reg fw.input_port)
        h ← load d (setup_reg starting_high_reg fw.input_port)
        r ← load d (setup_reg starting_rule_reg fw.input_port)
        return (record fw { l_addr_reg = l; h_addr_reg = h; rule_reg = r }))
      else stop

  -- The flag, and the structure as the read left it.
  pub check_fw_regs : FwDs → M S (Flag × FwDs)
  check_fw_regs fw =
      if gid == 0
      then (do actual ← read_fw_regs fw; return (compare_regs fw actual, actual))
      else stop
