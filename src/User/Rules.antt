-- ===== src/User/Rules.antt =====
-- setupSFW, readSFW, setupCFW and readCFW: the rules of the firewall.
pub mod Laws
use sc_co_si_m.Prelude.{ℕ, ◌+◌, Bool, ◌||◌, not, ltb, leb, ◌==◌, if◌then◌else◌, u32, shl32}
use sc_co_si_m.Driver.Machine.{M, return, stop, ◌>>=◌, ◌>>◌}
use sc_co_si_m.Driver.Rules.{FwDs}
use sc_co_si_m.User.Kernel.{Kernel, or_exit}
use sc_co_si_m.User.Access.{no_port}

abbrev pub admin_input_port : ℕ
admin_input_port = 4

abbrev pub admin_output_port : ℕ
admin_output_port = 4

-- Rule_reg, one addition after the other.
unfoldable pub simple_rule_reg : ℕ → ℕ → ℕ → ℕ
simple_rule_reg rule write_ops read_ops =
    let a = shl32 rule 7 in
    let b = u32 (a + shl32 0 6) in
    let c = u32 (b + shl32 write_ops 5) in let d = u32 (c + shl32 read_ops 4) in u32 (d + 0)

unfoldable pub complex_rule_reg : ℕ → ℕ → ℕ → ℕ → ℕ
complex_rule_reg rule write_ops read_ops outport =
    let a = shl32 rule 7 in
    let b = u32 (a + shl32 1 6) in
    let c = u32 (b + shl32 write_ops 5) in
    let d = u32 (c + shl32 read_ops 4) in
    let e = u32 (d + (if outport == 4 then shl32 1 3 else shl32 0 3)) in
    let f = u32 (e + (if outport == 3 then shl32 1 2 else shl32 0 2)) in
    let g = u32 (f + (if outport == 2 then shl32 1 1 else shl32 0 1)) in
    u32 (g + (if outport == 1 then 1 else 0))

-- The test of the range in setupCFW.
unfoldable pub bad_range : ℕ → ℕ → Bool
bad_range l h = leb h l || leb 0x1000 l || ltb 0x1000 h

module _ {S : Type 0} (kernel : Kernel S) where
  -- ok_bram1 to ok_bram4 decide only what is logged. `stack` is what the structure held; the bounds
  -- are `unsigned long`, and the structure's fields have 32 bits.
  unfoldable pub setup_sfw : FwDs → ℕ → ℕ → ℕ → ℕ → ℕ → ℕ → M S (Unit {0})
  setup_sfw stack inport l_addr_reg h_addr_reg rule write_ops read_ops =
      if no_port inport
      then stop
      else if ltb 1 rule
      then stop
      else if ltb 1 write_ops
      then stop
      else if ltb 1 read_ops
      then stop
      else (do
        r ← or_exit (
            kernel.ioctl_setup_fw_port (record stack {
              input_port = inport;
              l_addr_reg = u32 l_addr_reg;
              h_addr_reg = u32 h_addr_reg;
              rule_reg = simple_rule_reg rule write_ops read_ops;
            }))
        return tt)

  unfoldable pub setup_cfw : FwDs → ℕ → ℕ → ℕ → ℕ → ℕ → ℕ → ℕ → M S (Unit {0})
  setup_cfw stack inport l_addr_reg h_addr_reg rule write_ops read_ops outport =
      if no_port inport
      then stop
      else if no_port outport
      then stop
      else if ltb 1 rule
      then stop
      else if ltb 1 write_ops
      then stop
      else if ltb 1 read_ops
      then stop
      else if bad_range l_addr_reg h_addr_reg
      then stop
      else (do
        r ← or_exit (
            kernel.ioctl_setup_fw_port (record stack {
              input_port = inport;
              output_port = outport;
              l_addr_reg = l_addr_reg;
              h_addr_reg = h_addr_reg;
              rule_reg = complex_rule_reg rule write_ops read_ops outport;
            }))
        return tt)

  -- readSFW and readCFW, word for word the same; `root` is groupIdFromName("root"). What is read is
  -- only logged.
  unfoldable pub read_sfw : FwDs → ℕ → ℕ → M S (Unit {0})
  read_sfw stack root gid = if not (gid == root) then stop else (do
    r ← or_exit (
        kernel.ioctl_read_fw_port (record stack {
          input_port = admin_input_port;
          l_addr_reg = 0;
          h_addr_reg = 0;
          rule_reg = 0;
        }))
    return tt)

  abbrev pub read_cfw : FwDs → ℕ → ℕ → M S (Unit {0})
  read_cfw = read_sfw
