-- ===== src/Virtual/Calls.antt =====
-- The functions that the four virtual drivers share, word for word but for what they call. An
-- address is a number of bytes here. sc_fw_ds, sc_access_ds, sc_direct_access_ds and sc_stat_ds have
-- the fields of the driver's structures, which stand for them. The delays, which are only printed,
-- are left out.
pub mod Laws
pub mod Counts
use sc_co_si_m.Prelude.{
  ℕ, zero, suc, ◌+◌, ◌*◌, Option, none, some, ◌==◌, if◌then◌else◌, u32, sub32, shl32, shr, bit_or,
}
use sc_co_si_m.Driver.Machine.{M, spin, return, ◌>>=◌, ◌>>◌}
use sc_co_si_m.Driver.Map.{bram1, bram2, bram3, bram4, fw_setup, access_base, direct_base}
use sc_co_si_m.Driver.Rules.{FwDs}
use sc_co_si_m.Driver.Packets.{AccessDs}
use sc_co_si_m.Driver.Bram.{DirectAccessDs, Code, success, no_bram}
use sc_co_si_m.Driver.Stats.{StatDs}
use sc_co_si_m.Virtual.Access.{Access}

abbrev pub starting_lower_reg : ℕ
starting_lower_reg = 5 * 4

abbrev pub starting_high_reg : ℕ
starting_high_reg = 13 * 4

abbrev pub starting_rule_reg : ℕ
starting_rule_reg = 21 * 4

abbrev pub starting_statistics_total : ℕ
starting_statistics_total = 9 * 4

abbrev pub starting_statistics_fifo : ℕ
starting_statistics_fifo = 11 * 4

abbrev pub starting_statistics_fw : ℕ
starting_statistics_fw = 13 * 4

-- noc_setup_registers + starting + ((inport-1)*offset)
unfoldable pub sc_setup_reg : ℕ → ℕ → ℕ
sc_setup_reg starting inport = u32 (u32 (fw_setup + starting) + u32 (sub32 inport 1 * 8))

unfoldable pub sc_write_value : AccessDs → ℕ
sc_write_value r =
    let a = shl32 r.addr 24 in
    let b = u32 (a + shl32 (sub32 r.input_port 1) 18) in
    let c = u32 (b + shl32 (sub32 r.output_port 1) 16) in u32 (c + r.word)

unfoldable pub sc_read_value : AccessDs → ℕ
sc_read_value r =
    let a = shl32 r.addr 24 in
    let o = u32 (a + shl32 1 20) in
    let b = u32 (o + shl32 (sub32 r.input_port 1) 18) in
    let c = u32 (b + shl32 (sub32 r.output_port 1) 16) in u32 (c + 0)

abbrev pub sc_pending : ℕ
sc_pending = 0x80000000

unfoldable pub sc_print_data : ℕ → ℕ
sc_print_data v = shr (bit_or (shl32 v 16) (shr v 16)) 16

module _ {C : Type 0} (x : Access C) where
  unfoldable pub sc_setup_fw : FwDs → M C (Unit {0})
  sc_setup_fw fw = do
    x.init_virtual_kernel
    x.restart_ids
    x.sc_iowrite32 0 (sc_setup_reg starting_rule_reg fw.input_port)
    x.sc_iowrite32 fw.l_addr_reg (sc_setup_reg starting_lower_reg fw.input_port)
    x.sc_iowrite32 fw.h_addr_reg (sc_setup_reg starting_high_reg fw.input_port)
    x.sc_iowrite32 fw.rule_reg (sc_setup_reg starting_rule_reg fw.input_port)

  unfoldable pub sc_read_fw_regs : FwDs → M C FwDs
  sc_read_fw_regs fw = do
    l ← x.sc_ioread32 (sc_setup_reg starting_lower_reg fw.input_port)
    h ← x.sc_ioread32 (sc_setup_reg starting_high_reg fw.input_port)
    r ← x.sc_ioread32 (sc_setup_reg starting_rule_reg fw.input_port)
    return (record fw { l_addr_reg = l; h_addr_reg = h; rule_reg = r })

  -- The `switch` that writes a packet; it has no default.
  unfoldable pub sc_send : ℕ → Option ℕ → M C (Unit {0})
  sc_send v none = return tt
  sc_send v (some base) = x.sc_iowrite32 v (u32 (base + 5 * 4))

  unfoldable pub sc_receive : ℕ → Option ℕ → M C ℕ
  sc_receive test_data none = return test_data
  sc_receive test_data (some base) = x.sc_ioread32 (u32 (base + 7 * 4))

  -- The loop `while (test_data == 0x80000000)`, with fuel.
  unfoldable pub sc_poll : ℕ → Option ℕ → M C ℕ
  sc_poll zero base c = spin c
  sc_poll (suc n) base c =
      let again = sc_poll n base in
      (do v ← sc_receive sc_pending base; if v == sc_pending then again else return v) c

  -- The result is always 0; what is returned here is the structure.
  unfoldable pub sc_access_bram_fw : ℕ → AccessDs → M C AccessDs
  sc_access_bram_fw fuel r = do
    x.init_virtual_kernel
    (if r.op_code == 0
        then (do sc_send (sc_write_value r) (access_base r.input_port); return r)
        else (do
          sc_send (sc_read_value r) (access_base r.input_port)
          v ← sc_poll fuel (access_base r.input_port)
          return (record r { word = sc_print_data v })))

  -- The result is 0, or -1 for a BRAM that there is not.
  unfoldable pub sc_at_bram : DirectAccessDs → Option ℕ → M C (Code × DirectAccessDs)
  sc_at_bram r none = return (no_bram, r)
  sc_at_bram r (some base) =
      if r.op_code == 0
      then (do x.sc_iowrite32 r.word (u32 (base + u32 (r.addr * 4))); return (success, r))
      else (do
        v ← x.sc_ioread32 (u32 (base + u32 (r.addr * 4)))
        return (success, record r { word = v }))

  unfoldable pub sc_access_bram : DirectAccessDs → M C (Code × DirectAccessDs)
  sc_access_bram r = do x.init_virtual_kernel; sc_at_bram r (direct_base r.bram_no)

  unfoldable pub sc_report : StatDs → ℕ → M C StatDs
  sc_report r base = do
    t ← x.sc_ioread32 (u32 (base + starting_statistics_total))
    q ← x.sc_ioread32 (u32 (base + starting_statistics_fifo))
    w ← x.sc_ioread32 (u32 (base + starting_statistics_fw))
    return (record r { total_passed = t; fifo_dropped = q; fw_dropped = w })

  -- As in sc_kernel_mode_shm.h, without init_virtual_kernel.
  unfoldable pub sc_read_stats_per_port : StatDs → M C StatDs
  sc_read_stats_per_port r =
      if r.port == 1
      then sc_report r bram1
      else if r.port == 2
      then sc_report r bram2
      else if r.port == 3
      then sc_report r bram3
      else if r.port == 4
      then sc_report r bram4
      else return (record r { total_passed = 0; fifo_dropped = 0; fw_dropped = 0 })
