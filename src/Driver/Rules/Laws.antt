-- ===== src/Driver/Rules/Laws.antt =====
-- What the rule functions do to the setup registers.
use sc_co_si_m.Prelude.{ℕ, ◌+◌, ◌-◌, ◌*◌, ◌≤◌, ◌<◌, ◌≡◌, ◌≢◌, arith, refl}
use sc_co_si_m.Driver.Machine.{Device, IsStorage, done, bug, ◌>>=◌}
use sc_co_si_m.Driver.Map.{setup_reg, starting_lower_reg, starting_high_reg, starting_rule_reg}
use sc_co_si_m.Driver.Rules.{FwDs, agree, setup_fw, read_fw_regs, compare_regs, check_fw_regs}

-- The page that the driver maps for the setup registers.
abbrev pub InSetup : ℕ → Type 0
InSetup a = (0x50000000 ≤ a) × (a < 0x50000400)

-- Where the registers of a port lie, for the port numbers whose registers lie in the page.
pub setup_reg_lem :
    (starting port : ℕ)
    → starting ≤ 21
    → 1 ≤ port
    → port ≤ 8
    → setup_reg starting port ≡ 0x50000000 + 4 * starting + 8 * (port - 1)
unfolding setup_reg
setup_reg_lem starting port h lo hi = omega arith

-- A register of port p + 4 is the next register of port p.
setup_reg_above :
    (p q : ℕ)
    → 1 ≤ p
    → p ≤ 4
    → q ≡ p + 4
    → (setup_reg 5 q ≡ setup_reg 13 p) × (setup_reg 13 q ≡ setup_reg 21 p)
unfolding setup_reg
setup_reg_above p q lo hi e = omega arith

module _ {S : Type 0} (d : Device S) where
  pub setup_fw_refused : (gid : ℕ) (fw : FwDs) (s : S) → gid ≢ 0 → setup_fw d gid fw s ≡ bug s
  unfolding setup_fw
  setup_fw_refused gid fw s g = ground arith

  pub read_fw_regs_refused :
      (gid : ℕ) (fw : FwDs) (s : S) → gid ≢ 0 → read_fw_regs d gid fw s ≡ bug s
  unfolding read_fw_regs
  read_fw_regs_refused gid fw s g = ground arith

  pub check_fw_regs_refused :
      (gid : ℕ) (fw : FwDs) (s : S) → gid ≢ 0 → check_fw_regs d gid fw s ≡ bug s
  unfolding check_fw_regs
  check_fw_regs_refused gid fw s g = ground arith

  -- The device after `setup_fw`.
  unfoldable pub after_setup : FwDs → S → S
  after_setup fw s = d.iowrite32 fw.rule_reg (setup_reg starting_rule_reg fw.input_port) (
      d.iowrite32 fw.h_addr_reg (setup_reg starting_high_reg fw.input_port) (
        d.iowrite32 fw.l_addr_reg (setup_reg starting_lower_reg fw.input_port)
          (d.iowrite32 0 (setup_reg starting_rule_reg fw.input_port) s)))

  after_setup_above :
      (fw : FwDs) (s : S) {h r : ℕ}
      → (setup_reg 5 fw.input_port ≡ h) × (setup_reg 13 fw.input_port ≡ r)
      → after_setup fw s
        ≡ d.iowrite32 fw.rule_reg (setup_reg 21 fw.input_port) (
            d.iowrite32 fw.h_addr_reg r
              (d.iowrite32 fw.l_addr_reg h (d.iowrite32 0 (setup_reg 21 fw.input_port) s)))
  unfolding after_setup
  after_setup_above fw s e = cc (e.0, e.1)

  pub setup_fw_root : (fw : FwDs) (s : S) → setup_fw d 0 fw s ≡ done tt (after_setup fw s)
  unfolding setup_fw after_setup
  setup_fw_root fw s = refl

  module _ (st : IsStorage d InSetup) where
    -- Three registers in a row of writes: the last value written to each is read back.
    read_back :
        (l h r vl vh vr : ℕ) (s : S)
        → InSetup l
        → InSetup h
        → InSetup r
        → l ≢ h
        → l ≢ r
        → h ≢ r
        → let t = d.iowrite32 vr r (d.iowrite32 vh h (d.iowrite32 vl l s)) in
          (d.ioread32 l t ≡ (vl, t)) × (d.ioread32 h t ≡ (vh, t)) × (d.ioread32 r t ≡ (vr, t))
    read_back l h r vl vh vr s il ih ir lh lr hr =
        let t1 = d.iowrite32 vl l s in
        let t2 = d.iowrite32 vh h t1 in
        let t3 = d.iowrite32 vr r t2 in
        (
          ground (
            arith,
            st.read_pure l t3 il,
            st.read_other l r vr t2 il ir lr,
            st.read_other l h vh t1 il ih lh,
            st.read_written l vl s il,
          ),
          ground (
            arith,
            st.read_pure h t3 ih,
            st.read_other h r vr t2 ih ir hr,
            st.read_written h vh t1 ih,
          ),
          ground (arith, st.read_pure r t3 ir, st.read_written r vr t2 ir),
        )

    -- The same for a register that is not written, and writes before and after to another one.
    read_around :
        (a h r x vh vr vx low : ℕ) (s : S)
        → InSetup a × InSetup h × InSetup r × InSetup x
        → (a ≢ h) × (a ≢ r) × (a ≢ x) × (h ≢ r) × (h ≢ x) × (r ≢ x)
        → d.ioread32 a s ≡ (low, s)
        → let t = d.iowrite32 vx x (d.iowrite32 vr r (d.iowrite32 vh h (d.iowrite32 0 x s))) in
          (d.ioread32 a t ≡ (low, t)) × (d.ioread32 h t ≡ (vh, t)) × (d.ioread32 r t ≡ (vr, t))
    read_around a h r x vh vr vx low s i n held =
        let t0 = d.iowrite32 0 x s in
        let t1 = d.iowrite32 vh h t0 in
        let t2 = d.iowrite32 vr r t1 in
        let t3 = d.iowrite32 vx x t2 in
        (
          ground (
            arith,
            st.read_pure a t3 i.0,
            st.read_other a x vx t2 i.0 i.3 n.2,
            st.read_other a r vr t1 i.0 i.2 n.1,
            st.read_other a h vh t0 i.0 i.1 n.0,
            st.read_other a x 0 s i.0 i.3 n.2,
          ),
          ground (
            arith,
            st.read_pure h t3 i.1,
            st.read_other h x vx t2 i.1 i.3 n.4,
            st.read_other h r vr t1 i.1 i.2 n.3,
            st.read_written h vh t0 i.1,
          ),
          ground (
            arith,
            st.read_pure r t3 i.2,
            st.read_other r x vx t2 i.2 i.3 n.5,
            st.read_written r vr t1 i.2,
          ),
        )

    read_fw_regs_of :
        (fw : FwDs) (vl vh vr : ℕ) (t : S)
        → (d.ioread32 (setup_reg starting_lower_reg fw.input_port) t ≡ (vl, t))
          × (d.ioread32 (setup_reg starting_high_reg fw.input_port) t ≡ (vh, t))
          × (d.ioread32 (setup_reg starting_rule_reg fw.input_port) t ≡ (vr, t))
        → read_fw_regs d 0 fw t
          ≡ done (record fw { l_addr_reg = vl; h_addr_reg = vh; rule_reg = vr }) t
    unfolding read_fw_regs
    read_fw_regs_of fw vl vh vr t e = rw (e.0) (rw (e.1) (rw (e.2)))

    -- What is read back of a port after `setup_fw` for that port.
    setup_read_back :
        (fw : FwDs) (s : S)
        → 1 ≤ fw.input_port
        → fw.input_port ≤ 4
        → read_fw_regs d 0 fw (after_setup fw s) ≡ done fw (after_setup fw s)
    unfolding after_setup
    setup_read_back fw s lo hi =
        read_fw_regs_of fw fw.l_addr_reg fw.h_addr_reg fw.rule_reg (after_setup fw s) (
          read_back (setup_reg 5 p) (setup_reg 13 p) (setup_reg 21 p) fw.l_addr_reg fw.h_addr_reg
            fw.rule_reg (d.iowrite32 0 (setup_reg 21 p) s) (omega (arith, e5)) (omega (arith, e13))
            (omega (arith, e21)) (omega (arith, e5, e13)) (omega (arith, e5, e21))
            (omega (arith, e13, e21)))
      where
        open fw use {input_port as p}

        e5 : setup_reg 5 p ≡ 0x50000000 + 4 * 5 + 8 * (p - 1)
        e5 = setup_reg_lem 5 p (omega arith) lo (omega arith)

        e13 : setup_reg 13 p ≡ 0x50000000 + 4 * 13 + 8 * (p - 1)
        e13 = setup_reg_lem 13 p (omega arith) lo (omega arith)

        e21 : setup_reg 21 p ≡ 0x50000000 + 4 * 21 + 8 * (p - 1)
        e21 = setup_reg_lem 21 p (omega arith) lo (omega arith)

    -- On a device whose setup registers are storage, a rule that root sets up for one of the four
    -- ports is found by the check: it returns 1 and the values given, and changes nothing.
    pub check_fw_regs-setup_fw :
        (fw : FwDs) (s : S)
        → 1 ≤ fw.input_port
        → fw.input_port ≤ 4
        → let t = after_setup fw s in
          (setup_fw d 0 fw s ≡ done tt t) × (check_fw_regs d 0 fw t ≡ done (agree, fw) t)
    unfolding check_fw_regs compare_regs
    check_fw_regs-setup_fw fw s lo hi =
        (setup_fw_root fw s, rw (setup_read_back fw s lo hi, ◌>>=◌) (ground arith))

    -- On a device whose setup registers are storage, a rule that root sets up for port p + 4
    -- changes the rule of port p, for each of the four ports: its upper bound becomes the lower
    -- bound given, and its rule register the upper bound given.
    setup_fw_clobbers :
        (fw own : FwDs) (s : S) (low : ℕ)
        → 1 ≤ own.input_port
        → own.input_port ≤ 4
        → fw.input_port ≡ own.input_port + 4
        → d.ioread32 (setup_reg starting_lower_reg own.input_port) s ≡ (low, s)
        → let t = after_setup fw s in
          read_fw_regs d 0 own t
          ≡ done
              (record own {
                l_addr_reg = low;
                h_addr_reg = fw.l_addr_reg;
                rule_reg = fw.h_addr_reg;
              })
              t
    setup_fw_clobbers fw own s low lo hi e held =
        rw (after_setup_above fw s (setup_reg_above p q lo hi e)) (
          read_fw_regs_of own low fw.l_addr_reg fw.h_addr_reg _ (
            read_around (setup_reg 5 p) (setup_reg 13 p) (setup_reg 21 p) (setup_reg 21 q)
              fw.l_addr_reg fw.h_addr_reg fw.rule_reg low s (omega (arith, regs))
              (omega (arith, regs)) held))
      where
        open own use {input_port as p}
        open fw use {input_port as q}

        regs :
            (setup_reg 5 p ≡ 0x50000014 + 8 * (p - 1))
            × (setup_reg 13 p ≡ 0x50000034 + 8 * (p - 1))
            × (setup_reg 21 p ≡ 0x50000054 + 8 * (p - 1))
            × (setup_reg 21 q ≡ 0x50000074 + 8 * (p - 1))
        regs =
            omega
              (arith, setup_reg_lem 5 p, setup_reg_lem 13 p, setup_reg_lem 21 p, setup_reg_lem 21 q)
