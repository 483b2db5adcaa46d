-- ===== src/System/RuleSetup.antt =====
-- `setupFW` of the driver on the setup registers and the `setupfw_rule` thread of the firewall,
-- which look at each other's work only once in a clock cycle.
use sc_co_si_m.Prelude.{
  ℕ, ◌<◌, ◌≡◌, ◌≢◌, List, ◌++◌, map, replicate, map-replicate, arith, refl, sym,
}
use mathlib.Core.List.{map-append}
use sc_co_si_m.Firewall.Packet.{Port, number}
use sc_co_si_m.Firewall.Registers.{write_setup, lower, upper, rule, execute_write}
use sc_co_si_m.Firewall.Setup.{Registers, Installed, install, rounds}
use sc_co_si_m.Firewall.Setup.Laws.{rounds-append, rounds_held, install_phases, install_same}
use sc_co_si_m.Driver.Machine.{Device, done}
use sc_co_si_m.Driver.Map.{setup_reg, starting_lower_reg, starting_high_reg, starting_rule_reg}
use sc_co_si_m.Driver.Rules.{FwDs, setup_fw}
use sc_co_si_m.Driver.Rules.Laws.{after_setup, setup_fw_root}
use sc_co_si_m.System.AddressMap.{port_number, setup_reg-WritesTo}

-- The setup registers of all ports now, and in each cycle so far.
pub record History : Type 0 where
  pub now : Port → Registers
  pub cycles : List (Port → Registers)

-- What the thread has installed for a port over those cycles.
unfoldable pub installed : Port → History → Installed → Installed
installed p h s = rounds (map (λ r. r p) h.cycles) s

module _ (held : History → ℕ) (read : ℕ → History → ℕ × History) where
  -- A write to the firewall's registers, which then keep their values for `held` cycles, until the
  -- driver's next access.
  pub write_firewall : ℕ → ℕ → History → History
  write_firewall v a h =
      let now = write_setup (execute_write a) v h.now in
      record { now = now; cycles = h.cycles ++ replicate (held h) now }

  abbrev pub firewall_device : Device History
  firewall_device = record { ioread32 = read; iowrite32 = write_firewall }

  -- While the registers are held the thread looks at them at least once, and takes them over once.
  installed-write :
      (p : Port) (v a : ℕ) (h : History) (s : Installed)
      → 0 < held h
      → installed p (write_firewall v a h) s
        ≡ install (write_setup (execute_write a) v h.now p) (installed p h s)
  unfolding installed write_firewall
  installed-write p v a h s pos =
      let now = write_setup (execute_write a) v h.now in
      rw
        (
          map-append (λ r. r p) h.cycles (replicate (held h) now),
          map-replicate (λ r. r p) (held h) now,
          rounds-append (map (λ r. r p) h.cycles) (replicate (held h) (now p)) s,
        )
        (rounds_held (held h) (now p) _ pos)

  module _ (pos : (h : History) → 0 < held h) where
    -- Four writes are four of the thread's rounds, on what they leave in the registers.
    four_writes :
        (q : Port) (h : History) (s : Installed) (a b c d va vb vc vd : ℕ)
        → let r1 = write_setup (execute_write a) va h.now in
          let r2 = write_setup (execute_write b) vb r1 in
          let r3 = write_setup (execute_write c) vc r2 in
          let r4 = write_setup (execute_write d) vd r3 in
          installed q
            (write_firewall vd d
              (write_firewall vc c (write_firewall vb b (write_firewall va a h))))
            s
          ≡ install (r4 q) (install (r3 q) (install (r2 q) (install (r1 q) (installed q h s))))
    unfolding write_firewall
    four_writes q h s a b c d va vb vc vd =
        let h1 = write_firewall va a h in
        let h2 = write_firewall vb b h1 in
        let h3 = write_firewall vc c h2 in
        cc (
          installed-write q va a h s (pos h),
          installed-write q vb b h1 s (pos h1),
          installed-write q vc c h2 s (pos h2),
          installed-write q vd d h3 s (pos h3),
        )

    -- What the driver's four writes leave the thread to do, for any port.
    installed-after_setup :
        (p q : Port) (fw : FwDs) (h : History) (s : Installed)
        → fw.input_port ≡ port_number p
        → let r1 = write_setup (rule p) 0 h.now in
          let r2 = write_setup (lower p) fw.l_addr_reg r1 in
          let r3 = write_setup (upper p) fw.h_addr_reg r2 in
          let r4 = write_setup (rule p) fw.rule_reg r3 in
          installed q (after_setup firewall_device fw h) s
          ≡ install (r4 q) (install (r3 q) (install (r2 q) (install (r1 q) (installed q h s))))
    unfolding after_setup
    installed-after_setup p q fw h s e =
        let (l, u, r) = setup_reg-WritesTo p in
        let at_l : execute_write (setup_reg starting_lower_reg fw.input_port) ≡ lower p =
          rw e l.1 in
        let at_u : execute_write (setup_reg starting_high_reg fw.input_port) ≡ upper p = rw e u.1 in
        let at_r : execute_write (setup_reg starting_rule_reg fw.input_port) ≡ rule p = rw e r.1 in
        rw (sym at_l, sym at_u, sym at_r)
          (four_writes q h s _ _ _ _ 0 fw.l_addr_reg fw.h_addr_reg fw.rule_reg)

    -- For each port and any rule but 0, the driver's four register writes end, and leave that rule
    -- with its two bounds installed by the firewall's thread, whatever was installed before, if
    -- the registers are held for a cycle or more after each write.
    pub setup_fw-installs :
        (p : Port) (fw : FwDs) (h : History) (s : Installed)
        → fw.input_port ≡ port_number p
        → fw.rule_reg ≢ 0
        → let t = after_setup firewall_device fw h in
          (setup_fw firewall_device 0 fw h ≡ done tt t)
          × (installed p t s ≡ record {
            precommand = fw.rule_reg;
            range = record { rule = fw.rule_reg; lower = fw.l_addr_reg; upper = fw.h_addr_reg };
          })
    unfolding write_setup
    setup_fw-installs p fw h s e n = (
      setup_fw_root firewall_device fw h,
      (let a = record (h.now p) { rule = 0 } in
          let b = record a { lower = fw.l_addr_reg } in
          let c = record b { upper = fw.h_addr_reg } in
          let r = record c { rule = fw.rule_reg } in
          let phases = install_phases a b c r (installed p h s) refl refl refl n in
          ground (arith, installed-after_setup p p fw h s e, phases)),
    )

    -- Setting up a rule for one port leaves what is installed for any other port as it was, if
    -- that port's rule register holds the rule in force, and the registers are held for a cycle or
    -- more after each write.
    pub setup_fw-spares :
        (p q : Port) (fw : FwDs) (h : History) (s : Installed)
        → fw.input_port ≡ port_number p
        → number p ≢ number q
        → (h.now q).rule ≡ (installed q h s).precommand
        → installed q (after_setup firewall_device fw h) s ≡ installed q h s
    unfolding write_setup
    setup_fw-spares p q fw h s e n same =
        ground
          (arith, installed-after_setup p q fw h s e, install_same (h.now q) (installed q h s) same)
