-- ===== src/System/Policy.antt =====
-- A rule on its whole way: what a program asks of the user-mode library, the driver's writes, and
-- the check that the firewall's input port then makes.
use sc_co_si_m.Prelude.{ℕ, ◌≤◌, ◌<◌, ◌≡◌, ◌↔◌, refl, ap, ◌∙◌, true, some, arith}
use sc_co_si_m.Firewall.Packet.{Port, read_packet}
use sc_co_si_m.Firewall.Rule.{Rule, fw_hit}
use sc_co_si_m.Firewall.Setup.{Installed}
use sc_co_si_m.Firewall.Input.Laws.{number-lt-four}
use sc_co_si_m.Driver.Machine.{Device, done, return, ◌>>=◌}
use sc_co_si_m.Driver.Rules.{FwDs, setup_fw}
use sc_co_si_m.Driver.Rules.Laws.{after_setup}
use sc_co_si_m.User.Kernel.{Kernel, or_exit}
use sc_co_si_m.User.Rules.{setup_cfw}
use sc_co_si_m.User.Rules.Laws.{ComplexlyBlocks, setup_cfw_blocks}
use sc_co_si_m.System.AddressMap.{port_number}
use sc_co_si_m.System.RuleSetup.{History, installed, firewall_device, setup_fw-installs}

-- The driver behind the library's calls: its setup command, called by root, is setupFW.
pub record Drives {S : Type 0} (kernel : Kernel S) (d : Device S) : Type 0 where
  pub sets_up :
      (fw : FwDs) (s : S)
      → kernel.ioctl_setup_fw_port fw s ≡ (setup_fw d 0 fw >>= λ r. return (some fw)) s

called :
    {S : Type 0} (kernel : Kernel S) (d : Device S) (fw : FwDs) (s t : S)
    → Drives kernel d
    → setup_fw d 0 fw s ≡ done tt t
    → (or_exit (kernel.ioctl_setup_fw_port fw) >>= λ r. return tt) s ≡ done tt t
called kernel d fw s t drives e =
    let asked : kernel.ioctl_setup_fw_port fw s ≡ done (some fw) t =
      drives.sets_up fw s ∙ rw (◌>>=◌, e) refl in
    rw (◌>>=◌, asked) refl

-- The rule that the firewall has installed, as the input ports take it.
abbrev pub in_force : Port → History → Installed → Rule
in_force p h s =
    let i = (installed p h s).range in
    record { read_r = i.rule; read_l = i.lower; read_h = i.upper }

module _ (held : History → ℕ) (read : ℕ → History → ℕ × History) (pos : (h : History) → 0 < held h)
    (kernel : Kernel History) (drives : Drives kernel (firewall_device held read)) where
  -- For an output port of 1 to 4, bounds in order and up to 0x1000, and flags of 0 or 1, setupCFW
  -- of the user-mode library, over a driver that calls setupFW for it, ends, with each write to
  -- the firewall held for a cycle or more; and the rule that the firewall has then installed for
  -- the input port stops exactly the packets for that output port, with an offset between the
  -- bounds, of an operation that was denied, if the rule was enabled.
  pub policy_enforced :
      (p : Port) (stack : FwDs) (l h rule write_ops read_ops outport : ℕ) (before : History)
      (s : Installed)
      → 1 ≤ outport
      → outport ≤ 4
      → l < h
      → h ≤ 0x1000
      → rule ≤ 1
      → write_ops ≤ 1
      → read_ops ≤ 1
      → (after : History) × (setup_cfw kernel stack
            (port_number p)
            l
            h
            rule
            write_ops
            read_ops
            outport
            before
          ≡ done tt after)
        × ((w : ℕ)
            → (fw_hit (in_force p after s) w ≡ true)
              ↔ ComplexlyBlocks l h rule write_ops read_ops outport (read_packet w))
  policy_enforced p stack l h rule wr rd outport before s o1 o4 lh hh hr hw hd =
      let (reg, runs, set, blocks) =
        setup_cfw_blocks kernel stack (port_number p) l h rule wr rd outport (omega arith)
          (omega (arith, number-lt-four p)) o1 o4 lh hh hr hw hd in
      let fw : FwDs = record stack {
        input_port = port_number p;
        output_port = outport;
        l_addr_reg = l;
        h_addr_reg = h;
        rule_reg = reg;
      } in
      let (ends, rule_in) = setup_fw-installs held read pos p fw before s refl set in
      (
        after_setup (firewall_device held read) fw before,
        ap (λ m. m before) runs
            ∙ called kernel (firewall_device held read) fw before
                (after_setup (firewall_device held read) fw before) drives ends,
        λ w. rw rule_in (blocks w),
      )
