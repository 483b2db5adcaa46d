-- ===== src/Tests/Policy.antt =====
-- A rule on its whole way, at concrete inputs.
use sc_co_si_m.Prelude.{ℕ, ◌≡◌, ◌↔◌, true, some, [], refl, arith}
use sc_co_si_m.Firewall.Packet.{port_1, read_packet}
use sc_co_si_m.Firewall.Rule.{fw_hit}
use sc_co_si_m.Firewall.Setup.{Installed}
use sc_co_si_m.Driver.Machine.{done, stop, return, ◌>>=◌}
use sc_co_si_m.Driver.Rules.{FwDs, setup_fw}
use sc_co_si_m.User.Kernel.{Kernel}
use sc_co_si_m.User.Rules.{setup_cfw}
use sc_co_si_m.User.Rules.Laws.{ComplexlyBlocks}
use sc_co_si_m.System.RuleSetup.{History, firewall_device}
use sc_co_si_m.System.Policy.{Drives, in_force, policy_enforced}

-- The registers after the reset, held for a cycle after each write.
abbrev fresh : History
fresh = record { now = λ p. record { rule = 0; lower = 0; upper = 0 }; cycles = [] }

abbrev once : History → ℕ
once h = 1

abbrev no_answer : ℕ → History → ℕ × History
no_answer a h = (0, h)

abbrev nothing_installed : Installed
nothing_installed = record { precommand = 0; range = record { rule = 0; lower = 0; upper = 0 } }

-- A driver of which the program calls the setup command only.
abbrev kernel : Kernel History
kernel = record {
  ioctl_setup_fw_port =
      λ fw. setup_fw (firewall_device once no_answer) 0 fw >>= λ r. return (some fw);
  ioctl_read_fw_port = λ fw. stop;
  ioctl_access_bram = λ r. stop;
  ioctl_direct_access_bram = λ r. stop;
  ioctl_read_stats = λ r. stop;
  ioctl_read_stats_all = λ r. stop;
}

kernel-Drives : Drives kernel (firewall_device once no_answer)
kernel-Drives = record { sets_up = λ fw s. refl }

abbrev stack : FwDs
stack = record {
  op_code = 0;
  input_port = 0;
  output_port = 0;
  l_addr_reg = 0;
  h_addr_reg = 0;
  rule_reg = 0;
}

policy_enforced_example :
    (after : History) × (setup_cfw kernel stack 2 16 32 1 0 1 3 fresh ≡ done tt after)
    × ((w : ℕ)
        → (fw_hit (in_force port_1 after nothing_installed) w ≡ true)
          ↔ ComplexlyBlocks 16 32 1 0 1 3 (read_packet w))
policy_enforced_example =
    policy_enforced once no_answer (λ h. omega arith) kernel kernel-Drives port_1 stack 16 32 1 0 1
      3 fresh nothing_installed (omega arith) (omega arith) (omega arith) (omega arith)
      (omega arith) (omega arith) (omega arith)
