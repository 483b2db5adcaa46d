-- ===== src/Tests/System.antt =====
-- The theorems on driver and firewall at concrete inputs.
use sc_co_si_m.Prelude.{ℕ, ◌≡◌, [], arith, refl}
use sc_co_si_m.Firewall.Packet.{port_1, port_3}
use sc_co_si_m.Firewall.Setup.{Installed, rounds}
use sc_co_si_m.Driver.Machine.{done}
use sc_co_si_m.Driver.Rules.{FwDs, setup_fw}
use sc_co_si_m.Driver.Rules.Laws.{after_setup}
use sc_co_si_m.System.RuleSetup.{
  History, firewall_device, installed, setup_fw-installs, setup_fw-spares,
}

abbrev some_fw : FwDs
some_fw = record {
  op_code = 0;
  input_port = 2;
  output_port = 1;
  l_addr_reg = 4;
  h_addr_reg = 16;
  rule_reg = 0xE2;
}

-- The registers after the reset, held for two cycles after each write.
abbrev fresh : History
fresh = record { now = λ p. record { rule = 0; lower = 0; upper = 0 }; cycles = [] }

abbrev twice : History → ℕ
twice h = 2

abbrev no_answer : ℕ → History → ℕ × History
no_answer a h = (0, h)

abbrev nothing_installed : Installed
nothing_installed = record { precommand = 0; range = record { rule = 0; lower = 0; upper = 0 } }

setup_fw-installs_example :
    let d = firewall_device twice no_answer in
    let t = after_setup d some_fw fresh in
    (setup_fw d 0 some_fw fresh ≡ done tt t)
    × (installed port_1 t nothing_installed
        ≡ record { precommand = 0xE2; range = record { rule = 0xE2; lower = 4; upper = 16 } })
setup_fw-installs_example =
    setup_fw-installs twice no_answer (λ h. omega arith) port_1 some_fw fresh nothing_installed refl
      (omega arith)

setup_fw-spares_example :
    installed port_3 (after_setup (firewall_device twice no_answer) some_fw fresh) nothing_installed
    ≡ installed port_3 fresh nothing_installed
unfolding installed rounds
setup_fw-spares_example =
    setup_fw-spares twice no_answer (λ h. omega arith) port_1 port_3 some_fw fresh nothing_installed
      refl (omega arith) refl
