-- ===== src/Firewall/Setup.antt =====
-- `firewall_with_mem::setupfw_rule`: takes a port's rule over from the setup registers when the
-- rule register changes, so that a range is never in force with a rule that it was not meant for.
pub mod Laws
use sc_co_si_m.Prelude.{ℕ, List, [], ◌∷◌, ◌==◌, if◌then◌else◌}
use sc_co_si_m.Firewall.Packet.{Port, port_0, port_1, port_2, port_3}

-- The setup registers of a port, which the bus writes: setup_rule_range_k and its kin.
pub record Registers : Type 0 where
  pub rule : ℕ
  pub lower : ℕ
  pub upper : ℕ

-- The loop's precommand_k, and what the thread has written to fw_rule_range_k, fw_lower_range_k
-- and fw_upper_range_k.
pub record Installed : Type 0 where
  pub precommand : ℕ
  pub range : Registers

-- The head of the function, for one port.
pub reset : Installed
reset = record { precommand = 0; range = record { rule = 0; lower = 0; upper = 0 } }

-- The section of a round for one port.
unfoldable pub install : Registers → Installed → Installed
install r s = if r.rule == s.precommand then s else record { precommand = r.rule; range = r }

-- A round, over the registers and the state of each port.
pub setupfw_rule : (Port → Registers) → (Port → Installed) → Port → Installed
setupfw_rule r s port_0 = install (r port_0) (s port_0)
setupfw_rule r s port_1 = install (r port_1) (s port_1)
setupfw_rule r s port_2 = install (r port_2) (s port_2)
setupfw_rule r s port_3 = install (r port_3) (s port_3)

-- The rounds of a port's section over what its registers hold in one cycle after another.
unfoldable pub rounds : List Registers → Installed → Installed
rounds [] s = s
rounds (r ∷ rs) s = rounds rs (install r s)
