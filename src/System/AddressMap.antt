-- ===== src/System/AddressMap.antt =====
-- The addresses that the driver computes are those that the firewall decodes.
use sc_co_si_m.Prelude.{ℕ, ◌+◌, ◌*◌, ◌<◌, ◌≡◌, false, some, arith, refl, inl}
use sc_co_si_m.Firewall.Packet.{Port, port_0, port_1, port_2, port_3, number}
use sc_co_si_m.Firewall.Registers.{
  ok_response, b_transport, WriteTarget, direct, packet, lower, upper, rule, execute_write,
  write_register, ReadSource, memory, stale, in_responce, total, droped, fw_rule_hit_counter,
  execute_read, read_register,
}
use sc_co_si_m.Firewall.Registers.Laws.{InBram, direct-InBram, b_transport_iff}
use sc_co_si_m.Driver.Map.{
  word_at, setup_reg, access_base, direct_base, starting_lower_reg, starting_high_reg,
  starting_rule_reg,
}

-- The driver counts the ports from 1.
abbrev pub port_number : Port → ℕ
port_number p = number p + 1

-- The base that the driver's `switch` finds for a port.
pub base_of : Port → ℕ
base_of port_0 = 0x80000000
base_of port_1 = 0x80001000
base_of port_2 = 0x80002000
base_of port_3 = 0x80003000

-- What a write of a word to `a` does to the firewall.
abbrev pub WritesTo : ℕ → WriteTarget → Type 0
WritesTo a t = (b_transport 4 a false ≡ ok_response) × (execute_write a ≡ t)

abbrev pub ReadsFrom : ℕ → ReadSource → Type 0
ReadsFrom a t = (b_transport 4 a false ≡ ok_response) × (execute_read a ≡ t)

-- For every port, the three setup register addresses that the driver computes are admitted by the
-- bus and are the firewall's lower, upper and rule registers of that port.
pub setup_reg-WritesTo :
    (p : Port)
    → WritesTo (setup_reg starting_lower_reg (port_number p)) (lower p)
      × WritesTo (setup_reg starting_high_reg (port_number p)) (upper p)
      × WritesTo (setup_reg starting_rule_reg (port_number p)) (rule p)
unfolding setup_reg b_transport execute_write write_register
setup_reg-WritesTo port_0 = ((refl, refl), (refl, refl), (refl, refl))
setup_reg-WritesTo _ = ((refl, refl), (refl, refl), (refl, refl))

-- For every port, the driver's switch has a base, and words 5, 7, 9, 11 and 13 above it are
-- admitted by the bus and are the firewall's packet register, response, and statistics of that
-- port.
pub access_base-ReadsFrom :
    (p : Port)
    → (access_base (port_number p) ≡ some (base_of p))
      × WritesTo (word_at (base_of p) 5) (packet p)
      × ReadsFrom (word_at (base_of p) 7) (in_responce p)
      × ReadsFrom (word_at (base_of p) 9) (total p)
      × ReadsFrom (word_at (base_of p) 11) (droped p)
      × ReadsFrom (word_at (base_of p) 13) (fw_rule_hit_counter p)
unfolding access_base base_of b_transport execute_write write_register execute_read read_register
access_base-ReadsFrom port_0 =
    (refl, (refl, refl), (refl, refl), (refl, refl), (refl, refl), (refl, refl))
access_base-ReadsFrom _ =
    (refl, (refl, refl), (refl, refl), (refl, refl), (refl, refl), (refl, refl))

-- For every port, a read of each of the three setup registers that the driver reads back is
-- admitted by the bus, and the read thread leaves the result of the read before.
setup_reg-stale :
    (p : Port)
    → ReadsFrom (setup_reg starting_lower_reg (port_number p)) stale
      × ReadsFrom (setup_reg starting_high_reg (port_number p)) stale
      × ReadsFrom (setup_reg starting_rule_reg (port_number p)) stale
unfolding setup_reg b_transport execute_read read_register
setup_reg-stale port_0 = ((refl, refl), (refl, refl), (refl, refl))
setup_reg-stale _ = ((refl, refl), (refl, refl), (refl, refl))

bram_of : Port → ℕ
bram_of port_0 = 0x40000000
bram_of port_1 = 0x40001000
bram_of port_2 = 0x40002000
bram_of port_3 = 0x40003000

direct_base-bram_of :
    (p : Port)
    → (direct_base (port_number p) ≡ some (bram_of p))
      × (bram_of p ≡ 0x40000000 + 0x1000 * number p)
      × (number p < 4)
unfolding direct_base bram_of
direct_base-bram_of port_0 = (refl, refl, omega arith)
direct_base-bram_of _ = (refl, refl, omega arith)

-- For every BRAM that the driver's switch knows and every word of its 4 KiB, a direct access is
-- admitted and reaches that port's memory, for a write and for a read.
pub direct_base-direct :
    (p : Port) (addr : ℕ)
    → addr < 1024
    → let a = word_at (0x40000000 + 0x1000 * number p) addr in
      (direct_base (port_number p) ≡ some (0x40000000 + 0x1000 * number p))
      × WritesTo a (direct p)
      × ReadsFrom a (memory p)
direct_base-direct p addr h =
    let (known, place, few) = direct_base-bram_of p in
    let a = word_at (0x40000000 + 0x1000 * number p) addr in
    let e : a ≡ 0x40000000 + 0x1000 * number p + 4 * addr = omega arith in
    let ok = (b_transport_iff 4 a false).1 (refl, refl, inl (omega arith)) in
    let within : InBram p a = omega arith in
    let (writes, reads) = direct-InBram 4 a p ok in
    (cc (known, place), (ok, writes.1 within), (ok, reads.1 within))
