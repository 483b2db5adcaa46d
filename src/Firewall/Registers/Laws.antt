-- ===== src/Firewall/Registers/Laws.antt =====
-- The address map: what the bus admits, and where it leads.
use sc_co_si_m.Prelude.{ℕ, ◌+◌, ◌*◌, ◌≤◌, ◌<◌, ◌≡◌, ◌≢◌, ◌⊎◌, ◌↔◌, refl, ap, Bool, false, arith}
use sc_co_si_m.Firewall.Packet.{Port, port_0, number}
use sc_co_si_m.Firewall.Registers.{
  ok_response, b_transport, direct, unknown, write_register, execute_write, ends_here, memory,
  read_register, execute_read,
}

abbrev pub InWindow : ℕ → Type 0
InWindow a =
    ((0x40000000 ≤ a) × (a ≤ 0x40004000))
    ⊎ (((0x50000000 < a) × (a < 0x50000070))
        ⊎ (((0x50001000 < a) × (a < 0x50001070)) ⊎ ((0x80000000 < a) × (a < 0x80004000))))

-- A transaction is admitted exactly when it is 4 bytes long, has no byte enables and lies in one
-- of the four windows.
pub b_transport_iff :
    (length address : ℕ) (enables : Bool)
    → (b_transport length address enables ≡ ok_response)
      ↔ ((length ≡ 4) × (enables ≡ false) × InWindow address)
unfolding b_transport
b_transport_iff length address enables = ground arith

write_register-ne-direct : (a : ℕ) (p : Port) → write_register a ≢ direct p
unfolding write_register
write_register-ne-direct a p e = ground arith

read_register-ne-memory : (a : ℕ) (p : Port) → read_register a ≢ memory p
unfolding read_register
read_register-ne-memory a p e = ground arith

-- The 4 KiB of a port's memory.
abbrev pub InBram : Port → ℕ → Type 0
InBram p a = (0x40000000 + 0x1000 * number p ≤ a) × (a < 0x40000000 + 0x1000 * number p + 0x1000)

execute_write_iff : (p : Port) (a : ℕ) → 0x40000000 ≤ a → (execute_write a ≡ direct p) ↔ InBram p a
unfolding execute_write
execute_write_iff port_0 a h = ground (arith, write_register-ne-direct a port_0)
execute_write_iff p a h = ground (arith, write_register-ne-direct a p)

execute_read_iff : (p : Port) (a : ℕ) → 0x40000000 ≤ a → (execute_read a ≡ memory p) ↔ InBram p a
unfolding execute_read
execute_read_iff port_0 a h = ground (arith, read_register-ne-memory a port_0)
execute_read_iff p a h = ground (arith, read_register-ne-memory a p)

-- Of an admitted transaction, a memory access goes to the port in whose 4 KiB the address lies,
-- and to no other, for writes and reads alike.
pub direct-InBram :
    (length address : ℕ) (p : Port)
    → b_transport length address false ≡ ok_response
    → ((execute_write address ≡ direct p) ↔ InBram p address)
      × ((execute_read address ≡ memory p) ↔ InBram p address)
direct-InBram length address p h =
    let above : 0x40000000 ≤ address = omega (arith, (b_transport_iff length address false).0 h) in
    (execute_write_iff p address above, execute_read_iff p address above)

-- An address between the groups of registers.
IsNoRegister : ℕ → Type 0
IsNoRegister a = ((0x40004000 ≤ a) × (a ≤ 0x50000013)) ⊎ ((0x5000006D ≤ a) × (a ≤ 0x80000013))

write_register_unknown : (a : ℕ) → IsNoRegister a → write_register a ≡ unknown
unfolding write_register IsNoRegister
write_register_unknown a h = ground arith

execute_write_unknown : (a : ℕ) → IsNoRegister a → execute_write a ≡ unknown
unfolding execute_write IsNoRegister
execute_write_unknown a h = let e = write_register_unknown a h in ground (arith, e)

-- A write in one of the windows that names none of the registers between the groups, and no
-- memory, is admitted, finds no target, and its end is not notified.
unknown_write_hangs :
    (address : ℕ)
    → InWindow address
    → ((0x40004000 ≤ address) × (address ≤ 0x50000013))
      ⊎ ((0x5000006D ≤ address) × (address ≤ 0x80000013))
    → (b_transport 4 address false ≡ ok_response)
      × (execute_write address ≡ unknown)
      × (ends_here (execute_write address) ≡ false)
unfolding IsNoRegister ends_here
unknown_write_hangs address w h =
    let e = execute_write_unknown address h in
    ((b_transport_iff 4 address false).1 (refl, refl, w), e, ap ends_here e)
