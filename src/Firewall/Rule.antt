-- ===== src/Firewall/Rule.antt =====
-- The rule check of `firewall_with_mem::interface_in_k`: does the installed rule stop a packet?
pub mod Laws
use sc_co_si_m.Prelude.{
  ℕ, ◌+◌, Bool, true, false, ◌&&◌, ◌||◌, Option, none, some, leb, ◌==◌, if◌then◌else◌, range, bit,
  u32,
}

-- What `interface_in_k` has latched: fw_read_r, fw_read_l, fw_read_h.
pub record Rule : Type 0 where
  pub read_r : ℕ
  pub read_l : ℕ
  pub read_h : ℕ

-- Is the operation one that the rule register covers (bit 5: writes, bit 4: reads)?
op_covered : ℕ → ℕ → Bool
op_covered r w = (bit r 5 && range w 21 20 == 0) || (bit r 4 && range w 21 20 == 1)

-- Bits 3 to 0 name the destination ports.
dest_covered : ℕ → ℕ → Bool
dest_covered r w =
    (bit r 3 && range w 17 16 == 3)
    || (bit r 2 && range w 17 16 == 2)
    || (bit r 1 && range w 17 16 == 1)
    || (bit r 0 && range w 17 16 == 0)

in_range : Rule → ℕ → Bool
in_range f address = leb address f.read_h && leb f.read_l address

-- The address in compatibility mode: the offset in the destination's BRAM. `none` is the branch
-- for a destination that is no port.
physical_address : ℕ → Option ℕ
physical_address w =
    if range w 17 16 == 0
    then some (u32 (range w 31 22 + 0x40000000))
    else if range w 17 16 == 1
    then some (u32 (range w 31 22 + 0x40001000))
    else if range w 17 16 == 2
    then some (u32 (range w 31 22 + 0x40002000))
    else if range w 17 16 == 3
    then some (u32 (range w 31 22 + 0x40003000))
    else none

physical_hit : Rule → Option ℕ → Bool
physical_hit f none = true
physical_hit f (some address) = in_range f address

pub fw_hit : Rule → ℕ → Bool
fw_hit f w =
    if bit f.read_r 7 && op_covered f.read_r w
    then (if bit f.read_r 6
        then in_range f (range w 31 22) && dest_covered f.read_r w
        else physical_hit f (physical_address w))
    else false
