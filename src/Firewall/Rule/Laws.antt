-- ===== src/Firewall/Rule/Laws.antt =====
-- What the rule check decides, against a description by the rule's and the packet's fields.
use sc_co_si_m.Prelude.{
  ℕ, ◌+◌, ◌*◌, ◌≤◌, ◌≡◌, ◌↔◌, ◌⊎◌, Bool, true, false, ◌&&◌, some, if◌then◌else◌, range, bit, arith,
}
use sc_co_si_m.Firewall.Packet.{Pkt, read_packet}
use sc_co_si_m.Firewall.Rule.{
  Rule, op_covered, dest_covered, in_range, physical_address, physical_hit, fw_hit,
}

-- The destination bits of a rule register.
abbrev pub Names : ℕ → ℕ → Type 0
Names r d =
    ((d ≡ 0) × (bit r 0 ≡ true))
    ⊎ (((d ≡ 1) × (bit r 1 ≡ true)) ⊎ (((d ≡ 2) × (bit r 2 ≡ true)) ⊎ ((d ≡ 3) × (bit r 3 ≡ true))))

-- The rule covers the packet's operation: 0 is a write and 1 is a read.
abbrev pub Covers : ℕ → ℕ → Type 0
Covers r o = ((o ≡ 0) × (bit r 5 ≡ true)) ⊎ ((o ≡ 1) × (bit r 4 ≡ true))

-- The packet's address lies in the rule's range: its offset, at a named destination, in NoC mode;
-- its physical address, 0x1000 bytes to a destination, in compatibility mode.
abbrev pub Reaches : Rule → Pkt → Type 0
Reaches f p =
    ((bit f.read_r 6 ≡ true)
      × ((f.read_l ≤ p.addr_offset) × (p.addr_offset ≤ f.read_h))
      × Names f.read_r p.dest)
    ⊎ ((bit f.read_r 6 ≡ false)
        × ((f.read_l ≤ p.addr_offset + 0x40000000 + p.dest * 0x1000)
            × (p.addr_offset + 0x40000000 + p.dest * 0x1000 ≤ f.read_h)))

abbrev pub Blocks : Rule → Pkt → Type 0
Blocks f p = (bit f.read_r 7 ≡ true) × Covers f.read_r p.opcode × Reaches f p

op_covered_iff : (r w : ℕ) → (op_covered r w ≡ true) ↔ Covers r (range w 21 20)
unfolding op_covered
op_covered_iff r w = ground arith

dest_covered_iff : (r w : ℕ) → (dest_covered r w ≡ true) ↔ Names r (range w 17 16)
unfolding dest_covered
dest_covered_iff r w = ground arith

in_range_iff : (f : Rule) (a : ℕ) → (in_range f a ≡ true) ↔ ((f.read_l ≤ a) × (a ≤ f.read_h))
unfolding in_range
in_range_iff f a = ground arith

-- Every destination is a port, and the sum fits a word.
physical_address_lem :
    (w : ℕ) → physical_address w ≡ some (range w 31 22 + 0x40000000 + range w 17 16 * 0x1000)
unfolding physical_address
physical_address_lem w = ground arith

physical_hit_iff :
    (f : Rule) (w : ℕ)
    → let a = range w 31 22 + 0x40000000 + range w 17 16 * 0x1000 in
      (physical_hit f (physical_address w) ≡ true) ↔ ((f.read_l ≤ a) × (a ≤ f.read_h))
unfolding physical_hit
physical_hit_iff f w = rw (physical_address_lem w) (in_range_iff f _)

-- The ladder of `fw_hit`, over any tests that decide their propositions.
ladder_iff :
    (enabled op noc near named physical : Bool) {O I N P : Type 0}
    → (op ≡ true) ↔ O
    → (near ≡ true) ↔ I
    → (named ≡ true) ↔ N
    → (physical ≡ true) ↔ P
    → ((if enabled && op then (if noc then near && named else physical) else false) ≡ true)
      ↔ ((enabled ≡ true) × O × (((noc ≡ true) × I × N) ⊎ ((noc ≡ false) × P)))
ladder_iff enabled op noc near named physical o i n p = ground arith

-- For every rule and every word, the check stops the packet exactly when the rule is enabled,
-- covers the packet's operation and reaches its address: its offset at a named destination in NoC
-- mode, and its physical address, whatever destinations are named, in compatibility mode.
pub fw_hit_iff : (f : Rule) (w : ℕ) → (fw_hit f w ≡ true) ↔ Blocks f (read_packet w)
unfolding fw_hit
fw_hit_iff f w =
    ladder_iff (bit f.read_r 7) _ (bit f.read_r 6) _ _ _ (op_covered_iff f.read_r w)
      (in_range_iff f (range w 31 22)) (dest_covered_iff f.read_r w) (physical_hit_iff f w)
