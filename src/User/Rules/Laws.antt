-- ===== src/User/Rules/Laws.antt =====
-- What the rules that the library sets up stop.
use sc_co_si_m.Prelude.{
  ℕ, ◌+◌, ◌*◌, ◌^◌, ◌≤◌, ◌<◌, ◌≡◌, ◌≢◌, arith, ◌↔◌, ◌⊎◌, Bool, true, false, ◌==◌, if◌then◌else◌,
  bit,
}
use sc_co_si_m.Driver.Machine.{return, ◌>>=◌}
use sc_co_si_m.Driver.Rules.{FwDs}
use sc_co_si_m.Firewall.Packet.{Pkt, read_packet}
use sc_co_si_m.Firewall.Rule.{Rule, fw_hit}
use sc_co_si_m.Firewall.Rule.Laws.{fw_hit_iff}
use sc_co_si_m.User.Kernel.{Kernel, or_exit}
use sc_co_si_m.User.Rules.{simple_rule_reg, complex_rule_reg, bad_range, setup_sfw, setup_cfw}

-- The value of a rule register.
simple_value :
    (rule write_ops read_ops : ℕ)
    → rule ≤ 1
    → write_ops ≤ 1
    → read_ops ≤ 1
    → simple_rule_reg rule write_ops read_ops ≡ 128 * rule + 32 * write_ops + 16 * read_ops
unfolding simple_rule_reg
simple_value r w d hr hw hd = omega arith

simple_bits :
    (rule write_ops read_ops : ℕ)
    → rule ≤ 1
    → write_ops ≤ 1
    → read_ops ≤ 1
    → let r = 128 * rule + 32 * write_ops + 16 * read_ops in
      (bit r 7 ≡ (rule == 1))
      × (bit r 6 ≡ false)
      × (bit r 5 ≡ (write_ops == 1))
      × (bit r 4 ≡ (read_ops == 1))
simple_bits r w d hr hw hd = (ground arith, ground arith, ground arith, ground arith)

-- The operations that are denied: 0 is a write and 1 is a read.
abbrev pub Denied : ℕ → ℕ → ℕ → Type 0
Denied write_ops read_ops opcode =
    ((opcode ≡ 0) × (write_ops ≡ 1)) ⊎ ((opcode ≡ 1) × (read_ops ≡ 1))

-- The address that a rule in compatibility mode looks at.
abbrev pub physical : Pkt → ℕ
physical p = p.addr_offset + 0x40000000 + p.dest * 0x1000

abbrev pub SimplyBlocks : ℕ → ℕ → ℕ → ℕ → ℕ → Pkt → Type 0
SimplyBlocks l h rule write_ops read_ops p =
    (rule ≡ 1) × Denied write_ops read_ops p.opcode × (l ≤ physical p) × (physical p ≤ h)

iff_trans : {A B C : Type 0} → A ↔ B → B ↔ C → A ↔ C
iff_trans f g = (λ a. g.0 (f.0 a), λ c. f.1 (g.1 c))

-- What a rule blocks, with its bits given by the arguments.
simple_ladder :
    (b7 b6 b5 b4 : Bool) (rule write_ops read_ops opcode l a h : ℕ) {I N : Type 0}
    → b7 ≡ (rule == 1)
    → b6 ≡ false
    → b5 ≡ (write_ops == 1)
    → b4 ≡ (read_ops == 1)
    → ((b7 ≡ true)
        × (((opcode ≡ 0) × (b5 ≡ true)) ⊎ ((opcode ≡ 1) × (b4 ≡ true)))
        × (((b6 ≡ true) × I × N) ⊎ ((b6 ≡ false) × ((l ≤ a) × (a ≤ h)))))
      ↔ ((rule ≡ 1) × Denied write_ops read_ops opcode × (l ≤ a) × (a ≤ h))
simple_ladder b7 b6 b5 b4 rule wr rd op l a h e7 e6 e5 e4 = ground arith

complex_ladder :
    (b7 b6 b5 b4 : Bool) (rule write_ops read_ops opcode l a h d outport : ℕ) {N P : Type 0}
    → b7 ≡ (rule == 1)
    → b6 ≡ true
    → b5 ≡ (write_ops == 1)
    → b4 ≡ (read_ops == 1)
    → N ↔ (d + 1 ≡ outport)
    → ((b7 ≡ true)
        × (((opcode ≡ 0) × (b5 ≡ true)) ⊎ ((opcode ≡ 1) × (b4 ≡ true)))
        × (((b6 ≡ true) × ((l ≤ a) × (a ≤ h)) × N) ⊎ ((b6 ≡ false) × P)))
      ↔ ((rule ≡ 1) × Denied write_ops read_ops opcode × (l ≤ a) × (a ≤ h) × (d + 1 ≡ outport))
complex_ladder b7 b6 b5 b4 rule wr rd op l a h d o e7 e6 e5 e4 n = ground arith

simple_hit :
    (l h rule write_ops read_ops w : ℕ)
    → rule ≤ 1
    → write_ops ≤ 1
    → read_ops ≤ 1
    → let f : Rule = record {
      read_r = simple_rule_reg rule write_ops read_ops;
      read_l = l;
      read_h = h;
    } in
      (fw_hit f w ≡ true) ↔ SimplyBlocks l h rule write_ops read_ops (read_packet w)
simple_hit l h r wr rd w hr hw hd =
    let b = simple_bits r wr rd hr hw hd in
    let f : Rule = record { read_r = 128 * r + 32 * wr + 16 * rd; read_l = l; read_h = h } in
    rw (simple_value r wr rd hr hw hd)
      (iff_trans (fw_hit_iff f w) (simple_ladder _ _ _ _ r wr rd _ l _ h b.0 b.1 b.2 b.3))

-- Bit outport - 1.
abbrev one_hot : ℕ → ℕ
one_hot outport =
    if outport == 4 then 8 else if outport == 3 then 4 else if outport == 2 then 2 else 1

one_hot-bound : (outport : ℕ) → one_hot outport < 16
one_hot-bound o = ground arith

complex_value :
    (rule write_ops read_ops outport : ℕ)
    → rule ≤ 1
    → write_ops ≤ 1
    → read_ops ≤ 1
    → 1 ≤ outport
    → outport ≤ 4
    → complex_rule_reg rule write_ops read_ops outport
      ≡ 128 * rule + 64 + 32 * write_ops + 16 * read_ops + one_hot outport
unfolding complex_rule_reg
complex_value r w d o hr hw hd lo hi = ground arith

complex_bits :
    (rule write_ops read_ops low : ℕ)
    → rule ≤ 1
    → write_ops ≤ 1
    → read_ops ≤ 1
    → low < 16
    → let r = 128 * rule + 64 + 32 * write_ops + 16 * read_ops + low in
      (bit r 7 ≡ (rule == 1))
      × (bit r 6 ≡ true)
      × (bit r 5 ≡ (write_ops == 1))
      × (bit r 4 ≡ (read_ops == 1))
complex_bits r w d low hr hw hd hl = (ground arith, ground arith, ground arith, ground arith)

low_bits :
    (rule write_ops read_ops outport : ℕ)
    → 1 ≤ outport
    → outport ≤ 4
    → let r = 128 * rule + 64 + 32 * write_ops + 16 * read_ops + one_hot outport in
      (bit r 3 ≡ (outport == 4))
      × (bit r 2 ≡ (outport == 3))
      × (bit r 1 ≡ (outport == 2))
      × (bit r 0 ≡ (outport == 1))
low_bits r w d o lo hi = (ground arith, ground arith, ground arith, ground arith)

names_iff :
    (b3 b2 b1 b0 : Bool) (d outport : ℕ)
    → b3 ≡ (outport == 4)
    → b2 ≡ (outport == 3)
    → b1 ≡ (outport == 2)
    → b0 ≡ (outport == 1)
    → 1 ≤ outport
    → outport ≤ 4
    → (((d ≡ 0) × (b0 ≡ true))
        ⊎ (((d ≡ 1) × (b1 ≡ true)) ⊎ (((d ≡ 2) × (b2 ≡ true)) ⊎ ((d ≡ 3) × (b3 ≡ true)))))
      ↔ (d + 1 ≡ outport)
names_iff b3 b2 b1 b0 d o e3 e2 e1 e0 lo hi = ground arith

abbrev pub ComplexlyBlocks : ℕ → ℕ → ℕ → ℕ → ℕ → ℕ → Pkt → Type 0
ComplexlyBlocks l h rule write_ops read_ops outport p =
    (rule ≡ 1)
    × Denied write_ops read_ops p.opcode
    × (l ≤ p.addr_offset)
    × (p.addr_offset ≤ h)
    × (p.dest + 1 ≡ outport)

complex_hit :
    (l h rule write_ops read_ops outport w : ℕ)
    → rule ≤ 1
    → write_ops ≤ 1
    → read_ops ≤ 1
    → 1 ≤ outport
    → outport ≤ 4
    → let f : Rule = record {
      read_r = complex_rule_reg rule write_ops read_ops outport;
      read_l = l;
      read_h = h;
    } in
      (fw_hit f w ≡ true) ↔ ComplexlyBlocks l h rule write_ops read_ops outport (read_packet w)
complex_hit l h r wr rd o w hr hw hd lo hi =
    let b = complex_bits r wr rd (one_hot o) hr hw hd (one_hot-bound o) in
    let n = low_bits r wr rd o lo hi in
    let v = 128 * r + 64 + 32 * wr + 16 * rd + one_hot o in
    let f : Rule = record { read_r = v; read_l = l; read_h = h } in
    rw (complex_value r wr rd o hr hw hd lo hi) (
      iff_trans (fw_hit_iff f w) (
        complex_ladder _ _ _ _ r wr rd _ l _ h _ o b.0 b.1 b.2 b.3
          (names_iff (bit v 3) (bit v 2) (bit v 1) (bit v 0) _ o n.0 n.1 n.2 n.3 lo hi)))

module _ {S : Type 0} (kernel : Kernel S) where
  -- For an input port of 1 to 4, 32-bit bounds and flags of 0 or 1, setupSFW gives the driver the
  -- port, the bounds and a rule register with which the firewall's check stops exactly the packets
  -- with a physical address between the bounds, of an operation that was denied, if the rule was
  -- enabled.
  pub setup_sfw_blocks :
      (stack : FwDs) (inport l h rule write_ops read_ops : ℕ)
      → 1 ≤ inport
      → inport ≤ 4
      → l < 2 ^ 32
      → h < 2 ^ 32
      → rule ≤ 1
      → write_ops ≤ 1
      → read_ops ≤ 1
      → (reg : ℕ) × (setup_sfw kernel stack inport l h rule write_ops read_ops ≡ (
          or_exit (
            kernel.ioctl_setup_fw_port (record stack {
              input_port = inport;
              l_addr_reg = l;
              h_addr_reg = h;
              rule_reg = reg;
            }))
          >>= λ r. return tt))
        × ((w : ℕ)
            → (fw_hit (record { read_r = reg; read_l = l; read_h = h }) w ≡ true)
              ↔ SimplyBlocks l h rule write_ops read_ops (read_packet w))
  unfolding setup_sfw
  setup_sfw_blocks stack inport l h rule wr rd i4 i1 hl hh hr hw hd =
      (simple_rule_reg rule wr rd, ground arith, λ w. simple_hit l h rule wr rd w hr hw hd)

  -- For arguments in the ranges that setupCFW asks for, it gives the driver the ports, the bounds
  -- and a rule register with which the firewall's check stops exactly the packets for the output
  -- port, with an offset between the bounds, of an operation that was denied, if the rule was
  -- enabled.
  pub setup_cfw_blocks :
      (stack : FwDs) (inport l h rule write_ops read_ops outport : ℕ)
      → 1 ≤ inport
      → inport ≤ 4
      → 1 ≤ outport
      → outport ≤ 4
      → l < h
      → h ≤ 0x1000
      → rule ≤ 1
      → write_ops ≤ 1
      → read_ops ≤ 1
      → (reg : ℕ) × (setup_cfw kernel stack inport l h rule write_ops read_ops outport ≡ (
          or_exit (
            kernel.ioctl_setup_fw_port (record stack {
              input_port = inport;
              output_port = outport;
              l_addr_reg = l;
              h_addr_reg = h;
              rule_reg = reg;
            }))
          >>= λ r. return tt))
        × (reg ≢ 0)
        × ((w : ℕ)
            → (fw_hit (record { read_r = reg; read_l = l; read_h = h }) w ≡ true)
              ↔ ComplexlyBlocks l h rule write_ops read_ops outport (read_packet w))
  unfolding setup_cfw bad_range
  setup_cfw_blocks stack inport l h rule wr rd outport i1 i4 o1 o4 lh hh hr hw hd = (
    complex_rule_reg rule wr rd outport,
    ground arith,
    omega (arith, complex_value rule wr rd outport hr hw hd o1 o4),
    λ w. complex_hit l h rule wr rd outport w hr hw hd o1 o4,
  )
