-- ===== src/Prelude/Words.antt =====
-- 32-bit words as native numbers: C's unsigned arithmetic, and the bit selections of SystemC's
-- sc_uint<32>.
use Prim.Native.Nat.{ℕ, ◌+◌, ◌-◌, ◌*◌, ◌/◌, ◌%◌, ◌^◌}
use mathlib.Core.Bool.{Bool}
use sc_co_si_m.Prelude.Tests.{◌==◌, if◌then◌else◌}

abbrev pub u32 : ℕ → ℕ
u32 n = n % 2 ^ 32

-- a - b on `unsigned int`, for operands below 2 ^ 32
abbrev pub sub32 : ℕ → ℕ → ℕ
sub32 a b = (a + 2 ^ 32 - b) % 2 ^ 32

-- x << k on `unsigned int`
abbrev pub shl32 : ℕ → ℕ → ℕ
shl32 x k = x * 2 ^ k % 2 ^ 32

abbrev pub shr : ℕ → ℕ → ℕ
shr x k = x / 2 ^ k

-- w.range(hi, lo)
abbrev pub range : ℕ → ℕ → ℕ → ℕ
range w hi lo = w / 2 ^ lo % 2 ^ (hi + 1 - lo)

-- w.range(hi, lo) = v
abbrev pub set_range : ℕ → ℕ → ℕ → ℕ → ℕ
set_range w hi lo v = w - range w hi lo * 2 ^ lo + v % 2 ^ (hi + 1 - lo) * 2 ^ lo

-- w[i].to_bool()
abbrev pub bit : ℕ → ℕ → Bool
bit w i = range w i i == 1

-- w[i] = b
abbrev pub set_bit : ℕ → ℕ → Bool → ℕ
set_bit w i b = set_range w i i (if b then 1 else 0)
