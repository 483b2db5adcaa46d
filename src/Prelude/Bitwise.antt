-- ===== src/Prelude/Bitwise.antt =====
-- `|` and `&` of words at variables: what the driver and the switch combine them with.
use Prim.Native.Nat.{
  ℕ, zero, suc, ◌+◌, ◌-◌, ◌*◌, ◌/◌, ◌%◌, ◌^◌, ◌≤◌, min, max, bit_and, bit_or, digits,
  bit_and-bitwise, bit_or-bitwise,
}
use mathlib.Core.Path.{◌≡◌, refl, ap}
use native.Mathlib.Nat.{
  pow-suc, one-le-pow, div-div-eq-div-mul, mod-eq-sub-div-mul, div-mul-le_self,
}
use native.Mathlib.Omega.{arith}

-- Both operations go from a word to its half. The recursion that they stand for gives, at any count
-- of digits that suffices, what it gives at the word itself.
module _ (z : ℕ → ℕ) (f : ℕ → ℕ → ℕ) where
  digits_settle :
      (most fuel word other : ℕ)
      → fuel ≤ most
      → word ≤ fuel
      → digits z f fuel word other ≡ digits z f word word other
  digits_settle most zero zero other h k = refl
  digits_settle most (suc fuel) zero other h k = refl
  digits_settle most zero (suc word) other h k = absurd (omega arith)
  digits_settle zero (suc fuel) (suc word) other h k = absurd (omega arith)
  digits_settle (suc most) (suc fuel) (suc word) other h k =
      let half = suc word / 2 in
      let long = digits_settle most fuel half (other / 2) (omega arith) (omega arith) in
      let short = digits_settle most word half (other / 2) (omega arith) (omega arith) in
      omega (arith, long, short)

zero-bit_or : (b : ℕ) → bit_or 0 b ≡ b
zero-bit_or b = bit_or-bitwise 0 b

or_step : (a b : ℕ) → bit_or a b ≡ bit_or (a / 2) (b / 2) * 2 + max (a % 2) (b % 2)
or_step zero b = omega (arith, zero-bit_or b, zero-bit_or (b / 2))
or_step (suc a) b = omega (
  arith,
  bit_or-bitwise (suc a) b,
  bit_or-bitwise (suc a / 2) (b / 2),
  digits_settle (λ b. b) max a a (suc a / 2) (b / 2) (omega arith) (omega arith),
)

half-bit_or : (a b : ℕ) → bit_or a b / 2 ≡ bit_or (a / 2) (b / 2)
half-bit_or a b = omega (arith, or_step a b)

shr-suc : (a k : ℕ) → a / 2 ^ suc k ≡ a / 2 / 2 ^ k
shr-suc a k = rw div-div-eq-div-mul (ap (λ (m : ℕ). a / m) (omega (arith, pow-suc 2 k)))

-- `>>` goes into both sides of `|`.
pub shr-bit_or : (k a b : ℕ) → bit_or a b / 2 ^ k ≡ bit_or (a / 2 ^ k) (b / 2 ^ k)
shr-bit_or zero a b = ground arith
shr-bit_or (suc k) a b = cc (
  shr-suc (bit_or a b) k,
  half-bit_or a b,
  shr-bit_or k (a / 2) (b / 2),
  shr-suc a k,
  shr-suc b k,
)

bit_or-zero_below : (n a : ℕ) → a ≤ n → bit_or a 0 ≡ a
bit_or-zero_below n zero h = zero-bit_or 0
bit_or-zero_below zero (suc a) h = absurd (omega arith)
bit_or-zero_below (suc n) (suc a) h =
    omega (arith, or_step (suc a) 0, bit_or-zero_below n (suc a / 2) (omega arith))

pub bit_or-zero : (a : ℕ) → bit_or a 0 ≡ a
bit_or-zero a = bit_or-zero_below a a (omega arith)

zero-bit_and : (b : ℕ) → bit_and 0 b ≡ 0
zero-bit_and b = bit_and-bitwise 0 b

and_step : (a b : ℕ) → bit_and a b ≡ bit_and (a / 2) (b / 2) * 2 + min (a % 2) (b % 2)
and_step zero b = omega (arith, zero-bit_and b, zero-bit_and (b / 2))
and_step (suc a) b = omega (
  arith,
  bit_and-bitwise (suc a) b,
  bit_and-bitwise (suc a / 2) (b / 2),
  digits_settle (λ b. zero) min a a (suc a / 2) (b / 2) (omega arith) (omega arith),
)

bit_and-zero_below : (n a : ℕ) → a ≤ n → bit_and a 0 ≡ 0
bit_and-zero_below n zero h = zero-bit_and 0
bit_and-zero_below zero (suc a) h = absurd (omega arith)
bit_and-zero_below (suc n) (suc a) h =
    omega (arith, and_step (suc a) 0, bit_and-zero_below n (suc a / 2) (omega arith))

-- The low `k + 1` digits of a word: the lowest one, and the low `k` of its half.
mod_suc : (a k : ℕ) → a % 2 ^ suc k ≡ a / 2 % 2 ^ k * 2 + a % 2
mod_suc a k = omega (
  arith,
  mod-eq-sub-div-mul a (2 ^ suc k),
  mod-eq-sub-div-mul (a / 2) (2 ^ k),
  div-mul-le_self (a / 2) (2 ^ k),
  ap (λ (q : ℕ). q * 2 ^ suc k) (shr-suc a k),
  ap (λ (p : ℕ). a / 2 / 2 ^ k * p) (pow-suc 2 k),
)

-- `&` with a mask of `k` ones is the remainder by `2 ^ k`.
pub bit_and_low : (k a : ℕ) → bit_and a (2 ^ k - 1) ≡ a % 2 ^ k
bit_and_low zero a = omega (arith, bit_and-zero_below a a (omega arith))
bit_and_low (suc k) a = ground (
  arith,
  pow-suc 2 k,
  one-le-pow k 2,
  and_step a (2 ^ suc k - 1),
  bit_and_low k (a / 2),
  mod_suc a k,
)
