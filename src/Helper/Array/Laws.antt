-- ===== src/Helper/Array/Laws.antt =====
-- What an array keeps when its length changes, and what get_id tells.
use sc_co_si_m.Prelude.{
  ℕ, zero, suc, ◌+◌, ◌%◌, ◌^◌, ◌≤◌, ◌<◌, ◌≡◌, ◌==◌, inl, inr, refl, Bool, true, false, List, get_or,
  set, length, get_or-set_self, get_or-set_ne, ltb, Bool-cases, if◌then◌else◌, arith,
}
use mathlib.Core.Path.{subst}
use sc_co_si_m.Helper.Array.{Array, sub64, at, set_at, search, get_id}

-- The array has as many items as it says.
pub record IsArray {ℓ} {A : Type ℓ} (a : Array A) : Type ℓ where
  pub has_length : length a.items ≡ a.len
  pub word : a.len < 2 ^ 64
  pub base_word : a.base < 2 ^ 64

offset_of : (base k : ℕ) → base < 2 ^ 64 → k < 2 ^ 64 → sub64 ((base + k) % 2 ^ 64) base ≡ k
offset_of base k h l = omega arith

module _ {ℓ} {A : Type ℓ} (blank : A) where
  -- A write is seen at its own position, and at no other of the array, also where the positions
  -- pass 2^64.
  pub at-set_at :
      (a : Array A) (j k : ℕ) (v : A)
      → IsArray a
      → j < a.len
      → k < a.len
      → let b = set_at blank ((a.base + j) % 2 ^ 64) v a in
        let position = (a.base + k) % 2 ^ 64 in
        at blank b position ≡ (if j == k then v else at blank a position)
  unfolding set_at at
  at-set_at a j k v h l m =
      rw
        (
          offset_of a.base k h.base_word (omega (arith, h.word)),
          offset_of a.base j h.base_word (omega (arith, h.word)),
        )
        (elim (Bool-cases (j == k)) [
          | inl e ↦
              let same : j ≡ k = ground (arith, e) in
              rw e (
                subst (λ i. get_or (set a.items j v) i blank ≡ v) same
                  (get_or-set_self a.items j v blank (omega (arith, h.has_length))))
          | inr e ↦ rw e (get_or-set_ne a.items v blank (ground (arith, e)))
        ])

  search_lem :
      (eq : A → A → Bool) (key : A) (xs : List A) (i n k : ℕ)
      → i ≤ k
      → k < i + n
      → eq (get_or xs k blank) key ≡ true
      → (eq (get_or xs (search blank eq key xs i n) blank) key ≡ true)
        × (i ≤ search blank eq key xs i n)
        × (search blank eq key xs i n ≤ k)
  unfolding search
  search_lem eq key xs i zero k h l e = absurd (omega arith)
  search_lem eq key xs i (suc n) k h l e = elim (Bool-cases (eq (get_or xs i blank) key)) [
    | inl f ↦ rw f (f, omega arith, h)
    | inr f ↦
        let above : suc i ≤ k = elim (Bool-cases (ltb i k)) [
          | inl g ↦ ground (arith, g)
          | inr g ↦ let same : i ≡ k = ground (arith, g) in absurd cc
        ] in
        let (p, q, r) = search_lem eq key xs (suc i) n k above (omega arith) e in
        rw f (p, omega (arith, q), r)
  ]

  search_none :
      (eq : A → A → Bool) (key : A) (xs : List A) (i n : ℕ)
      → ((k : ℕ) → i ≤ k → k < i + n → eq (get_or xs k blank) key ≡ false)
      → search blank eq key xs i n ≡ 0
  unfolding search
  search_none eq key xs i zero h = refl
  search_none eq key xs i (suc n) h =
      rw (h i (omega arith) (omega arith))
        (search_none eq key xs (suc i) n (λ k a b. h k (omega arith) (omega arith)))

  -- get_id of a key that some item equals, by the test of the type, is the first such index.
  pub get_id_first :
      (eq : A → A → Bool) (key : A) (a : Array A) (k : ℕ)
      → k < a.len
      → eq (get_or a.items k blank) key ≡ true
      → let i = get_id blank eq key a in (eq (get_or a.items i blank) key ≡ true) × (i ≤ k)
  unfolding get_id
  get_id_first eq key a k h e =
      let (p, q, r) = search_lem eq key a.items 0 a.len k (omega arith) (omega arith) e in (p, r)

  -- get_id of a key that no item equals is 0, the index of the first item.
  pub get_id_absent :
      (eq : A → A → Bool) (key : A) (a : Array A)
      → ((k : ℕ) → k < a.len → eq (get_or a.items k blank) key ≡ false)
      → get_id blank eq key a ≡ 0
  unfolding get_id
  get_id_absent eq key a h = search_none eq key a.items 0 a.len (λ k l m. h k (omega (arith, m)))
