-- ===== src/Helper/Array.antt =====
-- `hsoc_array` of library/Helper/hsoc_array.h: an array of which the positions start at a base. The
-- mutex around some of the operations is the SystemC library's.
pub mod Laws
use sc_co_si_m.Prelude.{
  ℕ, zero, suc, ◌+◌, ◌%◌, ◌^◌, ◌-◌, Bool, List, [], ◌∷◌, get_or, set, replicate, ltb, if◌then◌else◌,
}

-- `data` points to `len` items; base and length are uint64.
pub record Array {ℓ} (A : Type ℓ) : Type ℓ where
  pub items : List A
  pub base : ℕ
  pub len : ℕ

abbrev pub sub64 : ℕ → ℕ → ℕ
sub64 a b = (a + 2 ^ 64 - b) % 2 ^ 64

-- `blank` is what `new T [n]` leaves in an item. An access past the end of the array, which is
-- undefined in C++, changes nothing here, or gives `blank`; the program prints a message first.
module _ {ℓ} {A : Type ℓ} (blank : A) where
  pub empty_array : Array A
  empty_array = record { items = []; base = 0; len = 0 }

  pub new_array : ℕ → ℕ → Array A
  new_array n m = record { items = replicate n blank; base = m; len = n }

  -- The loop `for (i...) to [i] = from [i]`, for `n` items from `i` on.
  unfoldable pub transfer : List A → ℕ → ℕ → List A → List A
  transfer src i zero dst = dst
  transfer src i (suc n) dst = transfer src (suc i) n (set dst i (get_or src i blank))

  -- The copy constructor.
  pub copy_array : Array A → Array A
  copy_array a = record {
    items = transfer a.items 0 a.len (replicate a.len blank);
    base = a.base;
    len = a.len;
  }

  -- operator=, of the array `a` on the left.
  pub assign : Array A → Array A → Array A
  assign a b = record {
    items = transfer b.items 0 b.len (replicate b.len blank);
    base = b.base;
    len = b.len;
  }

  pub set_base : ℕ → Array A → Array A
  set_base m a = record a { base = m }

  unfoldable pub set_length : ℕ → Array A → Array A
  unfolding transfer
  set_length n a =
      let min = if ltb a.len n then a.len else n in
      record { items = transfer a.items 0 min (replicate n blank); base = a.base; len = n }

  -- The two operators [], to read and to write.
  unfoldable pub at : Array A → ℕ → A
  at a position = get_or a.items (sub64 position a.base) blank

  unfoldable pub set_at : ℕ → A → Array A → Array A
  set_at position v a = record a { items = set a.items (sub64 position a.base) v }

  pub set_no_offset_data : ℕ → A → Array A → Array A
  set_no_offset_data position v a = record a { items = set a.items position v }

  -- The loop of get_id from `i` on, over the `n` items left, with the test `==` of the type.
  unfoldable pub search : (A → A → Bool) → A → List A → ℕ → ℕ → ℕ
  search eq key xs i zero = 0
  search eq key xs i (suc n) =
      let rest = search eq key xs (suc i) n in if eq (get_or xs i blank) key then i else rest

  unfoldable pub get_id : (A → A → Bool) → A → Array A → ℕ
  get_id eq key a = search eq key a.items 0 a.len

  -- The loop of fill.
  unfoldable pub fill_from : A → ℕ → ℕ → List A → List A
  fill_from v i zero xs = xs
  fill_from v i (suc n) xs = fill_from v (suc i) n (set xs i v)

  unfoldable pub fill : A → Array A → Array A
  fill v a = record a { items = fill_from v 0 a.len a.items }
