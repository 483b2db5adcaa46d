-- ===== src/Helper/Vector/Refine.antt =====
-- The vector against a list, over any sequence of operations.
use sc_co_si_m.Prelude.{
  ℕ, suc, ◌+◌, ◌≤◌, ◌<◌, ◌^◌, ◌≡◌, refl, ap, Option, none, some, List, [], ◌∷◌, ◌++◌, arith, length,
  length-append, get_elem?,
}
use mathlib.Core.Path.{subst}
use sc_co_si_m.Helper.Vector.{Vector, new_vector, push_back, pop_back, at, size}
use sc_co_si_m.Helper.Vector.Laws.{
  IsVector, push_back-IsVector, pop_back-IsVector, pop_back_one, pop_back_empty,
  new_vector-IsVector, at-IsVector,
}

pub data Op (A : Type 0) : Type 0 where
  pushes : A → Op A
  pops : Op A

module _ {A : Type 0} where
  pub vector_op : Op A → Vector A → Option (Vector A)
  vector_op (pushes x) v = some (push_back x v)
  vector_op pops v = pop_back v

  pub vector_ops : List (Op A) → Vector A → Option (Vector A)
  vector_ops [] v = some v
  vector_ops (o ∷ os) v = elim (vector_op o v) [ none ↦ none | some w ↦ vector_ops os w ]

  -- The same on lists; to pop the only item ends in a null pointer.
  pub but_last : List A → List A
  but_last [] = []
  but_last (x ∷ []) = []
  but_last (x ∷ y ∷ ys) = x ∷ but_last (y ∷ ys)

  pub list_op : Op A → List A → Option (List A)
  list_op (pushes x) xs = some (xs ++ x ∷ [])
  list_op pops [] = some []
  list_op pops (x ∷ []) = none
  list_op pops (x ∷ y ∷ ys) = some (x ∷ but_last (y ∷ ys))

  pub list_ops : List (Op A) → List A → Option (List A)
  list_ops [] xs = some xs
  list_ops (o ∷ os) xs = elim (list_op o xs) [ none ↦ none | some ys ↦ list_ops os ys ]

  -- The vector shows the list: its size, and the item at each position.
  pub record Shows (v : Vector A) (xs : List A) : Type 0 where
    pub shows_size : size v ≡ length xs
    pub shows_at : (k : ℕ) → at (suc (length xs)) v k ≡ some (get_elem? xs k)

  abbrev pub Agree : Option (Vector A) → Option (List A) → Type 0
  Agree none none = Unit
  Agree none (some xs) = ⊥
  Agree (some v) none = ⊥
  Agree (some v) (some xs) = Shows v xs

  abbrev Holds : Option (Vector A) → Option (List A) → Type 0
  Holds none none = Unit
  Holds none (some xs) = ⊥
  Holds (some v) none = ⊥
  Holds (some v) (some xs) = IsVector v xs

  last_view : (x : A) (xs : List A) → (ys : List A) × (y : A) × (x ∷ xs ≡ ys ++ y ∷ [])
  last_view x [] = ([], x, refl)
  last_view x (z ∷ zs) = let (ys, y, e) = last_view z zs in (x ∷ ys, y, ap (λ l. x ∷ l) e)

  but_last-snoc : (xs : List A) (y : A) → but_last (xs ++ y ∷ []) ≡ xs
  unfolding but_last
  but_last-snoc [] y = refl
  but_last-snoc (x ∷ []) y = refl
  but_last-snoc (x ∷ z ∷ zs) y = ap (λ l. x ∷ l) (but_last-snoc (z ∷ zs) y)

  op-Holds :
      (o : Op A) (v : Vector A) (xs : List A)
      → IsVector v xs
      → length xs + 1 < 2 ^ 32
      → Holds (vector_op o v) (list_op o xs)
  unfolding vector_op list_op
  op-Holds (pushes x) v xs h k = push_back-IsVector v xs x h k
  op-Holds pops v [] h k = rw (pop_back_empty v h) h
  op-Holds pops v (x ∷ []) h k = rw (pop_back_one v x h) tt
  op-Holds pops v (x ∷ z ∷ zs) h k =
      let (ys, y, e) = last_view z zs in
      let (w, p, q) = pop_back-IsVector v ys x y (subst (λ l. IsVector v (x ∷ l)) e h) in
      rw (p, e, but_last-snoc ys y) q

  length-but_last : (x : A) (xs : List A) → length (but_last (x ∷ xs)) ≡ length xs
  unfolding but_last
  length-but_last x [] = refl
  length-but_last x (z ∷ zs) = omega (arith, length-but_last z zs)

  length_of : Option (List A) → ℕ
  length_of none = 0
  length_of (some xs) = length xs

  -- An operation makes a list longer by one item at most.
  list_op-bound : (o : Op A) (xs ys : List A) → list_op o xs ≡ some ys → length ys ≤ length xs + 1
  unfolding list_op length_of
  list_op-bound (pushes x) xs ys e =
      let same : length (xs ++ x ∷ []) ≡ length ys = ap length_of e in
      omega (arith, length-append xs (x ∷ []))
  list_op-bound pops [] ys e = let same : 0 ≡ length ys = ap length_of e in omega arith
  list_op-bound pops (x ∷ []) ys e = let same : 0 ≡ length ys = ap length_of e in omega arith
  list_op-bound pops (x ∷ z ∷ zs) ys e =
      let same : suc (length (but_last (z ∷ zs))) ≡ length ys = ap length_of e in
      omega (arith, length-but_last z zs)

  shown : (v : Vector A) (xs : List A) → IsVector v xs → Shows v xs
  unfolding size
  shown v xs h = record {
    shows_size = h.sized;
    shows_at = λ k. at-IsVector v xs (suc (length xs)) k h (omega arith);
  }

  ops_from :
      (os : List (Op A)) (v : Vector A) (xs : List A)
      → IsVector v xs
      → length xs + length os < 2 ^ 32
      → Agree (vector_ops os v) (list_ops os xs)
  unfolding vector_ops list_ops
  ops_from [] v xs h k = shown v xs h
  ops_from (o ∷ os) v xs h k =
      go (vector_op o v) (list_op o xs) refl (op-Holds o v xs h (omega arith)) (ops_from os)
    where
      go :
          (p : Option (Vector A)) (q : Option (List A))
          → list_op o xs ≡ q
          → Holds p q
          → ((w : Vector A) (ys : List A)
              → IsVector w ys
              → length ys + length os < 2 ^ 32
              → Agree (vector_ops os w) (list_ops os ys))
          → Agree
              (elim p as (λ _. Option (Vector A)) [ none ↦ none | some w ↦ vector_ops os w ])
              (elim q as (λ _. Option (List A)) [ none ↦ none | some ys ↦ list_ops os ys ])
      go none none e m r = tt
      go none (some ys) e m r = absurd m
      go (some w) none e m r = absurd m
      go (some w) (some ys) e m r = r w ys m (omega (arith, list_op-bound o xs ys e))

  -- From a new vector, any sequence of fewer than 2^32 pushes and pops does on the linked elements
  -- what it does on a list: in the end the size and the item at each position are the list's, and
  -- a position past the end comes to a null pointer, unless some pop takes the only item there is,
  -- and then the program goes through a null pointer.
  pub vector_ops-list_ops :
      (os : List (Op A)) → length os < 2 ^ 32 → Agree (vector_ops os new_vector) (list_ops os [])
  vector_ops-list_ops os k = ops_from os new_vector [] new_vector-IsVector (omega (arith, k))
