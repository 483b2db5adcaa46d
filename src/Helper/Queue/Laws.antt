-- ===== src/Helper/Queue/Laws.antt =====
-- What each operation of the queue does to the items in it.
use sc_co_si_m.Prelude.{
  ℕ, zero, suc, ◌+◌, ◌-◌, ◌≤◌, ◌<◌, ◌^◌, ◌≡◌, refl, ap, ◌∙◌, arith, Option, none, some, List, [],
  ◌∷◌, ◌++◌, get_elem?, get_or, get_or-set_self, get_or-set_ne, set, replicate, length, length-set,
  length-replicate, u32, leb, ltb, ◌==◌, Bool-cases, inl, inr,
}
use sc_co_si_m.Helper.Queue.{
  Queue, copy, change_array_size, store_tail, push, pop, pop_front, front, size, at,
}

-- The indices lie in the array, and the array has q_size items, fewer than 2 ^ 32.
pub record IsQueue {ℓ} {A : Type ℓ} (q : Queue A) : Type ℓ where
  pub head_tail : q.head ≤ q.tail
  pub tail_size : q.tail ≤ q.q_size
  pub has_size : length q.items ≡ q.q_size
  pub word : q.q_size < 2 ^ 32

module _ {ℓ} {A : Type ℓ} (blank : A) where
  -- `n` items from `i` on.
  pub slice : List A → ℕ → ℕ → List A
  slice xs i zero = []
  slice xs i (suc n) = get_or xs i blank ∷ slice xs (suc i) n

  -- The queue that the array stands for.
  pub contents : Queue A → List A
  contents q = slice q.items q.head (q.tail - q.head)

  slice_snoc :
      (xs : List A) (i n : ℕ) → slice xs i (suc n) ≡ slice xs i n ++ get_or xs (i + n) blank ∷ []
  unfolding slice
  slice_snoc xs i zero = ap (λ k. get_or xs k blank ∷ []) (omega arith)
  slice_snoc xs i (suc n) =
      ap (λ r. get_or xs i blank ∷ r)
        (slice_snoc xs (suc i) n
          ∙ ap (λ k. slice xs (suc i) n ++ get_or xs k blank ∷ []) (omega arith))

  slice-set : (xs : List A) (i n j : ℕ) (v : A) → i + n ≤ j → slice (set xs j v) i n ≡ slice xs i n
  unfolding slice
  slice-set xs i zero j v h = refl
  slice-set xs i (suc n) j v h =
      let first = get_or-set_ne xs {i = j} {j = i} v blank (omega arith) in
      cc (first, slice-set xs (suc i) n j v (omega arith))

  length-copy :
      (src : List A) (i j n : ℕ) (dst : List A) → length (copy blank src i j n dst) ≡ length dst
  unfolding copy
  length-copy src i j zero dst = refl
  length-copy src i j (suc n) dst =
      length-copy src (suc i) (suc j) n (set dst j _) ∙ length-set dst j _

  copy_below :
      (src : List A) (i j n k : ℕ) (dst : List A)
      → k < j
      → get_or (copy blank src i j n dst) k blank ≡ get_or dst k blank
  unfolding copy
  copy_below src i j zero k dst h = refl
  copy_below src i j (suc n) k dst h =
      copy_below src (suc i) (suc j) n k (set dst j _) (omega arith)
      ∙ get_or-set_ne dst _ blank (omega arith)

  -- The copy holds the items copied.
  slice-copy :
      (src : List A) (i j n : ℕ) (dst : List A)
      → j + n ≤ length dst
      → slice (copy blank src i j n dst) j n ≡ slice src i n
  unfolding copy slice
  slice-copy src i j zero dst h = refl
  slice-copy src i j (suc n) dst h =
      let v = get_or src i blank in
      let here = copy_below src (suc i) (suc j) n j (set dst j v) (omega arith) in
      let there = get_or-set_self dst j v blank (omega arith) in
      let rest =
        slice-copy src (suc i) (suc j) n (set dst j v) (omega (arith, length-set dst j v)) in
      cc (here, there, rest)

  -- A larger array changes nothing of the queue, and has room.
  change_array_size-IsQueue :
      (n : ℕ) (q : Queue A)
      → IsQueue q
      → q.tail < n
      → n < 2 ^ 32
      → let r = change_array_size blank n q in
        IsQueue r × (contents r ≡ contents q) × (r.tail < r.q_size)
  unfolding change_array_size contents
  change_array_size-IsQueue n q h room word =
      let fresh = replicate n blank in
      let k = q.tail - q.head in
      let items = copy blank q.items q.head 0 k fresh in
      let long : length items ≡ n =
        length-copy q.items q.head 0 k fresh ∙ length-replicate n blank in
      (
        record { head_tail = omega arith; tail_size = omega arith; has_size = long; word = word },
        ap (λ m. slice items 0 m) (omega arith)
            ∙ slice-copy q.items q.head 0 k fresh (omega (arith, length-replicate n blank)),
        omega arith,
      )

  store_tail-IsQueue :
      (x : A) (q : Queue A)
      → IsQueue q
      → q.tail < q.q_size
      → let r = store_tail blank x q in IsQueue r × (contents r ≡ contents q ++ x ∷ [])
  unfolding store_tail contents
  store_tail-IsQueue x q h room =
      let k = q.tail - q.head in
      let items = set q.items q.tail x in
      let last : q.head + k ≡ q.tail = omega (arith, h) in
      (
        record {
          head_tail = omega (arith, h);
          tail_size = omega (arith, h);
          has_size = length-set q.items q.tail x ∙ h.has_size;
          word = h.word;
        },
        ap (λ m. slice items q.head m) (omega (arith, h))
            ∙ slice_snoc items q.head k
            ∙ cc (
              slice-set q.items q.head k q.tail x (omega (arith, h)),
              ap (λ m. get_or items m blank) last,
              get_or-set_self q.items q.tail x blank (omega (arith, h)),
            ),
      )

  -- There is room for a larger array.
  abbrev pub CanGrow : Queue A → Type 0
  CanGrow q = q.q_size + 10 < 2 ^ 32

  -- On a well-formed queue whose array can still grow by ten, a push keeps it well-formed, puts
  -- the item behind the others, also where the items move to a larger array, and grows the array
  -- by no more than ten.
  pub push-contents :
      (x : A) (q : Queue A)
      → IsQueue q
      → CanGrow q
      → IsQueue (push blank x q)
        × (contents (push blank x q) ≡ contents q ++ x ∷ [])
        × ((push blank x q).q_size ≤ q.q_size + 10)
  unfolding push
  push-contents x q h grow = elim (Bool-cases (leb q.q_size q.tail)) [
    | inl e ↦
        (let n : ℕ = u32 (q.q_size + 10) in
          let (wide, same, room) =
            change_array_size-IsQueue n q h (omega (arith, h)) (omega arith) in
          let (ok, more) = store_tail-IsQueue x (change_array_size blank n q) wide room in
          rw e (ok, more ∙ ap (λ c. c ++ x ∷ []) same, unfold change_array_size in omega arith))
    | inr e ↦
        (let (ok, more) = store_tail-IsQueue x q h (ground arith) in rw e (ok, more, omega arith))
  ]

  -- The first item of a list, and the others.
  abbrev pub uncons : List A → Option A × List A
  uncons [] = (none, [])
  uncons (x ∷ xs) = (some x, xs)

  pub contents_empty : (q : Queue A) → q.tail ≤ q.head → contents q ≡ []
  unfolding contents slice
  contents_empty q h =
      let e : q.tail - q.head ≡ 0 = omega arith in ap (λ n. slice q.items q.head n) e

  -- The queue without its first item.
  abbrev advanced : Queue A → Queue A
  advanced q = record q { head = q.head + 1 }

  contents_first :
      (q : Queue A)
      → q.head < q.tail
      → contents q ≡ get_or q.items q.head blank ∷ contents (advanced q)
  unfolding contents slice
  contents_first q h =
      let e : q.tail - q.head ≡ suc (q.tail - (q.head + 1)) = omega arith in
      let next : suc q.head ≡ q.head + 1 = omega arith in
      ap (λ n. slice q.items q.head n) e
      ∙ ap (λ i. get_or q.items q.head blank ∷ slice q.items i (q.tail - (q.head + 1))) next

  length-slice : (xs : List A) (i n : ℕ) → length (slice xs i n) ≡ n
  unfolding slice
  length-slice xs i zero = refl
  length-slice xs i (suc n) = ap suc (length-slice xs (suc i) n)

  pub front-contents : (q : Queue A) → front blank q ≡ (uncons (contents q)).0
  unfolding front
  front-contents q = elim (Bool-cases (ltb q.head q.tail)) [
    | inl e ↦ rw (e, contents_first q (ground arith)) refl
    | inr e ↦ rw (e, contents_empty q (ground arith)) refl
  ]

  -- On a well-formed queue, pop_front keeps it well-formed and its array as large, and gives the
  -- first item and leaves the others, or gives the null pointer and leaves the queue when there is
  -- none.
  pub pop_front-contents :
      (q : Queue A)
      → IsQueue q
      → let (x, r) = pop_front blank q in
        IsQueue r × ((x, contents r) ≡ uncons (contents q)) × (r.q_size ≡ q.q_size)
  unfolding pop_front
  pop_front-contents q h = elim (Bool-cases (ltb q.head q.tail)) [
    | inl e ↦
        (let rest = contents_first q (ground arith) in
          elim (Bool-cases (q.head + 1 == q.tail)) [
            | inl last ↦
                (let gone = contents_empty (record q { head = 0; tail = 0 }) (omega arith) in
                  let none_left = contents_empty (advanced q) (ground arith) in
                  rw (e, last) (omega (arith, h), rw rest (rw (none_left, gone) refl), refl))
            | inr more ↦ rw (e, more, rest) (ground (arith, h), refl, refl)
          ])
    | inr e ↦ rw (e, contents_empty q (ground arith)) (h, refl, refl)
  ]

  pub pop_lem : (q : Queue A) → pop blank q ≡ (pop_front blank q).1
  unfolding pop pop_front
  pop_lem q = ground arith

  pub size-contents : (q : Queue A) → IsQueue q → size blank q ≡ length (contents q)
  unfolding size contents
  size-contents q h = omega (arith, h, length-slice q.items q.head (q.tail - q.head))

  get_elem?-slice :
      (xs : List A) (i n k : ℕ)
      → k < n
      → get_elem? (slice xs i n) k ≡ some (get_or xs (k + i) blank)
  unfolding slice
  get_elem?-slice xs i zero k h = absurd (omega arith)
  get_elem?-slice xs i (suc n) zero h = ap (λ j. some (get_or xs j blank)) (omega arith)
  get_elem?-slice xs i (suc n) (suc k) h =
      get_elem?-slice xs (suc i) n k (omega arith)
      ∙ ap (λ j. some (get_or xs j blank)) (omega arith)

  -- A position below the size reads that item of the queue.
  pub at-contents :
      (q : Queue A) (position : ℕ)
      → position < length (contents q)
      → get_elem? (contents q) position ≡ some (at blank q position)
  unfolding at contents
  at-contents q position h =
      get_elem?-slice q.items q.head (q.tail - q.head) position
        (omega (arith, h, length-slice q.items q.head (q.tail - q.head)))
