-- ===== src/Helper/Vector/Laws.antt =====
-- The linked elements as a list.
use sc_co_si_m.Prelude.{
  ℕ, zero, suc, ◌+◌, ◌<◌, ◌^◌, ◌≡◌, ◌≢◌, refl, sym, ap, ◌∙◌, Option, none, some, List, [], ◌∷◌,
  ◌++◌, arith, length, length-append, get_elem?, ◌==◌, sub32, false,
}
use mathlib.Core.Path.{subst, subst⁻¹}
use sc_co_si_m.Helper.Vector.{
  Element, Vector, write_cell, set_next, new_vector, link, push_back, preview_of, unlink, last_cell,
  pop_back, find, at,
}

module _ {A : Type 0} where
  -- From `start` on, the elements hold the items of the list, at positions from `i` on; `prev` is
  -- what stands before them, and `last` the last of them, or `prev`.
  abbrev pub IsChain :
      (ℕ → Option (Element A)) → ℕ → Option ℕ → Option ℕ → ℕ → List A → Option ℕ → Type 0
  IsChain c b start prev i [] last = (start ≡ none) × (last ≡ prev)
  IsChain c b start prev i (x ∷ xs) last =
      (a : ℕ) × (n : Option ℕ) × (start ≡ some a)
      × (a < b)
      × (c a ≡ some (record { value = x; pos = i; next = n; preview = prev }))
      × IsChain c b n (some a) (suc i) xs last

  pub record IsVector (v : Vector A) (xs : List A) : Type 0 where
    pub chain : IsChain v.cell v.fresh v.m_element none 0 xs v.m_last_element
    pub sized : v.m_size ≡ length xs
    pub fits : length xs < 2 ^ 32

  pos_at : Option (Element A) → ℕ
  pos_at none = 0
  pos_at (some e) = e.pos

  -- Elements at different positions are different.
  apart :
      (c : ℕ → Option (Element A)) (a b : ℕ) (d e : Element A)
      → c a ≡ some d
      → c b ≡ some e
      → d.pos < e.pos
      → a ≢ b
  unfolding pos_at
  apart c a b d e h k l q = let same : d.pos ≡ e.pos = ap pos_at (sym h ∙ ap c q ∙ k) in omega arith

  find_lem :
      (v : Vector A) (b : ℕ) (start prev last : Option ℕ) (i k fuel : ℕ) (xs : List A)
      → IsChain v.cell b start prev i xs last
      → length xs < fuel
      → find fuel v (i + k) start ≡ some (get_elem? xs k)
  unfolding find
  find_lem v b start prev last i k zero [] h f = absurd (omega arith)
  find_lem v b start prev last i k (suc n) [] h f = rw (h.0) refl
  find_lem v b start prev last i k zero (x ∷ xs) h f = absurd (omega arith)
  find_lem v b start prev last i zero (suc n) (x ∷ xs) (a, m, s, l, e, t) f =
      rw (s, find, e) (ground arith)
  find_lem v b start prev last i (suc k) (suc n) (x ∷ xs) (a, m, s, l, e, t) f =
      let passed : (i == i + suc k) ≡ false = ground arith in
      rw (s, find, e, passed)
        (ap (λ j. find n v j m) (omega arith)
          ∙ find_lem v b m (some a) last (suc i) k n xs t (omega (arith, f)))

  last_some :
      (c : ℕ → Option (Element A)) (b : ℕ) (start prev last : Option ℕ) (i : ℕ) (x : A)
      (xs : List A)
      → IsChain c b start prev i (x ∷ xs) last
      → (l : ℕ) × (last ≡ some l)
  last_some c b start prev last i x [] (a, n, s, k, e, t) = (a, t.1)
  last_some c b start prev last i x (y ∷ ys) (a, n, s, k, e, t) =
      last_some c b n (some a) last (suc i) y ys t

  -- The last element's position.
  last_pos :
      (c : ℕ → Option (Element A)) (b : ℕ) (start prev : Option ℕ) (i l : ℕ) (x : A) (xs : List A)
      → IsChain c b start prev i (x ∷ xs) (some l)
      → (e : Element A) × (c l ≡ some e) × (e.pos ≡ i + length xs) × (l < b)
  last_pos c b start prev i l x [] (a, n, s, k, e, (p, q)) =
      let same : l ≡ a = cc in
      (record { value = x; pos = i; next = n; preview = prev }, rw same e, omega arith, rw same k)
  last_pos c b start prev i l x (y ∷ ys) (a, n, s, k, e, t) =
      let (d, f, g, h) = last_pos c b n (some a) (suc i) l y ys t in (d, f, omega (arith, g), h)

  -- An element put behind the last one.
  abbrev linked : (ℕ → Option (Element A)) → ℕ → ℕ → A → ℕ → ℕ → Option (Element A)
  linked c b l y pos =
      write_cell b (some (record { value = y; pos = pos; next = none; preview = some l }))
        (set_next l (some b) c)

  kept_cell :
      (c : ℕ → Option (Element A)) (a b l pos : ℕ) (y : A)
      → a < b
      → a ≢ l
      → linked c b l y pos a ≡ c a
  kept_cell c a b l pos y h n = ground arith

  snoc-IsChain :
      (c : ℕ → Option (Element A)) (b : ℕ) (start prev : Option ℕ) (i l pos : ℕ) (x y : A)
      (xs : List A)
      → pos ≡ i + suc (length xs)
      → IsChain c b start prev i (x ∷ xs) (some l)
      → IsChain (linked c b l y pos) (suc b) start prev i (x ∷ (xs ++ y ∷ [])) (some b)
  snoc-IsChain c b start prev i l pos x y [] h (a, n, s, k, e, (p, q)) =
      let same : l ≡ a = cc in
      (
        a,
        some b,
        s,
        omega arith,
        ground (arith, e, same),
        (b, none, refl, omega arith, ground (arith, same, h), (refl, refl)),
      )
  snoc-IsChain c b start prev i l pos x y (z ∷ zs) h (a, n, s, k, e, t) =
      let (d, f, g, m) = last_pos c b n (some a) (suc i) l z zs t in
      (
        a,
        n,
        s,
        omega arith,
        kept_cell c a b l pos y k (apart c a l _ d e f (omega (arith, g))) ∙ e,
        snoc-IsChain c b n (some a) (suc i) l pos z y zs (omega (arith, h)) t,
      )

  pub push_back-IsVector :
      (v : Vector A) (xs : List A) (y : A)
      → IsVector v xs
      → length xs + 1 < 2 ^ 32
      → IsVector (push_back y v) (xs ++ y ∷ [])
  unfolding push_back link
  push_back-IsVector v [] y h k =
      subst⁻¹ (λ o. IsVector (link y o v) (y ∷ [])) (h.chain.1)
        (record {
          chain = (v.fresh, none, refl, omega arith, ground (arith, h.sized), (refl, refl));
          sized = omega (arith, h.sized);
          fits = omega arith;
        })
  push_back-IsVector v (x ∷ xs) y h k =
      let (l, e) = last_some v.cell v.fresh v.m_element none v.m_last_element 0 x xs h.chain in
      let chain = subst (IsChain v.cell v.fresh v.m_element none 0 (x ∷ xs)) e h.chain in
      subst⁻¹ (λ o. IsVector (link y o v) (x ∷ (xs ++ y ∷ []))) e
        (record {
          chain =
              snoc-IsChain v.cell v.fresh v.m_element none 0 l v.m_size x y xs
                (omega (arith, h.sized)) chain;
          sized = omega (arith, h.sized, length-append xs (y ∷ []), k);
          fits = omega (arith, length-append xs (y ∷ []), k);
        })

  -- The element before the last one takes its place.
  abbrev unlinked : (ℕ → Option (Element A)) → ℕ → ℕ → ℕ → Option (Element A)
  unlinked c l m = write_cell l none (set_next m none c)

  other_cell : (c : ℕ → Option (Element A)) (a l m : ℕ) → a ≢ l → a ≢ m → unlinked c l m a ≡ c a
  other_cell c a l m h k = ground arith

  unsnoc-IsChain :
      (c : ℕ → Option (Element A)) (b : ℕ) (start prev last : Option ℕ) (i : ℕ) (x y : A)
      (xs : List A)
      → IsChain c b start prev i (x ∷ (xs ++ y ∷ [])) last
      → (l : ℕ) × (m : ℕ) × (last ≡ some l)
        × (c l
            ≡ some (record { value = y; pos = i + suc (length xs); next = none; preview = some m }))
        × ((e : Element A) × (c m ≡ some e) × (e.pos ≡ i + length xs))
        × IsChain (unlinked c l m) b start prev i (x ∷ xs) (some m)
  unsnoc-IsChain c b start prev last i x y [] (a, n, s, k, e, (l, o, q, j, f, (p, r))) = (
    l,
    a,
    r,
    ground (arith, f, p),
    (_, e, omega arith),
    (a, none, s, k, ground (arith, e, apart c a l _ _ e f (omega arith)), (refl, refl)),
  )
  unsnoc-IsChain c b start prev last i x y (z ∷ zs) (a, n, s, k, e, t) =
      let (l, m, r, f, (d, g, o), u) = unsnoc-IsChain c b n (some a) last (suc i) z y zs t in
      (
        l,
        m,
        r,
        f
            ∙ ap (λ j. some (record { value = y; pos = j; next = none; preview = some m }))
                (omega arith),
        (d, g, omega (arith, o)),
        (
          a,
          n,
          s,
          k,
          other_cell c a l m (apart c a l _ _ e f (omega arith))
                (apart c a m _ d e g (omega (arith, o)))
              ∙ e,
          u,
        ),
      )

  -- To take the last of several items off a vector that holds them leaves the others; of an empty
  -- one, nothing; of one item, the program goes through a null pointer.
  pub pop_back-IsVector :
      (v : Vector A) (xs : List A) (x y : A)
      → IsVector v (x ∷ (xs ++ y ∷ []))
      → (w : Vector A) × (pop_back v ≡ some w) × IsVector w (x ∷ xs)
  unfolding pop_back preview_of unlink last_cell
  pop_back-IsVector v xs x y h =
      let (a, n, s, j, e, t) = h.chain in
      let (l, m, r, f, g, u) =
        unsnoc-IsChain v.cell v.fresh v.m_element none v.m_last_element 0 x y xs h.chain in
      (
        record v { cell = unlinked v.cell l m; m_last_element = some m; m_size = sub32 v.m_size 1 },
        ground (arith, s, r, f),
        record {
          chain = u;
          sized = omega (arith, h.sized, length-append xs (y ∷ []), h.fits);
          fits = omega (arith, length-append xs (y ∷ []), h.fits);
        },
      )

  pub pop_back_one : (v : Vector A) (x : A) → IsVector v (x ∷ []) → pop_back v ≡ none
  unfolding pop_back preview_of unlink last_cell
  pop_back_one v x h = let (a, n, s, j, e, t) = h.chain in ground (arith, s, e, t.1)

  pub at-IsVector :
      (v : Vector A) (xs : List A) (fuel k : ℕ)
      → IsVector v xs
      → length xs < fuel
      → at fuel v k ≡ some (get_elem? xs k)
  unfolding at
  at-IsVector v xs fuel k h f =
      ap (λ j. find fuel v j v.m_element) (omega arith)
      ∙ find_lem v v.fresh v.m_element none v.m_last_element 0 k fuel xs h.chain f

  pub pop_back_empty : (v : Vector A) → IsVector v [] → pop_back v ≡ some v
  unfolding pop_back
  pop_back_empty v h = let e = h.chain.0 in ground (arith, e)

  pub new_vector-IsVector : IsVector new_vector []
  unfolding new_vector
  new_vector-IsVector = record { chain = (refl, refl); sized = refl; fits = omega arith }
