-- ===== src/Helper/Text/Laws.antt =====
-- What a trimmed string is, and that trim makes one.
use sc_co_si_m.Prelude.{
  ℕ, ◌≡◌, ◌⊎◌, inl, inr, refl, sym, ap, ◌∙◌, Bool, false, not, ◌&&◌, List, [], ◌∷◌, Bool-cases,
  if◌then◌else◌,
}
use sc_co_si_m.Helper.Text.{is_whitespace, erase_front, squeeze, is_empty, erase_back, finish, trim}

-- No white space next to other, from the character before the string on.
abbrev pub IsSqueezed : ℕ → List ℕ → Type 0
IsSqueezed before [] = Unit
IsSqueezed before (c ∷ cs) = ((is_whitespace before && is_whitespace c) ≡ false) × IsSqueezed c cs

-- The same, and no white space at the end.
abbrev pub IsSpaced : ℕ → List ℕ → Type 0
IsSpaced before [] = is_whitespace before ≡ false
IsSpaced before (c ∷ cs) = ((is_whitespace before && is_whitespace c) ≡ false) × IsSpaced c cs

-- No white space at either end, and no two characters of it together.
abbrev pub IsTrimmed : List ℕ → Type 0
IsTrimmed [] = Unit
IsTrimmed (c ∷ cs) = (is_whitespace c ≡ false) × IsSpaced c cs

-- A character that is not white space comes first.
unfoldable pub starts : List ℕ → Bool
starts [] = false
starts (c ∷ cs) = not (is_whitespace c)

-- A character put before the words behind it: into the first of them where it `touches` it.
unfoldable pub join : Bool → ℕ → List (List ℕ) → List (List ℕ)
join touches c [] = (c ∷ []) ∷ []
join touches c (w ∷ ws) = if touches then (c ∷ w) ∷ ws else (c ∷ []) ∷ w ∷ ws

-- The words that white space parts.
unfoldable pub words : List ℕ → List (List ℕ)
words [] = []
words (c ∷ cs) = let rest = words cs in if is_whitespace c then rest else join (starts cs) c rest

squeeze-IsSqueezed : (before : ℕ) (cs : List ℕ) → IsSqueezed before (squeeze before cs)
unfolding squeeze
squeeze-IsSqueezed before [] = tt
squeeze-IsSqueezed before (c ∷ cs) = elim (Bool-cases (is_whitespace before && is_whitespace c)) [
  | inl e ↦ rw e (squeeze-IsSqueezed before cs)
  | inr e ↦ rw e (e, squeeze-IsSqueezed c cs)
]

empty-or-not : (cs : List ℕ) → (cs ≡ []) ⊎ (is_empty cs ≡ false)
empty-or-not [] = inl refl
empty-or-not (c ∷ cs) = inr refl

erase_back-IsSpaced :
    (before : ℕ) (cs : List ℕ)
    → IsSqueezed before cs
    → (erase_back cs ≡ []) ⊎ IsSpaced before (erase_back cs)
unfolding erase_back
erase_back-IsSpaced before [] h = inl refl
erase_back-IsSpaced before (c ∷ cs) h = elim (erase_back-IsSpaced c cs h.1) [
  | inl e ↦ elim (Bool-cases (is_whitespace c)) [
    | inl f ↦ inl (rw (e, f) refl)
    | inr f ↦ inr (rw (e, f) (h.0, f))
  ]
  | inr k ↦ elim (empty-or-not (erase_back cs)) [
    | inl e ↦ elim (Bool-cases (is_whitespace c)) [
      | inl f ↦ inl (rw (e, f) refl)
      | inr f ↦ inr (rw (e, f) (h.0, f))
    ]
    | inr e ↦ inr (rw e (h.0, k))
  ]
]

erase_front-starts :
    (s : List ℕ)
    → (erase_front s ≡ [])
      ⊎ ((c : ℕ) × (cs : List ℕ) × (erase_front s ≡ c ∷ cs) × (is_whitespace c ≡ false))
unfolding erase_front
erase_front-starts [] = inl refl
erase_front-starts (c ∷ cs) = elim (Bool-cases (is_whitespace c)) [
  | inl e ↦ rw e (erase_front-starts cs)
  | inr e ↦ inr (c, cs, rw e refl, e)
]

-- The trailing loop does not reach a first character that is not white space.
pub erase_back-keeps :
    (c : ℕ) (cs : List ℕ) → is_whitespace c ≡ false → erase_back (c ∷ cs) ≡ c ∷ erase_back cs
unfolding erase_back
erase_back-keeps c cs e = elim (Bool-cases (is_empty (erase_back cs))) [
  | inl f ↦ rw (f, e) refl
  | inr f ↦ rw f refl
]

finish-IsTrimmed : (c : ℕ) (cs : List ℕ) → is_whitespace c ≡ false → IsTrimmed (finish (c ∷ cs))
unfolding finish
finish-IsTrimmed c cs e =
    rw (erase_back-keeps c (squeeze c cs) e)
      (elim (erase_back-IsSpaced c (squeeze c cs) (squeeze-IsSqueezed c cs)) [
        | inl f ↦ rw f (e, e)
        | inr h ↦ (e, h)
      ])

trim-IsTrimmed : (s : List ℕ) → IsTrimmed (trim s)
unfolding trim finish
trim-IsTrimmed s = elim (erase_front-starts s) [
  | inl e ↦ rw e tt
  | inr (c, cs, e, f) ↦ rw e (finish-IsTrimmed c cs f)
]

starts-squeeze :
    (before : ℕ) (cs : List ℕ)
    → is_whitespace before ≡ false
    → starts (squeeze before cs) ≡ starts cs
unfolding squeeze starts
starts-squeeze before [] e = refl
starts-squeeze before (c ∷ cs) e = rw e refl

starts-erase_back : (cs : List ℕ) → starts (erase_back cs) ≡ starts cs
unfolding erase_back starts
starts-erase_back [] = refl
starts-erase_back (c ∷ cs) = elim (Bool-cases (is_whitespace c)) [
  | inl e ↦ elim (empty-or-not (erase_back cs)) [ inl f ↦ rw (f, e) refl | inr f ↦ rw (f, e) refl ]
  | inr e ↦ rw (erase_back-keeps c cs e, e) refl
]

words-erase_front : (s : List ℕ) → words (erase_front s) ≡ words s
unfolding erase_front words
words-erase_front [] = refl
words-erase_front (c ∷ cs) = elim (Bool-cases (is_whitespace c)) [
  | inl e ↦ rw e (words-erase_front cs)
  | inr e ↦ rw (words, e, e) refl
]

-- What is left of a run of white space still parts the words on its sides.
words-squeeze : (before : ℕ) (cs : List ℕ) → words (squeeze before cs) ≡ words cs
unfolding squeeze words
words-squeeze before [] = refl
words-squeeze before (c ∷ cs) = elim (Bool-cases (is_whitespace c)) [
  | inl e ↦ elim (Bool-cases (is_whitespace before)) [
    | inl f ↦ rw (f, e) (words-squeeze before cs)
    | inr f ↦ rw (f, e) (words-squeeze c cs)
  ]
  | inr e ↦ elim (Bool-cases (is_whitespace before)) [
    | inl f ↦ rw (f, e, e, starts-squeeze c cs e) (ap (join (starts cs) c) (words-squeeze c cs))
    | inr f ↦ rw (f, e, starts-squeeze c cs e) (ap (join (starts cs) c) (words-squeeze c cs))
  ]
]

words-erase_back : (cs : List ℕ) → words (erase_back cs) ≡ words cs
unfolding erase_back words
words-erase_back [] = refl
words-erase_back (c ∷ cs) = elim (Bool-cases (is_whitespace c)) [
  | inl e ↦ elim (empty-or-not (erase_back cs)) [
    | inl f ↦ rw (f, e) (ap words (sym f) ∙ words-erase_back cs)
    | inr f ↦ rw (f, e) (words-erase_back cs)
  ]
  | inr e ↦
      rw (erase_back-keeps c cs e, e, starts-erase_back cs)
        (ap (join (starts cs) c) (words-erase_back cs))
]

words-trim : (s : List ℕ) → words (trim s) ≡ words s
unfolding trim finish words
words-trim s = elim (erase_front-starts s) [
  | inl e ↦ rw e (ap words (sym e) ∙ words-erase_front s)
  | inr (c, cs, e, f) ↦ rw e (
      words-erase_back (c ∷ squeeze c cs)
      ∙ (rw (words, f, starts-squeeze c cs f) (ap (join (starts cs) c) (words-squeeze c cs)))
      ∙ ap words (sym e)
      ∙ words-erase_front s)
]

squeeze_spaced : (before : ℕ) (cs : List ℕ) → IsSpaced before cs → squeeze before cs ≡ cs
unfolding squeeze
squeeze_spaced before [] h = refl
squeeze_spaced before (c ∷ cs) h = rw h.0 (ap (λ l. c ∷ l) (squeeze_spaced c cs h.1))

erase_back_spaced : (before : ℕ) (cs : List ℕ) → IsSpaced before cs → erase_back cs ≡ cs
unfolding erase_back
erase_back_spaced before [] h = refl
erase_back_spaced before (c ∷ []) h = rw h.1 refl
erase_back_spaced before (c ∷ d ∷ ds) h = rw (erase_back_spaced c (d ∷ ds) h.1) refl

trim_trimmed : (s : List ℕ) → IsTrimmed s → trim s ≡ s
unfolding trim finish erase_front
trim_trimmed [] h = refl
trim_trimmed (c ∷ cs) h =
    rw (h.0, squeeze_spaced c cs h.1, erase_back-keeps c cs h.0)
      (ap (λ l. c ∷ l) (erase_back_spaced c cs h.1))

-- Of any string, trim makes one with no white space at either end and no two characters of it
-- together, with the same words that white space parts, in the same order; and to trim it again
-- changes nothing.
pub trim_lem :
    (s : List ℕ) → IsTrimmed (trim s) × (words (trim s) ≡ words s) × (trim (trim s) ≡ trim s)
trim_lem s = (trim-IsTrimmed s, words-trim s, trim_trimmed (trim s) (trim-IsTrimmed s))
