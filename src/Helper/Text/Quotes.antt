-- ===== src/Helper/Text/Quotes.antt =====
-- What trimstring leaves between quotes.
use sc_co_si_m.Prelude.{ℕ, ◌≡◌, refl, ap, ◌∙◌, true, false, List, [], ◌∷◌, ◌++◌}
use sc_co_si_m.Helper.Text.{
  is_whitespace, erase_front, squeeze, erase_back, finish, erase_quote_front, erase_quote_back,
  trimstring,
}
use sc_co_si_m.Helper.Text.Laws.{IsSpaced, IsTrimmed}

abbrev pub space : ℕ
space = 0x20

abbrev pub quote : ℕ
quote = 0x22

-- A string, a space and a quote.
abbrev spaced_quote : List ℕ → List ℕ
spaced_quote cs = (cs ++ space ∷ []) ++ quote ∷ []

squeeze-spaced_quote :
    (before : ℕ) (cs : List ℕ)
    → IsSpaced before cs
    → squeeze before (spaced_quote cs) ≡ spaced_quote cs
unfolding squeeze is_whitespace
squeeze-spaced_quote before [] h = rw h refl
squeeze-spaced_quote before (c ∷ cs) h = rw h.0 (ap (λ l. c ∷ l) (squeeze-spaced_quote c cs h.1))

erase_back-quote : (cs : List ℕ) → erase_back (cs ++ quote ∷ []) ≡ cs ++ quote ∷ []
unfolding erase_back is_whitespace
erase_back-quote [] = refl
erase_back-quote (c ∷ []) = refl
erase_back-quote (c ∷ d ∷ ds) = rw (erase_back-quote (d ∷ ds)) refl

erase_quote_back-quote : (cs : List ℕ) → erase_quote_back (cs ++ quote ∷ []) ≡ cs
unfolding erase_quote_back
erase_quote_back-quote [] = refl
erase_quote_back-quote (c ∷ []) = refl
erase_quote_back-quote (c ∷ d ∷ ds) = ap (λ l. c ∷ l) (erase_quote_back-quote (d ∷ ds))

space_blank : is_whitespace space ≡ true
unfolding is_whitespace
space_blank = refl

-- The first loop stops at the string's first character.
erase_front-space :
    (c : ℕ) (cs : List ℕ) → is_whitespace c ≡ false → erase_front (space ∷ c ∷ cs) ≡ c ∷ cs
unfolding erase_front
erase_front-space c cs e =
    let blank : is_whitespace space ≡ true = space_blank in rw (blank, e) refl

-- trimstring of a string between quotes, with a space behind each of its ends, drops the quotes
-- and the first space, and leaves the last one. The string is not empty and is trimmed itself.
pub trimstring_quoted :
    (c : ℕ) (cs : List ℕ)
    → IsTrimmed (c ∷ cs)
    → trimstring (quote ∷ space ∷ (c ∷ cs ++ space ∷ []) ++ quote ∷ []) ≡ c ∷ cs ++ space ∷ []
unfolding trimstring finish erase_quote_front
trimstring_quoted c cs h =
    let ends = spaced_quote cs in
    let stays : erase_back (c ∷ squeeze c ends) ≡ (c ∷ cs ++ space ∷ []) ++ quote ∷ [] =
      ap (λ l. erase_back (c ∷ l)) (squeeze-spaced_quote c cs h.1)
      ∙ erase_back-quote (c ∷ cs ++ space ∷ []) in
    rw (erase_front-space c ends h.0, stays) (erase_quote_back-quote (c ∷ cs ++ space ∷ []))
