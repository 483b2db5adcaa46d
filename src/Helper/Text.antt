-- ===== src/Helper/Text.antt =====
-- The strings of library/Helper/helper.cpp: isWhitespace, trim, strim and trimstring. A string is
-- the list of its character codes; reading at 0 in an empty string gives the code 0.
pub mod Laws
pub mod Quotes
use sc_co_si_m.Prelude.{ℕ, Bool, true, false, ◌&&◌, ◌||◌, ◌==◌, List, [], ◌∷◌, if◌then◌else◌}

unfoldable pub is_whitespace : ℕ → Bool
is_whitespace c = c == 0x20 || c == 0x09 || c == 0x0D || c == 0x0A

abbrev pub is_quote : ℕ → Bool
is_quote c = c == 0x22

-- The loop that erases the first character.
unfoldable pub erase_front : List ℕ → List ℕ
erase_front [] = []
erase_front (c ∷ cs) = let rest = erase_front cs in if is_whitespace c then rest else c ∷ cs

-- The loop of the iterator, from the character before it.
unfoldable pub squeeze : ℕ → List ℕ → List ℕ
squeeze before [] = []
squeeze before (c ∷ cs) =
    let erased = squeeze before cs in
    let kept = c ∷ squeeze c cs in if is_whitespace before && is_whitespace c then erased else kept

abbrev pub is_empty : List ℕ → Bool
is_empty [] = true
is_empty (c ∷ cs) = false

-- The loop that erases the last character: a character goes when all behind it has gone.
unfoldable pub erase_back : List ℕ → List ℕ
erase_back [] = []
erase_back (c ∷ cs) =
    let rest = erase_back cs in if is_empty rest && is_whitespace c then [] else c ∷ rest

-- What follows the first loop; an empty string is returned as it is.
unfoldable pub finish : List ℕ → List ℕ
finish [] = []
finish (c ∷ cs) = erase_back (c ∷ squeeze c cs)

unfoldable pub trim : List ℕ → List ℕ
unfolding finish
trim s = finish (erase_front s)

-- The string that the reference then refers to.
pub strim : List ℕ → List ℕ
strim s = finish (erase_front s)

unfoldable pub erase_quote_front : List ℕ → List ℕ
erase_quote_front [] = []
erase_quote_front (c ∷ cs) = if is_quote c then cs else c ∷ cs

unfoldable pub erase_quote_back : List ℕ → List ℕ
erase_quote_back [] = []
erase_quote_back (c ∷ []) = if is_quote c then [] else c ∷ []
erase_quote_back (c ∷ d ∷ ds) = c ∷ erase_quote_back (d ∷ ds)

unfoldable pub trimstring : List ℕ → List ℕ
trimstring s = erase_quote_back (finish (erase_front (erase_quote_front s)))
