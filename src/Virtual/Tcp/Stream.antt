-- ===== src/Virtual/Tcp/Stream.antt =====
-- The loop that collects a packet from the pieces in which a TCP connection brings it: in send_data
-- of sc_kernel_mode_tcp.h, and in the TCP server of async_sc_cosim_int.cpp.
use mathlib.Core.List.{append-nil, append_assoc}
use sc_co_si_m.Prelude.{
  ℕ, zero, suc, ◌≡◌, ◌≢◌, refl, sym, ap, ◌∙◌, false, arith, List, [], ◌∷◌, ◌++◌, length,
  length-append, All, Bool-cases, inl, inr, ◌==◌, if◌then◌else◌,
}

-- What is in the buffer when the loop ends: when the connection is closed, or `size` bytes are there.
unfoldable pub collect : ℕ → List ℕ → List (List ℕ) → List ℕ
collect size got [] = got
collect size got (piece ∷ pieces) =
    let rest = collect size (got ++ piece) pieces in
    if length piece == 0 then got else if length (got ++ piece) == size then got ++ piece else rest

abbrev pub drop : {A : Type 0} → ℕ → List A → List A
drop zero xs = xs
drop (suc n) [] = []
drop (suc n) (x ∷ xs) = drop n xs

abbrev pub take : {A : Type 0} → ℕ → List A → List A
take zero xs = []
take (suc n) [] = []
take (suc n) (x ∷ xs) = x ∷ take n xs

-- memcpy of the bytes received onto the structure.
abbrev pub overlay : List ℕ → List ℕ → List ℕ
overlay got old = got ++ drop (length got) old

abbrev pub concat : List (List ℕ) → List ℕ
concat [] = []
concat (piece ∷ pieces) = piece ++ concat pieces

no_items : (xs : List ℕ) → length xs ≡ 0 → xs ≡ []
no_items [] e = refl
no_items (x ∷ xs) e = absurd (omega arith)

drop_all : (n : ℕ) (xs : List ℕ) → length xs ≡ n → drop n xs ≡ []
drop_all zero xs e = no_items xs e
drop_all (suc n) [] e = refl
drop_all (suc n) (x ∷ xs) e = drop_all n xs (omega arith)

abbrev pub IsPiece : List ℕ → Type 0
IsPiece piece = length piece ≢ 0

not_empty : (piece : List ℕ) → IsPiece piece → (length piece == 0) ≡ false
not_empty piece h = ground arith

nothing_left :
    (got piece rest : List ℕ) → length (got ++ (piece ++ rest)) ≡ length (got ++ piece) → rest ≡ []
nothing_left got piece rest e = no_items rest (
    omega (
      arith,
      e,
      length-append got (piece ++ rest),
      length-append piece rest,
      length-append got piece,
    ))

-- However a message of `size` bytes is split into pieces, the loop collects it.
pub collect-concat :
    (size : ℕ) (got : List ℕ) (pieces : List (List ℕ))
    → All IsPiece pieces
    → length (got ++ concat pieces) ≡ size
    → collect size got pieces ≡ got ++ concat pieces
unfolding collect
collect-concat size got [] h e = sym (append-nil got)
collect-concat size got (piece ∷ pieces) h e = elim (Bool-cases (length (got ++ piece) == size)) [
  | inl full ↦
      rw
        (
          not_empty piece h.0,
          full,
          nothing_left got piece (concat pieces) (e ∙ sym (ground (arith, full))),
          append-nil piece,
        )
        refl
  | inr more ↦
      rw (not_empty piece h.0, more)
        (collect-concat size (got ++ piece) pieces h.1
            (ap length (append_assoc got piece (concat pieces)) ∙ e)
          ∙ append_assoc got piece (concat pieces))
]

-- The structure that a message of its size is copied onto is that message.
pub overlay_all : (got old : List ℕ) → length got ≡ length old → overlay got old ≡ got
overlay_all got old e = rw (drop_all (length got) old (sym e)) (append-nil got)

pub take_all : {A : Type 0} (n : ℕ) (xs : List A) → length xs ≡ n → take n xs ≡ xs
take_all zero [] e = refl
take_all zero (x ∷ xs) e = absurd (omega arith)
take_all (suc n) [] e = refl
take_all (suc n) (x ∷ xs) e = ap (λ r. x ∷ r) (take_all n xs (omega arith))
