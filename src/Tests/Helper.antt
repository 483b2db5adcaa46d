-- ===== src/Tests/Helper.antt =====
-- The containers' theorems at concrete inputs.
use sc_co_si_m.Prelude.{ℕ, ◌≡◌, ◌-◌, ◌^◌, refl, arith, List, [], ◌∷◌}
use sc_co_si_m.Helper.Queue.{empty_queue}
use sc_co_si_m.Helper.Queue.Refine.{
  Op, push_op, pop_op, pop_front_op, front_op, size_op, empty_op, steps, list_steps,
  steps-list_steps, pushes,
}
use sc_co_si_m.Helper.Vector.{new_vector}
use sc_co_si_m.Helper.Vector.Refine as Vector
use sc_co_si_m.Helper.Array.{Array}
use sc_co_si_m.Helper.Text.{is_whitespace, trim, trimstring}
use sc_co_si_m.Helper.Text.Quotes.{quote, space, trimstring_quoted}
use sc_co_si_m.Helper.Text.Laws.{IsTrimmed, words, trim_lem}

abbrev some_ops : List (Op ℕ)
some_ops = push_op 7 ∷ push_op 8 ∷ pop_front_op ∷ size_op ∷ pop_op ∷ empty_op ∷ front_op ∷ []

steps-list_steps_example : steps 0 some_ops (empty_queue 0) ≡ list_steps 0 some_ops []
unfolding pushes
steps-list_steps_example = steps-list_steps 0 some_ops (omega arith)

abbrev vector_changes : List (Vector.Op ℕ)
vector_changes = Vector.pushes 7 ∷ Vector.pushes 8 ∷ Vector.pops ∷ Vector.pushes 9 ∷ []

vector_ops-list_ops_example :
    Vector.Agree (Vector.vector_ops vector_changes new_vector) (Vector.list_ops vector_changes [])
vector_ops-list_ops_example = Vector.vector_ops-list_ops vector_changes (omega arith)

-- A tab, "a", two spaces, "b" and a line feed.
abbrev untidy : List ℕ
untidy = 0x09 ∷ 0x61 ∷ 0x20 ∷ 0x20 ∷ 0x62 ∷ 0x0A ∷ []

trim_lem_example :
    IsTrimmed (trim untidy)
    × (words (trim untidy) ≡ words untidy)
    × (trim (trim untidy) ≡ trim untidy)
trim_lem_example = trim_lem untidy

abbrev some_array : Array ℕ
some_array = record { items = 5 ∷ 6 ∷ 7 ∷ []; base = 2 ^ 64 - 1; len = 3 }

trimstring_quoted_example :
    trimstring (quote ∷ space ∷ 0x61 ∷ 0x62 ∷ space ∷ quote ∷ []) ≡ 0x61 ∷ 0x62 ∷ space ∷ []
unfolding is_whitespace
trimstring_quoted_example = trimstring_quoted 0x61 (0x62 ∷ []) (refl, (refl, refl))
