-- ===== src/Helper/Queue/Refine.antt =====
-- The queue as its users see it: for any sequence of its operations it answers as a list would.
use sc_co_si_m.Prelude.{
  ℕ, suc, ◌+◌, ◌*◌, ◌<◌, ◌^◌, ◌≡◌, refl, ap, ◌∙◌, arith, Bool, Option, List, [], ◌∷◌, ◌++◌, length,
  ◌==◌,
}
use sc_co_si_m.Helper.Queue.{Queue, empty_queue, push, pop, pop_front, front, size, empty}
use sc_co_si_m.Helper.Queue.Laws.{
  IsQueue, contents, contents_empty, uncons, push-contents, front-contents, pop_front-contents,
  pop_lem, size-contents,
}

pub data Op {ℓ} (A : Type ℓ) : Type ℓ where
  push_op : A → Op A
  pop_op pop_front_op front_op size_op empty_op : Op A

-- What an operation answers.
pub data Answer {ℓ} (A : Type ℓ) : Type ℓ where
  nothing : Answer A
  item : Option A → Answer A
  count : ℕ → Answer A
  flag : Bool → Answer A

module _ {ℓ} {A : Type ℓ} (blank : A) where
  pub step : Op A → Queue A → Answer A × Queue A
  step (push_op x) q = (nothing, push blank x q)
  step pop_op q = (nothing, pop blank q)
  step pop_front_op q = let (x, r) = pop_front blank q in (item x, r)
  step front_op q = (item (front blank q), q)
  step size_op q = (count (size blank q), q)
  step empty_op q = (flag (empty blank q), q)

  pub steps : List (Op A) → Queue A → List (Answer A)
  steps [] q = []
  steps (o ∷ os) q = let (a, r) = step o q in a ∷ steps os r

  -- The same on a list.
  pub list_step : Op A → List A → Answer A × List A
  list_step (push_op x) l = (nothing, l ++ x ∷ [])
  list_step pop_op l = (nothing, (uncons blank l).1)
  list_step pop_front_op l = let (x, r) = uncons blank l in (item x, r)
  list_step front_op l = (item (uncons blank l).0, l)
  list_step size_op l = (count (length l), l)
  list_step empty_op l = (flag (length l == 0), l)

  pub list_steps : List (Op A) → List A → List (Answer A)
  list_steps [] l = []
  list_steps (o ∷ os) l = let (a, r) = list_step o l in a ∷ list_steps os r

  unfoldable pub pushes : List (Op A) → ℕ
  pushes [] = 0
  pushes (push_op x ∷ os) = suc (pushes os)
  pushes (_ ∷ os) = pushes os

  abbrev Room : ℕ → Queue A → Type 0
  Room n q = q.q_size + 10 * n < 2 ^ 32

  empty-contents : (q : Queue A) → IsQueue q → empty blank q ≡ (length (contents blank q) == 0)
  unfolding empty size
  empty-contents q h = ground (arith, h, size-contents blank q h)

  steps-refine_from :
      (os : List (Op A)) (q : Queue A)
      → IsQueue q
      → Room (pushes os) q
      → steps os q ≡ list_steps os (contents blank q)
  unfolding steps list_steps step list_step pushes
  steps-refine_from [] q h room = refl
  steps-refine_from (push_op x ∷ os) q h room =
      let (ok, more, grown) = push-contents blank x q h (omega arith) in
      let rest = steps-refine_from os (push blank x q) ok (omega arith) in cc (rest, more)
  steps-refine_from (pop_op ∷ os) q h room =
      let (ok, e, same) = pop_front-contents blank q h in
      let rest = steps-refine_from os (pop_front blank q).1 ok (omega arith) in
      rw (pop_lem blank q, rest) (ap (λ u. nothing ∷ list_steps os u.1) e)
  steps-refine_from (pop_front_op ∷ os) q h room =
      let (ok, e, same) = pop_front-contents blank q h in
      let rest = steps-refine_from os (pop_front blank q).1 ok (omega arith) in
      rw rest (ap (λ u. item u.0 ∷ list_steps os u.1) e)
  steps-refine_from (front_op ∷ os) q h room =
      cc (front-contents blank q, steps-refine_from os q h room)
  steps-refine_from (size_op ∷ os) q h room =
      cc (size-contents blank q h, steps-refine_from os q h room)
  steps-refine_from (empty_op ∷ os) q h room =
      cc (empty-contents q h, steps-refine_from os q h room)

  -- From an empty queue, any sequence of its operations, with fewer than 2^32 / 10 pushes among
  -- them, answers as the same operations do on a list, first in, first out: the wrap-around of
  -- indices and size, the moves to larger arrays and the reset of an emptied queue do not show.
  pub steps-list_steps :
      (os : List (Op A)) → 10 * pushes os < 2 ^ 32 → steps os (empty_queue blank) ≡ list_steps os []
  unfolding empty_queue
  steps-list_steps os few =
      let q = empty_queue blank in
      let fresh : IsQueue q = record {
        head_tail = omega arith;
        tail_size = omega arith;
        has_size = refl;
        word = omega arith;
      } in
      steps-refine_from os q fresh (omega arith)
      ∙ ap (list_steps os) (contents_empty blank q (omega arith))
