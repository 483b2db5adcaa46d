-- ===== src/Helper/Queue.antt =====
-- `hsoc_queue` of library/Helper/hsoc_queue.h: a queue in an array between two indices, which a push
-- on a full array replaces by a larger one. The mutex around each operation is the SystemC library's.
pub mod Laws
pub mod Refine
use sc_co_si_m.Prelude.{
  ℕ, zero, suc, ◌+◌, ◌-◌, Bool, Option, none, some, List, [], get_or, set, replicate, length, ltb,
  leb, ◌==◌, if◌then◌else◌, u32, sub32,
}

-- `data` points to an array of q_size items; the indices are `unsigned int`.
pub record Queue {ℓ} (A : Type ℓ) : Type ℓ where
  pub items : List A
  pub head : ℕ
  pub tail : ℕ
  pub q_size : ℕ

-- `blank` is what `new T [n]` leaves in an item. A write past the end of an array, which is undefined
-- in C++, changes nothing here, and a read there gives `blank`.
module _ {ℓ} {A : Type ℓ} (blank : A) where
  -- The loop of change_array_size: `n` items from `i` on go to `j` and on.
  pub copy : List A → ℕ → ℕ → ℕ → List A → List A
  copy src i j zero dst = dst
  copy src i j (suc n) dst = copy src (suc i) (suc j) n (set dst j (get_or src i blank))

  pub change_array_size : ℕ → Queue A → Queue A
  change_array_size newsize q = record {
    items = copy q.items q.head 0 (q.tail - q.head) (replicate newsize blank);
    head = 0;
    tail = q.tail - q.head;
    q_size = newsize;
  }

  -- The two constructors.
  pub empty_queue : Queue A
  empty_queue = record { items = []; head = 0; tail = 0; q_size = 0 }

  pub sized_queue : ℕ → Queue A
  sized_queue n = record { items = replicate n blank; head = 0; tail = 0; q_size = u32 n }

  store_tail : A → Queue A → Queue A
  store_tail x q = record q { items = set q.items q.tail x; tail = u32 (q.tail + 1) }

  pub push : A → Queue A → Queue A
  unfolding store_tail
  push x q =
      if leb q.q_size q.tail
      then store_tail x (change_array_size (u32 (q.q_size + 10)) q)
      else store_tail x q

  pub pop : Queue A → Queue A
  pop q =
      if ltb q.head q.tail
      then (if q.head + 1 == q.tail
          then record q { head = 0; tail = 0 }
          else record q { head = q.head + 1 })
      else q

  pub size : Queue A → ℕ
  size q = sub32 q.tail q.head

  pub empty : Queue A → Bool
  empty q = q.tail == q.head

  -- What the returned pointer points to; none for the null pointer.
  pub front : Queue A → Option A
  front q = if ltb q.head q.tail then some (get_or q.items q.head blank) else none

  pub pop_front : Queue A → Option A × Queue A
  pop_front q =
      if ltb q.head q.tail
      then (if q.head + 1 == q.tail
          then (some (get_or q.items q.head blank), record q { head = 0; tail = 0 })
          else (some (get_or q.items q.head blank), record q { head = q.head + 1 }))
      else (none, q)

  -- operator []: a position from the tail on is reported, and read all the same.
  pub at : Queue A → ℕ → A
  at q position = get_or q.items (position + q.head) blank
