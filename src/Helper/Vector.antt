-- ===== src/Helper/Vector.antt =====
-- `hsoc_vector` of library/Helper/hsoc_vector.h: a list of elements on the heap, linked both ways.
-- The mutex around each operation is the SystemC library's.
pub mod Laws
pub mod Refine
use sc_co_si_m.Prelude.{
  ℕ, zero, suc, ◌+◌, Bool, true, false, Option, none, some, ◌==◌, if◌then◌else◌, u32, sub32,
}

-- `contained_struct`; a pointer is an address, `none` for NULL.
pub record Element {ℓ} (A : Type ℓ) : Type ℓ where
  pub value : A
  pub pos : ℕ
  pub next : Option ℕ
  pub preview : Option ℕ

-- The vector with the heap that its elements are on: `cell` is what an address holds, and `new`
-- takes the addresses from `fresh` on.
pub record Vector {ℓ} (A : Type ℓ) : Type ℓ where
  pub cell : ℕ → Option (Element A)
  pub fresh : ℕ
  pub m_last_element : Option ℕ
  pub m_element : Option ℕ
  pub m_size : ℕ

module _ {ℓ} {A : Type ℓ} where
  abbrev pub write_cell : ℕ → Option (Element A) → (ℕ → Option (Element A)) → ℕ → Option (Element A)
  write_cell a e c b = if b == a then e else c b

  abbrev pub relink : Option ℕ → Option (Element A) → Option (Element A)
  relink n none = none
  relink n (some e) = some (record e { next = n })

  -- `a->next = n`
  abbrev pub set_next : ℕ → Option ℕ → (ℕ → Option (Element A)) → ℕ → Option (Element A)
  set_next a n c b = if b == a then relink n (c b) else c b

  unfoldable pub new_vector : Vector A
  new_vector = record {
    cell = λ a. none;
    fresh = 0;
    m_last_element = none;
    m_element = none;
    m_size = 0;
  }

  -- The two branches on m_last_element.
  unfoldable pub link : A → Option ℕ → Vector A → Vector A
  link x none v = record {
    cell =
        write_cell v.fresh
          (some (record { value = x; pos = v.m_size; next = none; preview = none })) v.cell;
    fresh = suc v.fresh;
    m_last_element = some v.fresh;
    m_element = some v.fresh;
    m_size = u32 (v.m_size + 1);
  }
  link x (some l) v = record {
    cell =
        write_cell v.fresh
          (some (record { value = x; pos = v.m_size; next = none; preview = some l }))
          (set_next l (some v.fresh) v.cell);
    fresh = suc v.fresh;
    m_last_element = some v.fresh;
    m_element = v.m_element;
    m_size = u32 (v.m_size + 1);
  }

  unfoldable pub push_back : A → Vector A → Vector A
  unfolding link
  push_back x v = link x v.m_last_element v

  -- `none` where the program goes through a null or dangling pointer.
  unfoldable pub preview_of : Option (Element A) → Option ℕ
  preview_of none = none
  preview_of (some e) = e.preview

  unfoldable pub unlink : Option ℕ → Option ℕ → Vector A → Option (Vector A)
  unlink (some l) (some b) v = some (record v {
    cell = write_cell l none (set_next b none v.cell);
    m_last_element = some b;
    m_size = sub32 v.m_size 1;
  })
  unlink l b v = none

  unfoldable pub last_cell : Option ℕ → Vector A → Option (Element A)
  last_cell none v = none
  last_cell (some l) v = v.cell l

  unfoldable pub pop_back : Vector A → Option (Vector A)
  unfolding preview_of unlink last_cell
  pop_back v = elim v.m_element [
    | none ↦ some v
    | some a ↦ unlink v.m_last_element (preview_of (last_cell v.m_last_element v)) v
  ]

  unfoldable pub size : Vector A → ℕ
  size v = v.m_size

  pub empty : Vector A → Bool
  empty v = elim v.m_element [ none ↦ true | some a ↦ false ]

  -- The loop of operator[], on fuel: `some none` is the null pointer; `none` is a loop that is still
  -- looking, or that goes through a dangling pointer.
  unfoldable pub find : ℕ → Vector A → ℕ → Option ℕ → Option (Option A)
  find zero v pos cur = none
  find (suc n) v pos none = some none
  find (suc n) v pos (some a) =
      let rest = find n v pos in
      elim (v.cell a) [
        | none ↦ none
        | some e ↦ if e.pos == pos then some (some e.value) else rest e.next
      ]

  -- What the pointer that operator[] returns points to.
  unfoldable pub at : ℕ → Vector A → ℕ → Option (Option A)
  at fuel v pos = find fuel v pos v.m_element

  -- The loop of clear, on fuel: the elements are freed, and each lowers the size.
  unfoldable pub free : ℕ → Option ℕ → Vector A → Vector A
  free zero cur v = v
  free (suc n) none v = v
  free (suc n) (some a) v =
      let rest = free n in
      elim (v.cell a) [
        | none ↦ v
        | some e ↦
            rest e.next (record v { cell = write_cell a none v.cell; m_size = sub32 v.m_size 1 })
      ]

  unfoldable pub clear : ℕ → Vector A → Vector A
  clear fuel v = record (free fuel v.m_element v) { m_last_element = none; m_element = none }
