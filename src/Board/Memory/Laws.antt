-- ===== src/Board/Memory/Laws.antt =====
-- A memory holds what was last written to each of its addresses.
use sc_co_si_m.Prelude.{
  ℕ, zero, suc, ◌+◌, ◌-◌, ◌^◌, ◌≤◌, ◌<◌, ◌≡◌, ◌≢◌, refl, ap, ◌∙◌, List, [], ◌∷◌, get_or, set,
  length, length-set, length-replicate, get_or-set_self, get_or-set_ne, arith, sub32, u32,
  replicate,
}
use sc_co_si_m.Board.Memory.{Memory, number_words, new_memory, read, write, burst_read, burst_write}

-- The memory has a word for each of its addresses.
pub record IsMemory (m : Memory) : Type 0 where
  pub in_order : m.start_addr ≤ m.end_addr
  pub word : m.end_addr < 2 ^ 32
  pub size_fits : m.end_addr - m.start_addr < 2 ^ 32 - 1
  pub full : length m.mem ≡ suc (m.end_addr - m.start_addr)

abbrev pub IsIn : Memory → ℕ → Type 0
IsIn m a = (m.start_addr ≤ a) × (a ≤ m.end_addr)

offset_of :
    (m : Memory) (a : ℕ)
    → IsMemory m
    → IsIn m a
    → (sub32 a m.start_addr ≡ a - m.start_addr) × (a - m.start_addr < length m.mem)
offset_of m a h i = let last = h.word in let size = h.full in omega arith

pub write-IsMemory : (a v : ℕ) (m : Memory) → IsMemory m → IsMemory (write a v m)
unfolding write
write-IsMemory a v m h = record {
  in_order = h.in_order;
  word = h.word;
  size_fits = h.size_fits;
  full = length-set m.mem (sub32 a m.start_addr) v ∙ h.full;
}

pub read-write : (a v : ℕ) (m : Memory) → IsMemory m → IsIn m a → read (write a v m) a ≡ v
unfolding read write
read-write a v m h i =
    let (same, fits) = offset_of m a h i in
    get_or-set_self m.mem (sub32 a m.start_addr) v 0 (rw same fits)

pub read-write_ne :
    (a b v : ℕ) (m : Memory)
    → IsMemory m
    → IsIn m a
    → IsIn m b
    → a ≢ b
    → read (write b v m) a ≡ read m a
unfolding read write
read-write_ne a b v m h i j n =
    let (at_a, _) = offset_of m a h i in
    let (at_b, _) = offset_of m b h j in
    get_or-set_ne m.mem v 0 (λ e. n (
      let same : b - m.start_addr ≡ a - m.start_addr = cc (at_a, at_b, e) in
      omega (arith, i.0, j.0)))

length-number_words : (i n : ℕ) (ws : List ℕ) → length (number_words i n ws) ≡ length ws
unfolding number_words
length-number_words i zero ws = refl
length-number_words i (suc n) ws = length-number_words (suc i) n (set ws i i) ∙ length-set ws i i

pub new_memory-IsMemory :
    (start_addr end_addr : ℕ)
    → start_addr ≤ end_addr
    → end_addr - start_addr < 2 ^ 32 - 1
    → end_addr < 2 ^ 32
    → IsMemory (new_memory start_addr end_addr)
unfolding new_memory
new_memory-IsMemory s e le size h = record {
  in_order = le;
  word = h;
  size_fits = size;
  full =
      length-number_words 0 (u32 (sub32 e s + 1)) (replicate (u32 (sub32 e s + 1)) 0)
      ∙ length-replicate (u32 (sub32 e s + 1)) 0
      ∙ omega arith;
}

-- Every word of a new memory is its own index.
number_words-below :
    (i n k : ℕ) (ws : List ℕ) → k < i → get_or (number_words i n ws) k 0 ≡ get_or ws k 0
unfolding number_words
number_words-below i zero k ws h = refl
number_words-below i (suc n) k ws h =
    number_words-below (suc i) n k (set ws i i) (omega arith) ∙ get_or-set_ne ws i 0 (omega arith)

-- A burst leaves what stands before it, and what is written is then read.
burst_write-below :
    (addr i k : ℕ) (vs : List ℕ) (m : Memory)
    → k < sub32 addr m.start_addr + i
    → sub32 addr m.start_addr + i + length vs < 2 ^ 32
    → get_or (burst_write addr i vs m).mem k 0 ≡ get_or m.mem k 0
unfolding burst_write
burst_write-below addr i k [] m h l = refl
burst_write-below addr i k (v ∷ vs) m h l =
    burst_write-below addr (suc i) k vs
      (record m { mem = set m.mem (u32 (sub32 addr m.start_addr + i)) v }) (omega arith)
      (omega arith)
    ∙ get_or-set_ne m.mem v 0 (omega arith)

start-burst_write :
    (addr i : ℕ) (vs : List ℕ) (m : Memory) → (burst_write addr i vs m).start_addr ≡ m.start_addr
unfolding burst_write
start-burst_write addr i [] m = refl
start-burst_write addr i (v ∷ vs) m = start-burst_write addr (suc i) vs _

burst_from :
    (addr i : ℕ) (vs : List ℕ) (m : Memory)
    → sub32 addr m.start_addr + i + length vs ≤ length m.mem
    → length m.mem < 2 ^ 32
    → burst_read (burst_write addr i vs m) addr i (length vs) ≡ vs
unfolding burst_read burst_write
burst_from addr i [] m h l = refl
burst_from addr i (v ∷ vs) m h l =
    let k = sub32 addr m.start_addr + i in
    let m' = record m { mem = set m.mem (u32 k) v } in
    let same : u32 k ≡ k = omega arith in
    let kept = length-set m.mem (u32 k) v in
    let here : get_or (burst_write addr (suc i) vs m').mem (u32 k) 0 ≡ v =
      burst_write-below addr (suc i) (u32 k) vs m' (omega arith) (omega arith)
      ∙ get_or-set_self m.mem (u32 k) v 0 (omega arith) in
    rw (start-burst_write addr (suc i) vs m', here)
      (ap (λ l. v ∷ l) (burst_from addr (suc i) vs m' (omega (arith, kept)) (omega (arith, kept))))

-- A burst that ends within the memory is read back as it was written.
pub burst_read-burst_write :
    (addr : ℕ) (vs : List ℕ) (m : Memory)
    → IsMemory m
    → m.start_addr ≤ addr
    → addr + length vs ≤ suc m.end_addr
    → burst_read (burst_write addr 0 vs m) addr 0 (length vs) ≡ vs
burst_read-burst_write addr vs m h lo hi =
    let last = h.word in
    let size = h.full in
    let le = h.in_order in
    let fits = h.size_fits in burst_from addr 0 vs m (omega arith) (omega arith)
