-- ===== src/Board/Memory.antt =====
-- `mem_bus_chn` of mem_bus_if.h: a memory on the bus, of the addresses from m_start_addr to
-- m_end_addr. An access outside of the memory, which is undefined in C++, changes nothing here, or
-- gives 0.
pub mod Laws
use sc_co_si_m.Prelude.{ℕ, zero, suc, ◌+◌, ◌-◌, List, [], ◌∷◌, get_or, set, replicate, u32, sub32}

pub record Memory : Type 0 where
  pub mem : List ℕ
  pub start_addr : ℕ
  pub end_addr : ℕ

-- The loop `mem[i] = i`, for `n` words from `i` on.
unfoldable pub number_words : ℕ → ℕ → List ℕ → List ℕ
number_words i zero ws = ws
number_words i (suc n) ws = number_words (suc i) n (set ws i i)

unfoldable pub new_memory : ℕ → ℕ → Memory
unfolding number_words
new_memory start_addr end_addr =
    let size = u32 (sub32 end_addr start_addr + 1) in
    record {
      mem = number_words 0 size (replicate size 0);
      start_addr = start_addr;
      end_addr = end_addr;
    }

unfoldable pub read : Memory → ℕ → ℕ
read m addr = get_or m.mem (sub32 addr m.start_addr) 0

unfoldable pub write : ℕ → ℕ → Memory → Memory
write addr v m = record m { mem = set m.mem (sub32 addr m.start_addr) v }

-- The loops of the bursts, for `n` words from `i` on: of the words that are read, and over the
-- words that are written.
unfoldable pub burst_read : Memory → ℕ → ℕ → ℕ → List ℕ
burst_read m addr i zero = []
burst_read m addr i (suc n) =
    get_or m.mem (u32 (sub32 addr m.start_addr + i)) 0 ∷ burst_read m addr (suc i) n

unfoldable pub burst_write : ℕ → ℕ → List ℕ → Memory → Memory
burst_write addr i [] m = m
burst_write addr i (v ∷ vs) m =
    burst_write addr (suc i) vs (record m { mem = set m.mem (u32 (sub32 addr m.start_addr + i)) v })
