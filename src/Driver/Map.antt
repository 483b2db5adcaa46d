-- ===== src/Driver/Map.antt =====
-- The addresses of init_modules.h and the registers of kernel_mode.c. A pointer that ioremap
-- returned is taken for the physical address that it maps, and `+ n` on it for 4 * n bytes, on the
-- 32-bit ARM of the board.
use sc_co_si_m.Prelude.{ℕ, ◌+◌, ◌*◌, Option, none, some, ◌==◌, if◌then◌else◌, u32, sub32}

abbrev pub bram1_direct : ℕ
bram1_direct = 0x40000000

abbrev pub bram2_direct : ℕ
bram2_direct = 0x40001000

abbrev pub bram3_direct : ℕ
bram3_direct = 0x40002000

abbrev pub bram4_direct : ℕ
bram4_direct = 0x40003000

abbrev pub fw_setup : ℕ
fw_setup = 0x50000000

abbrev pub bram1 : ℕ
bram1 = 0x80000000

abbrev pub bram2 : ℕ
bram2 = 0x80001000

abbrev pub bram3 : ℕ
bram3 = 0x80002000

abbrev pub bram4 : ℕ
bram4 = 0x80003000

-- `pointer + n`
abbrev pub word_at : ℕ → ℕ → ℕ
word_at base n = u32 (base + 4 * n)

abbrev pub starting_lower_reg : ℕ
starting_lower_reg = 5

abbrev pub starting_high_reg : ℕ
starting_high_reg = 13

abbrev pub starting_rule_reg : ℕ
starting_rule_reg = 21

-- noc_setup_registers + starting + ((inport - 1) * offset)
unfoldable pub setup_reg : ℕ → ℕ → ℕ
setup_reg starting inport = word_at (word_at fw_setup starting) (u32 (sub32 inport 1 * 2))

-- The base that a `switch` on a port number finds; `none` where it has no case.
unfoldable pub access_base : ℕ → Option ℕ
access_base port =
    if port == 1
    then some bram1
    else if port == 2
    then some bram2
    else if port == 3
    then some bram3
    else if port == 4
    then some bram4
    else none

unfoldable pub direct_base : ℕ → Option ℕ
direct_base bram_no =
    if bram_no == 1
    then some bram1_direct
    else if bram_no == 2
    then some bram2_direct
    else if bram_no == 3
    then some bram3_direct
    else if bram_no == 4
    then some bram4_direct
    else none
