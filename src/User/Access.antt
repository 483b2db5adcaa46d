-- ===== src/User/Access.antt =====
-- accessBram and accessBramFW: access to the BRAMs.
use sc_co_si_m.Prelude.{ℕ, Bool, ◌||◌, ltb, leb, ◌==◌, if◌then◌else◌}
use sc_co_si_m.Driver.Machine.{M, return, stop, ◌>>=◌}
use sc_co_si_m.User.Kernel.{Kernel, or_exit}

-- The test that a port, a BRAM or a result is refused by.
abbrev pub no_port : ℕ → Bool
no_port n = leb n 0 || ltb 4 n

module _ {S : Type 0} (kernel : Kernel S) where
  -- `word` is what `data` points to; the result is what it points to in the end.
  unfoldable pub access_bram : ℕ → ℕ → ℕ → ℕ → M S ℕ
  access_bram op_code bram_no addr_reg word =
      if no_port bram_no then stop else if ltb 1 op_code then stop else (do
        r ← or_exit (
            kernel.ioctl_direct_access_bram (record {
              op_code = op_code;
              bram_no = bram_no;
              addr = addr_reg;
              word = if op_code == 1 then 0 else word;
            }))
        return (if op_code == 1 then r.word else word))

  unfoldable pub access_bram_fw : ℕ → ℕ → ℕ → ℕ → ℕ → M S ℕ
  access_bram_fw op_code inport outport addr_reg word =
      if no_port inport
      then stop
      else if no_port outport
      then stop
      else if ltb 1 op_code
      then stop
      else (do
        r ← or_exit (
            kernel.ioctl_access_bram (record {
              op_code = op_code;
              input_port = inport;
              output_port = outport;
              addr = addr_reg;
              word = if op_code == 1 then 0 else word;
            }))
        return (if op_code == 1 then r.word else word))
