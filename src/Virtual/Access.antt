-- ===== src/Virtual/Access.antt =====
-- What the functions of a virtual driver call: its own sc_iowrite32, sc_ioread32 and
-- init_virtual_kernel. `bug` ends the process: it calls exit(-1), or follows a null pointer.
use sc_co_si_m.Prelude.{ℕ}
use sc_co_si_m.Driver.Machine.{M}

pub record Access (C : Type 0) : Type 0 where
  pub sc_iowrite32 : ℕ → ℕ → M C (Unit {0})
  pub sc_ioread32 : ℕ → M C ℕ
  pub init_virtual_kernel : M C (Unit {0})
  -- id_counter = 1
  pub restart_ids : M C (Unit {0})

-- The value that sc_iowrite32 takes for the command to end the simulation.
abbrev pub exit_word : ℕ
exit_word = 0x80000000
