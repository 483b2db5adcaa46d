-- ===== src/Driver/Bram.antt =====
-- `accessBram` of kernel_mode.c: direct access to a BRAM, past the firewall.
pub mod Laws
use sc_co_si_m.Prelude.{ℕ, Bool, true, Option, none, some, ◌&&◌, ◌||◌, not, ◌==◌, if◌then◌else◌}
use sc_co_si_m.Driver.Machine.{Device, M, return, stop, load, store, ◌>>=◌, ◌>>◌}
use sc_co_si_m.Driver.Map.{direct_base, word_at}

-- `struct direct_access_ds`
pub record DirectAccessDs : Type 0 where
  pub op_code : ℕ
  pub bram_no : ℕ
  pub addr : ℕ
  pub word : ℕ

-- The result: 0, and -1 for a BRAM that there is not.
pub data Code : Type 0 where
  success no_bram : Code

module _ {S : Type 0} (d : Device S) (gid : ℕ) where
  -- `BUG_ON` stops the task if its condition holds.
  unfoldable pub bug_on : Bool → M S (Unit {0})
  bug_on condition = if condition then stop else return tt

  unfoldable pub guard_direct : ℕ → M S (Unit {0})
  unfolding bug_on
  guard_direct op_code =
      if not (gid == 0) && (op_code == 0 || op_code == 1)
      then bug_on (not (gid == 0) && op_code == 0)
      else return tt

  -- FW_KERN_LOGS is defined, so a write is read back, for the log only.
  unfoldable pub at_bram : DirectAccessDs → Option ℕ → M S (Code × DirectAccessDs)
  at_bram r none = return (no_bram, r)
  at_bram r (some base) =
      if r.op_code == 0
      then (do
        store d r.word (word_at base r.addr)
        check ← load d (word_at base r.addr)
        return (success, r))
      else (do v ← load d (word_at base r.addr); return (success, record r { word = v }))

  unfoldable pub access_bram : DirectAccessDs → M S (Code × DirectAccessDs)
  unfolding guard_direct at_bram
  access_bram r = do guard_direct r.op_code; at_bram r (direct_base r.bram_no)
