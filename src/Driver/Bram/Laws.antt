-- ===== src/Driver/Bram/Laws.antt =====
-- Who can reach a BRAM directly, and that it holds what was written.
use sc_co_si_m.Prelude.{ℕ, ◌≡◌, ◌≢◌, some, arith}
use sc_co_si_m.Driver.Machine.{Device, IsStorage, done, bug}
use sc_co_si_m.Driver.Map.{direct_base, word_at}
use sc_co_si_m.Driver.Bram.{DirectAccessDs, success, access_bram}

module _ {S : Type 0} (d : Device S) where
  -- A direct write by a user other than root stops the task and leaves the device alone.
  pub access_bram-write_refused :
      (gid : ℕ) (r : DirectAccessDs) (s : S)
      → gid ≢ 0
      → r.op_code ≡ 0
      → access_bram d gid r s ≡ bug s
  unfolding access_bram
  access_bram-write_refused gid r s g op = ground arith

  -- A direct read is not refused to any user: it does the same as for root.
  pub access_bram-read_any_user :
      (gid : ℕ) (r : DirectAccessDs) (s : S)
      → r.op_code ≢ 0
      → access_bram d gid r s ≡ access_bram d 0 r s
  unfolding access_bram
  access_bram-read_any_user gid r s op = ground arith

  -- What root writes to a word of a BRAM that is storage, any user then reads there, with any
  -- operation code other than 0.
  pub access_bram-round_trip :
      (A : ℕ → Type 0) (gid op base : ℕ) (r : DirectAccessDs) (s : S)
      → IsStorage d A
      → direct_base r.bram_no ≡ some base
      → A (word_at base r.addr)
      → r.op_code ≡ 0
      → op ≢ 0
      → let t = d.iowrite32 r.word (word_at base r.addr) s in
        (access_bram d 0 r s ≡ done (success, r) t)
        × (access_bram d gid (record r { op_code = op; word = 0 }) t
            ≡ done (success, record r { op_code = op }) t)
  unfolding access_bram
  access_bram-round_trip A gid op base r s st at inside w n =
      let a = word_at base r.addr in
      let t = d.iowrite32 r.word a s in
      (
        ground (arith, st.read_pure a t inside),
        ground (arith, st.read_pure a t inside, st.read_written a r.word s inside),
      )
