-- ===== src/Cosim/Setup.antt =====
-- How async_os_thread sets up its two semaphores, the same over POSIX and over System V shared
-- memory. sc_stop only asks the simulation to end, so the thread goes on after it.
pub mod Laws
use sc_co_si_m.Prelude.{ℕ, zero, suc, Bool, true, false, Option, none, some, ◌==◌, if◌then◌else◌}

-- sharedsemA and sharedsemB
pub data Name : Type 0 where
  sema semb : Name

-- The outcome of sem_open with O_CREAT and O_EXCL.
pub data Created : Type 0 where
  made already_there failed : Created

-- The operating system's semaphores are no part of the program. `create` is the first call of
-- sem_open, `bind` the second, with whether it succeeds; `getvalue` is sem_getvalue, `none` where it
-- fails; and `wait` is sem_wait on a semaphore above 0.
pub record Semaphores (K : Type 0) : Type 0 where
  pub create : Name → K → Created × K
  pub bind : Name → K → Bool × K
  pub getvalue : Name → K → Option ℕ
  pub wait : Name → K → K

-- What the thread has made of the system, and whether it has called sc_stop.
pub record Prepared (K : Type 0) : Type 0 where
  pub system : K
  pub stopped : Bool

abbrev pub or_before : Option ℕ → ℕ → ℕ
or_before none before = before
or_before (some v) before = v

module _ {K : Type 0} (os : Semaphores K) (n : Name) where
  -- `while (sem_value > 0)`, on fuel; `none` while it still runs.
  unfoldable pub drain : ℕ → ℕ → K → Option K
  drain fuel zero k = some k
  drain zero (suc v) k = none
  drain (suc fuel) (suc v) k =
      let t = os.wait n k in drain fuel (or_before (os.getvalue n t) (suc v)) t

  -- What is done with a semaphore that was there, also after it could not be opened, where the calls
  -- are undefined in C.
  unfoldable pub empty : ℕ → Bool → K → Option (Prepared K)
  empty fuel stopped k = elim (os.getvalue n k) [
    | none ↦ some (record { system = k; stopped = true })
    | some v ↦ elim (drain fuel v k) [
      | none ↦ none
      | some t ↦ some (record { system = t; stopped = stopped })
    ]
  ]

  unfoldable pub prepare : ℕ → Prepared K → Option (Prepared K)
  unfolding empty
  prepare fuel s =
      let (created, k) = os.create n s.system in
      let (bound, t) = os.bind n k in
      elim created [
        | made ↦ some (record s { system = k })
        | already_there ↦ if bound then empty fuel s.stopped t else empty fuel true t
        | failed ↦ some (record { system = k; stopped = true })
      ]

-- Both, in the order of the calls, over POSIX shared memory. What follows is the event loop, stopped
-- or not.
unfoldable pub prepare_both : {K : Type 0} → Semaphores K → ℕ → K → Option (Prepared K)
prepare_both os fuel k = elim (prepare os sema fuel (record { system = k; stopped = false })) [
  | none ↦ none
  | some s ↦ prepare os semb fuel s
]

-- Over System V shared memory the code is the same.
abbrev pub prepare_shm : {K : Type 0} → Semaphores K → ℕ → K → Option (Prepared K)
prepare_shm = prepare_both
