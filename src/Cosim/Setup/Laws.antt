-- ===== src/Cosim/Setup/Laws.antt =====
-- The semaphores as the event loop finds them.
use sc_co_si_m.Prelude.{
  ℕ, zero, suc, ◌-◌, ◌≤◌, ◌≡◌, refl, ap, ◌∙◌, Bool, true, false, some, arith, ◌⊎◌, inl, inr,
}
use sc_co_si_m.Cosim.Setup.{
  Name, sema, semb, made, already_there, Semaphores, Prepared, or_before, drain, empty, prepare,
  prepare_both,
}

abbrev pub other : Name → Name
other sema = semb
other semb = sema

-- What POSIX documents: `value` is a semaphore's value. One that is made has the value 0; opening
-- one changes none; sem_getvalue gives the value; sem_wait lowers it by 1; and none of them touches
-- another semaphore. Nobody else uses the two meanwhile.
pub record IsSemaphores {K : Type 0} (os : Semaphores K) (value : Name → K → ℕ) : Type 0 where
  pub made_empty : (n : Name) (k : K) → (os.create n k).0 ≡ made → value n (os.create n k).1 ≡ 0
  pub found :
      (n : Name) (k : K) → (os.create n k).0 ≡ already_there → value n (os.create n k).1 ≡ value n k
  pub create_other : (n : Name) (k : K) → value (other n) (os.create n k).1 ≡ value (other n) k
  pub bind_keeps : (m n : Name) (k : K) → value m (os.bind n k).1 ≡ value m k
  pub gets : (n : Name) (k : K) → os.getvalue n k ≡ some (value n k)
  pub waits : (n : Name) (k : K) → value n (os.wait n k) ≡ value n k - 1
  pub wait_other : (n : Name) (k : K) → value (other n) (os.wait n k) ≡ value (other n) k

-- The semaphores can be had: each is made, or is there and can be opened.
abbrev pub CanOpen : {K : Type 0} → Semaphores K → Name → K → Type 0
CanOpen os n k =
    let (created, t) = os.create n k in
    (created ≡ made) ⊎ ((created ≡ already_there) × ((os.bind n t).0 ≡ true))

module _ {K : Type 0} (os : Semaphores K) (value : Name → K → ℕ)
    (laws : IsSemaphores os value) where
  -- The semaphore is at 0, the other one as it was.
  abbrev Emptied : Name → K → K → Type 0
  Emptied n k t = (value n t ≡ 0) × (value (other n) t ≡ value (other n) k)

  drain-Emptied :
      (n : Name) (fuel v : ℕ) (k : K)
      → v ≤ fuel
      → value n k ≡ v
      → (t : K) × (drain os n fuel v k ≡ some t) × Emptied n k t
  unfolding drain
  drain-Emptied n fuel zero k h e = (k, refl, (e, refl))
  drain-Emptied n zero (suc v) k h e = absurd (omega arith)
  drain-Emptied n (suc fuel) (suc v) k h e =
      let lower : value n (os.wait n k) ≡ v = omega (arith, laws.waits n k) in
      let (t, ran, (nil, rest)) = drain-Emptied n fuel v (os.wait n k) (omega arith) lower in
      (
        t,
        ap (λ x. drain os n fuel (or_before x (suc v)) (os.wait n k))
              (laws.gets n (os.wait n k) ∙ ap some lower)
            ∙ ran,
        (nil, rest ∙ laws.wait_other n k),
      )

  empty-Emptied :
      (n : Name) (fuel : ℕ) (stopped : Bool) (k : K)
      → value n k ≤ fuel
      → (t : K) × (empty os n fuel stopped k ≡ some (record { system = t; stopped = stopped }))
        × Emptied n k t
  unfolding empty
  empty-Emptied n fuel stopped k h =
      let (t, ran, rest) = drain-Emptied n fuel (value n k) k h refl in
      (t, rw (empty, laws.gets n k, ran) refl, rest)

  prepare-Emptied :
      (n : Name) (fuel : ℕ) (s : Prepared K)
      → CanOpen os n s.system
      → value n s.system ≤ fuel
      → (t : K) × (prepare os n fuel s ≡ some (record { system = t; stopped = s.stopped }))
        × Emptied n s.system t
  unfolding prepare
  prepare-Emptied n fuel s can h = elim can [
    | inl e ↦ (
      (os.create n s.system).1,
      rw (prepare, e) refl,
      (laws.made_empty n s.system e, laws.create_other n s.system),
    )
    | inr (e, b) ↦
        let k = (os.create n s.system).1 in
        let u = (os.bind n k).1 in
        let same : value n u ≡ value n s.system = laws.bind_keeps n n k ∙ laws.found n s.system e in
        let (t, ran, (nil, rest)) = empty-Emptied n fuel s.stopped u (omega (arith, same)) in
        (
          t,
          rw (prepare, e, b) ran,
          (nil, rest ∙ laws.bind_keeps (other n) n k ∙ laws.create_other n s.system),
        )
  ]

  -- Whatever an earlier run has left in the two semaphores, the thread's preparation of them ends,
  -- on fuel of at least their values, with both at 0 and no call of sc_stop. Each semaphore can be
  -- made, or is there and can be opened; and nobody else uses them meanwhile.
  pub prepare_both-empty :
      (fuel : ℕ) (k : K)
      → CanOpen os sema k
      → ((t : K) → CanOpen os semb t)
      → value sema k ≤ fuel
      → value semb k ≤ fuel
      → (t : K) × (prepare_both os fuel k ≡ some (record { system = t; stopped = false }))
        × (value sema t ≡ 0)
        × (value semb t ≡ 0)
  unfolding prepare_both
  prepare_both-empty fuel k first second hi hj =
      let (u, ran, (nil, kept)) =
        prepare-Emptied sema fuel (record { system = k; stopped = false }) first hi in
      let (t, goes, (nil', kept')) =
        prepare-Emptied semb fuel (record { system = u; stopped = false }) (second u)
          (omega (arith, kept)) in
      (t, rw (prepare_both, ran) goes, kept' ∙ nil, nil')
