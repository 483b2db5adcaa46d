-- ===== src/Tests/Setup.antt =====
-- Two semaphores that are left over from an earlier run.
use sc_co_si_m.Prelude.{ℕ, ◌-◌, ◌≡◌, refl, true, false, some, inr, arith}
use sc_co_si_m.Cosim.Setup.{Name, sema, semb, already_there, Semaphores, prepare_both}
use sc_co_si_m.Cosim.Setup.Laws.{other, IsSemaphores, prepare_both-empty}

abbrev lower : Name → (Name → ℕ) → Name → ℕ
lower sema k sema = k sema - 1
lower semb k semb = k semb - 1
lower m k n = k n

abbrev left_over : Semaphores (Name → ℕ)
left_over = record {
  create = λ n k. (already_there, k);
  bind = λ n k. (true, k);
  getvalue = λ n k. some (k n);
  wait = lower;
}

abbrev value_of : Name → (Name → ℕ) → ℕ
value_of n k = k n

lowered : (n : Name) (k : Name → ℕ) → lower n k n ≡ k n - 1
lowered sema k = refl
lowered semb k = refl

spared : (n : Name) (k : Name → ℕ) → lower n k (other n) ≡ k (other n)
spared sema k = refl
spared semb k = refl

left_over-IsSemaphores : IsSemaphores left_over value_of
left_over-IsSemaphores = record {
  made_empty = λ n k e. absurd cc;
  found = λ n k e. refl;
  create_other = λ n k. refl;
  bind_keeps = λ m n k. refl;
  gets = λ n k. refl;
  waits = lowered;
  wait_other = spared;
}

abbrev counts : Name → ℕ
counts sema = 3
counts semb = 1

prepare_both-empty_example :
    (t : Name → ℕ) × (prepare_both left_over 4 counts
      ≡ some (record { system = t; stopped = false }))
    × (t sema ≡ 0)
    × (t semb ≡ 0)
prepare_both-empty_example =
    prepare_both-empty left_over value_of left_over-IsSemaphores 4 counts (inr (refl, refl))
      (λ t. inr (refl, refl)) (omega arith) (omega arith)
