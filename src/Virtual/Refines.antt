-- ===== src/Virtual/Refines.antt =====
-- One machine stands for another: what it means, and how it goes through `>>=`. The states of the
-- machine in front are `C`; `view` is what it shows of the states `W` of the one behind it, and
-- `Ready` the condition under which it can be used.
use sc_co_si_m.Prelude.{ℕ, ◌^◌, ◌<◌, ◌≡◌, ◌≢◌, refl, sym, Bool, true, false, if◌then◌else◌}
use sc_co_si_m.Driver.Machine.{Device, Outcome, done, bug, spin, M, return, load, store, ◌>>=◌}
use sc_co_si_m.Virtual.Access.{Access, exit_word}

module _ {C W : Type 0} (Ready : C → Type 0) (view : C → W) where
  unfoldable pub seen : {A : Type 0} → Outcome C A → Outcome W A
  seen (done a c) = done a (view c)
  seen (bug c) = bug (view c)
  seen (spin c) = spin (view c)

  unfoldable pub EndsReady : {A : Type 0} → Outcome C A → Type 0
  EndsReady (done a c) = Ready c
  EndsReady (bug c) = Unit
  EndsReady (spin c) = Unit

  abbrev pub Simulates : {A : Type 0} → Outcome C A → Outcome W A → Type 0
  Simulates o p = (seen o ≡ p) × EndsReady o

  -- From every ready state, `m` does what `n` does.
  pub record Refines {A : Type 0} (m : M C A) (n : M W A) : Type 0 where
    pub simulates : (c : C) → Ready c → Simulates (m c) (n (view c))

  pub bind-Simulates :
      {A B : Type 0} (f : A → M C B) (g : A → M W B) (o : Outcome C A) (p : Outcome W A)
      → Simulates o p
      → ((a : A) → Refines (f a) (g a))
      → (c : C) (w : W) → Simulates (((λ _. o) >>= f) c) (((λ _. p) >>= g) w)
  unfolding seen EndsReady
  bind-Simulates f g (done a t) p h k c w = rw (sym (h.0)) ((k a).simulates t h.1)
  bind-Simulates f g (bug t) p h k c w = rw (sym (h.0)) (refl, tt)
  bind-Simulates f g (spin t) p h k c w = rw (sym (h.0)) (refl, tt)

  pub bind-Refines :
      {A B : Type 0} {m : M C A} {n : M W A} {f : A → M C B} {g : A → M W B}
      → Refines m n
      → ((a : A) → Refines (f a) (g a))
      → Refines (m >>= f) (n >>= g)
  bind-Refines {m} {n} {f} {g} h k = record {
    simulates = λ c r. bind-Simulates f g (m c) (n (view c)) (h.simulates c r) k c (view c);
  }

  pub return-Refines : {A : Type 0} (a : A) → Refines (return a) (return a)
  unfolding seen EndsReady
  return-Refines a = record { simulates = λ c r. (refl, r) }

  -- A machine behind that does the same as another.
  pub Refines_along :
      {A : Type 0} {m : M C A} {n l : M W A} → ((w : W) → l w ≡ n w) → Refines m n → Refines m l
  Refines_along e h = record { simulates = λ c r. rw (e (view c)) (h.simulates c r) }

  pub if-Refines :
      {A : Type 0} (b : Bool) {m k : M C A} {n l : M W A}
      → (b ≡ true → Refines m n)
      → (b ≡ false → Refines k l)
      → Refines (if b then m else k) (if b then n else l)
  if-Refines true h e = h refl
  if-Refines false h e = e refl

-- What the functions of a virtual driver need of its accesses, to do what the driver does on the
-- device `d`. `Starts` is a condition under which init_virtual_kernel succeeds.
pub record Implements {C W : Type 0} (x : Access C) (d : Device W) (Ready Starts : C → Type 0)
    (view : C → W) : Type 0 where
  pub write_refines :
      (v a : ℕ)
      → v < 2 ^ 32
      → v ≢ exit_word
      → a < 2 ^ 32
      → Refines Ready view (x.sc_iowrite32 v a) (store d v a)
  pub read_refines : (a : ℕ) → a < 2 ^ 32 → Refines Ready view (x.sc_ioread32 a) (load d a)
  pub restart_refines : Refines Ready view x.restart_ids (return tt)
  pub init_starts :
      (c : C) → Starts c → Simulates Ready view (x.init_virtual_kernel c) (done tt (view c))
