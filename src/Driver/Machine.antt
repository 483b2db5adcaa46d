-- ===== src/Driver/Machine.antt =====
-- What the driver runs on: the device behind ioread32 and iowrite32, and how a call can end.
use sc_co_si_m.Prelude.{ℕ, ◌≡◌, ◌≢◌}

-- The device is no part of the driver. Its state may change at a read too, so time may pass there.
-- The arguments of `iowrite32` are the value and the address, as in C.
pub record Device (S : Type 0) : Type 0 where
  pub ioread32 : ℕ → S → ℕ × S
  pub iowrite32 : ℕ → ℕ → S → S

-- A call returns a value; or BUG_ON stops the task; or, on fuel, its loop is still waiting.
pub data Outcome (S A : Type 0) : Type 0 where
  done : A → S → Outcome S A
  bug : S → Outcome S A
  spin : S → Outcome S A

abbrev pub M : Type 0 → Type 0 → Type 0
M S A = S → Outcome S A

infixl 5 ◌>>=◌ ◌>>◌
abbrev pub ◌>>=◌ : {S A B : Type 0} → M S A → (A → M S B) → M S B
◌>>=◌ m f s = elim (m s) [ done a t ↦ f a t | bug t ↦ bug t | spin t ↦ spin t ]

abbrev pub ◌>>◌ : {S B : Type 0} → M S (Unit {0}) → M S B → M S B
m >> k = m >>= λ _. k

abbrev pub return : {S A : Type 0} → A → M S A
return a s = done a s

abbrev pub stop : {S A : Type 0} → M S A
stop s = bug s

module _ {S : Type 0} (d : Device S) where
  abbrev pub load : ℕ → M S ℕ
  load a s = let (v, t) = d.ioread32 a s in done v t

  abbrev pub store : ℕ → ℕ → M S (Unit {0})
  store v a s = done tt (d.iowrite32 v a s)

  -- The registers at the addresses of `A` hold what was last written to them, and reading one
  -- changes nothing.
  pub record IsStorage (A : ℕ → Type 0) : Type 0 where
    pub read_pure : (a : ℕ) (s : S) → A a → (d.ioread32 a s).1 ≡ s
    pub read_written : (a v : ℕ) (s : S) → A a → (d.ioread32 a (d.iowrite32 v a s)).0 ≡ v
    pub read_other :
        (a b v : ℕ) (s : S)
        → A a
        → A b
        → a ≢ b
        → (d.ioread32 a (d.iowrite32 v b s)).0 ≡ (d.ioread32 a s).0
