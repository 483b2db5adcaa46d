-- ===== src/Firewall/Setup/Laws.antt =====
-- Which rule is in force after the registers were written.
use sc_co_si_m.Prelude.{
  ℕ, zero, suc, ◌<◌, ◌≡◌, ◌≢◌, List, [], ◌∷◌, ◌++◌, All, replicate, arith, refl, ◌∙◌, sym,
}
use mathlib.Core.Path.{subst}
use sc_co_si_m.Firewall.Setup.{Registers, Installed, install, rounds}

pub rounds-append :
    (xs ys : List Registers) (s : Installed) → rounds (xs ++ ys) s ≡ rounds ys (rounds xs s)
unfolding rounds
rounds-append [] ys s = refl
rounds-append (x ∷ xs) ys s = rounds-append xs ys (install x s)

-- While the rule register stays as it was taken over, nothing changes, whatever is written to the
-- other two.
rounds_same :
    (xs : List Registers) (s : Installed) → All (λ x. x.rule ≡ s.precommand) xs → rounds xs s ≡ s
unfolding rounds install
rounds_same [] s h = refl
rounds_same (x ∷ xs) s h = ground (arith, rounds_same xs s h.1)

install_off : (r : Registers) (s : Installed) → r.rule ≡ 0 → (install r s).precommand ≡ 0
unfolding install
install_off r s z = ground arith

install_on :
    (r : Registers) (s : Installed)
    → s.precommand ≡ 0
    → r.rule ≢ 0
    → install r s ≡ record { precommand = r.rule; range = r }
unfolding install
install_on r s z n = ground arith

-- A rule is installed in two phases of a port's setup registers, each of one cycle or more: first
-- the rule register is 0; then it is the new rule, not 0, and in the first of these cycles the
-- other two hold the new range. Then the new rule and range are in force, whatever was before, and
-- later changes of the range registers alone change nothing.
rounds-installs :
    (s : Installed) (off : Registers) (offs : List Registers) (r : Registers) (ons : List Registers)
    → off.rule ≡ 0
    → All (λ x. x.rule ≡ 0) offs
    → r.rule ≢ 0
    → All (λ x. x.rule ≡ r.rule) ons
    → rounds ((off ∷ offs) ++ (r ∷ ons)) s ≡ record { precommand = r.rule; range = r }
unfolding rounds
rounds-installs s off offs r ons z zs n same =
    let t = install off s in
    let t-off = install_off off s z in
    let still : rounds offs t ≡ t =
      rounds_same offs t (subst (λ k. All (λ x. x.rule ≡ k) offs) (sym t-off) zs) in
    rounds-append (off ∷ offs) (r ∷ ons) s
    ∙ (rw still (rw (install_on r t t-off n) (rounds_same ons _ same)))

-- Registers that are held for a cycle or more are taken over once.
pub rounds_held :
    (n : ℕ) (r : Registers) (s : Installed) → 0 < n → rounds (replicate n r) s ≡ install r s
unfolding rounds install
rounds_held zero r s h = absurd (omega arith)
rounds_held (suc zero) r s h = refl
rounds_held (suc (suc n)) r s h = ground (arith, rounds_held (suc n) r s (omega arith))

pub install_phases :
    (a b c r : Registers) (s : Installed)
    → a.rule ≡ 0
    → b.rule ≡ 0
    → c.rule ≡ 0
    → r.rule ≢ 0
    → install r (install c (install b (install a s))) ≡ record { precommand = r.rule; range = r }
unfolding install
install_phases a b c r s az bz cz n = ground arith

-- A round in which the rule register is as it was taken over.
pub install_same : (r : Registers) (s : Installed) → r.rule ≡ s.precommand → install r s ≡ s
unfolding install
install_same r s e = ground arith
