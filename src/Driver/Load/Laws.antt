-- ===== src/Driver/Load/Laws.antt =====
-- What the kernel holds after the driver's load and removal.
use sc_co_si_m.Prelude.{
  ℕ, ◌≡◌, refl, sym, ap, ◌∙◌, Bool, true, false, Bool-cases, inl, inr, List, [], ◌∷◌, ◌==◌, ==_iff,
  if◌then◌else◌, arith,
}
use mathlib.Core.Path.{subst}
use sc_co_si_m.Driver.Load.{
  Resource, chrdev_region, class_sw_firewall, sw_firewall, c_dev, mem_region, Kernel, regions,
  request_mem_regions, release_mem_regions, mfd_init, mfd_exit,
}

abbrev pub same : Resource → Resource → Bool
same chrdev_region chrdev_region = true
same class_sw_firewall class_sw_firewall = true
same sw_firewall sw_firewall = true
same c_dev c_dev = true
same (mem_region a) (mem_region b) = a == b
same q r = false

-- What the kernel documents: a call that acquires a resource leaves all others, and if it fails,
-- that one too; a release makes the resource free, whoever held it, and leaves all others. Nothing
-- is said of a call that the driver takes for a success.
pub record IsKernel {K : Type 0} (kernel : Kernel K) (holds : Resource → K → Bool) : Type 0 where
  pub acquire_failed :
      (r : Resource) (k : K)
      → (kernel.acquire r k).0 ≡ false
      → holds r (kernel.acquire r k).1 ≡ holds r k
  pub acquire_other :
      (q r : Resource) (k : K) → same q r ≡ false → holds q (kernel.acquire r k).1 ≡ holds q k
  pub released :
      (q r : Resource) (k : K)
      → holds q (kernel.release r k) ≡ (if same q r then false else holds q k)

-- A memory region that is in the list.
abbrev named : Resource → List ℕ → Bool
named q [] = false
named q (a ∷ rest) = if same q (mem_region a) then true else named q rest

-- What the driver takes, if it is loaded.
abbrev pub is_own : Resource → Bool
is_own chrdev_region = true
is_own class_sw_firewall = true
is_own sw_firewall = true
is_own c_dev = true
is_own (mem_region a) = named (mem_region a) regions

same_eq : (q r : Resource) → same q r ≡ true → q ≡ r
same_eq chrdev_region chrdev_region e = refl
same_eq class_sw_firewall class_sw_firewall e = refl
same_eq sw_firewall sw_firewall e = refl
same_eq c_dev c_dev e = refl
same_eq (mem_region a) (mem_region b) e = ap mem_region ((==_iff a b).0 e)
same_eq q r e = absurd cc

module _ {K : Type 0} (kernel : Kernel K) (holds : Resource → K → Bool)
    (laws : IsKernel kernel holds) where
  acquire-failed :
      (q r : Resource) (k : K)
      → (kernel.acquire r k).0 ≡ false
      → holds q (kernel.acquire r k).1 ≡ holds q k
  acquire-failed q r k e = elim (Bool-cases (same q r)) [
    | inl f ↦
        subst (λ c. holds c (kernel.acquire r k).1 ≡ holds c k) (sym (same_eq q r f))
          (laws.acquire_failed r k e)
    | inr f ↦ laws.acquire_other q r k f
  ]

  request_mem_regions-other :
      (q : Resource) (regs : List ℕ) (k : K)
      → named q regs ≡ false
      → holds q (request_mem_regions kernel regs k) ≡ holds q k
  unfolding request_mem_regions
  request_mem_regions-other q [] k e = refl
  request_mem_regions-other q (a ∷ rest) k e = elim (Bool-cases (same q (mem_region a))) [
    | inl f ↦ absurd (ground (arith, e, f))
    | inr f ↦
        request_mem_regions-other q rest (kernel.acquire (mem_region a) k).1 (ground (arith, e, f))
        ∙ laws.acquire_other q (mem_region a) k f
  ]

  release_mem_regions-holds :
      (q : Resource) (regs : List ℕ) (k : K)
      → holds q (release_mem_regions kernel regs k) ≡ (if named q regs then false else holds q k)
  unfolding release_mem_regions
  release_mem_regions-holds q [] k = refl
  release_mem_regions-holds q (a ∷ rest) k =
      let ih = release_mem_regions-holds q rest (kernel.release (mem_region a) k) in
      let here = laws.released q (mem_region a) k in ground (arith, ih, here)

  releases :
      (q : Resource) (k : K)
      → holds q (mfd_exit kernel k) ≡ (
          if same q chrdev_region
          then false
          else if same q class_sw_firewall
          then false
          else if same q sw_firewall
          then false
          else if same q c_dev
          then false
          else if named q regions
          then false
          else holds q k)
  unfolding mfd_exit
  releases q k =
      let k0 = release_mem_regions kernel regions k in
      let k1 = kernel.release c_dev k0 in
      let k2 = kernel.release sw_firewall k1 in
      let k3 = kernel.release class_sw_firewall k2 in
      rw
        (
          laws.released q chrdev_region k3,
          laws.released q class_sw_firewall k2,
          laws.released q sw_firewall k1,
          laws.released q c_dev k0,
          release_mem_regions-holds q regions k,
        )
        refl

  -- Removing the driver frees each of its resources, whoever holds it, and leaves all others.
  mfd_exit-holds :
      (q : Resource) (k : K) → holds q (mfd_exit kernel k) ≡ (if is_own q then false else holds q k)
  mfd_exit-holds chrdev_region k = releases chrdev_region k
  mfd_exit-holds q k = releases q k

  release-other :
      (q r : Resource) (k : K) → same q r ≡ false → holds q (kernel.release r k) ≡ holds q k
  release-other q r k e = laws.released q r k ∙ rw e refl

  not_own :
      (q : Resource)
      → is_own q ≡ false
      → (same q chrdev_region ≡ false)
        × (same q class_sw_firewall ≡ false)
        × (same q sw_firewall ≡ false)
        × (same q c_dev ≡ false)
        × (named q regions ≡ false)
  not_own chrdev_region e = absurd cc
  not_own class_sw_firewall e = absurd cc
  not_own sw_firewall e = absurd cc
  not_own c_dev e = absurd cc
  not_own (mem_region a) e = (refl, refl, refl, refl, e)

  -- Loading the driver leaves the resources that are not its own, whether it succeeds or not.
  mfd_init-other :
      (q : Resource) (k : K) → is_own q ≡ false → holds q (mfd_init kernel k).1 ≡ holds q k
  unfolding mfd_init
  mfd_init-other q k e =
      let (e1, e2, e3, e4, e5) = not_own q e in
      let c1 = kernel.acquire chrdev_region k in
      let c2 = kernel.acquire class_sw_firewall c1.1 in
      let c3 = kernel.acquire sw_firewall c2.1 in
      let c4 = kernel.acquire c_dev c3.1 in
      let o1 = laws.acquire_other q chrdev_region k e1 in
      let o2 = laws.acquire_other q class_sw_firewall c1.1 e2 ∙ o1 in
      let o3 = laws.acquire_other q sw_firewall c2.1 e3 ∙ o2 in
      let o4 = laws.acquire_other q c_dev c3.1 e4 ∙ o3 in
      elim (Bool-cases c1.0) [
        | inl f1 ↦ elim (Bool-cases c2.0) [
          | inl f2 ↦ elim (Bool-cases c3.0) [
            | inl f3 ↦ elim (Bool-cases c4.0) [
              | inl f4 ↦ rw (f1, f2, f3, f4) (request_mem_regions-other q regions c4.1 e5 ∙ o4)
              | inr f4 ↦
                  rw (f1, f2, f3, f4)
                    (release-other q chrdev_region _ e1
                      ∙ release-other q class_sw_firewall _ e2
                      ∙ release-other q sw_firewall c4.1 e3
                      ∙ o4)
            ]
            | inr f3 ↦
                rw (f1, f2, f3)
                  (release-other q chrdev_region _ e1
                    ∙ release-other q class_sw_firewall c3.1 e2
                    ∙ o3)
          ]
          | inr f2 ↦ rw (f1, f2) (release-other q chrdev_region c2.1 e1 ∙ o2)
        ]
        | inr f1 ↦ rw f1 o1
      ]

  -- Loading and then removing the driver leaves each resource that the driver never asks for held
  -- or free as it was, and each that it asks for free, whether the load was given it or not: so
  -- also a memory region that somebody else held. A failed call changes nothing, no call touches a
  -- resource that it is not for, and a release frees a resource whoever holds it.
  pub mfd_exit-mfd_init :
      (q : Resource) (k : K)
      → holds q (mfd_exit kernel (mfd_init kernel k).1) ≡ (if is_own q then false else holds q k)
  mfd_exit-mfd_init q k = elim (Bool-cases (is_own q)) [
    | inl e ↦ mfd_exit-holds q (mfd_init kernel k).1 ∙ rw e refl
    | inr e ↦ mfd_exit-holds q (mfd_init kernel k).1 ∙ rw e (mfd_init-other q k e)
  ]

  -- An acquisition that succeeded, and the release that undoes it when all since is undone.
  undone :
      (r : Resource) (k t : K)
      → (kernel.acquire r k).0 ≡ true
      → holds r k ≡ false
      → ((q : Resource) → holds q t ≡ holds q (kernel.acquire r k).1)
      → (q : Resource) → holds q (kernel.release r t) ≡ holds q k
  undone r k t ok free back q = elim (Bool-cases (same q r)) [
    | inl e ↦ laws.released q r t ∙ rw e (sym free ∙ ap (λ c. holds c k) (sym (same_eq q r e)))
    | inr e ↦ release-other q r t e ∙ back q ∙ laws.acquire_other q r k e
  ]

  -- Whichever call of the kernel the driver finds to have failed, a load of the driver that
  -- returns -1 leaves every resource held or free as it was before. The driver's device numbers,
  -- class and device were free; a failed call changes nothing; and no call touches a resource that
  -- it is not for.
  pub mfd_init-fails :
      (k : K)
      → (mfd_init kernel k).0 ≡ false
      → holds chrdev_region k ≡ false
      → holds class_sw_firewall k ≡ false
      → holds sw_firewall k ≡ false
      → (q : Resource) → holds q (mfd_init kernel k).1 ≡ holds q k
  unfolding mfd_init
  mfd_init-fails k fails h1 h2 h3 q =
      let c1 = kernel.acquire chrdev_region k in
      let c2 = kernel.acquire class_sw_firewall c1.1 in
      let c3 = kernel.acquire sw_firewall c2.1 in
      let c4 = kernel.acquire c_dev c3.1 in
      let g2 : holds class_sw_firewall c1.1 ≡ false =
        laws.acquire_other class_sw_firewall chrdev_region k refl ∙ h2 in
      let g3 : holds sw_firewall c2.1 ≡ false =
        laws.acquire_other sw_firewall class_sw_firewall c1.1 refl
        ∙ laws.acquire_other sw_firewall chrdev_region k refl
        ∙ h3 in
      elim (Bool-cases c1.0) [
        | inl f1 ↦ elim (Bool-cases c2.0) [
          | inl f2 ↦ elim (Bool-cases c3.0) [
            | inl f3 ↦ elim (Bool-cases c4.0) [
              | inl f4 ↦ absurd (ground (arith, f1, f2, f3, f4, fails))
              | inr f4 ↦
                  rw (f1, f2, f3, f4)
                    (undone chrdev_region k _ f1 h1
                      (undone class_sw_firewall c1.1 _ f2 g2
                        (undone sw_firewall c2.1 c4.1 f3 g3 (λ r. acquire-failed r c_dev c3.1 f4)))
                      q)
            ]
            | inr f3 ↦
                rw (f1, f2, f3)
                  (undone chrdev_region k _ f1 h1
                    (undone class_sw_firewall c1.1 c3.1 f2 g2
                      (λ r. acquire-failed r sw_firewall c2.1 f3))
                    q)
          ]
          | inr f2 ↦
              rw (f1, f2)
                (undone chrdev_region k c2.1 f1 h1 (λ r. acquire-failed r class_sw_firewall c1.1 f2)
                  q)
        ]
        | inr f1 ↦ rw f1 (acquire-failed q chrdev_region k f1)
      ]
