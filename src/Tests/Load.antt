-- ===== src/Tests/Load.antt =====
-- Loading the driver into a kernel that only remembers what is held.
use sc_co_si_m.Prelude.{◌≡◌, refl, Bool, true, false, if◌then◌else◌}
use sc_co_si_m.Driver.Load.{Resource, sw_firewall, c_dev, mem_region, Kernel, mfd_init, mfd_exit}
use sc_co_si_m.Driver.Load.Laws.{same, IsKernel, mfd_exit-mfd_init, mfd_init-fails}

abbrev Held : Type 0
Held = Resource → Bool

abbrev put : Resource → Bool → Held → Held
put r b k q = if same q r then b else k q

abbrev grant : Resource → Bool → Held → Bool × Held
grant r held k = if held then (false, k) else (true, put r true k)

abbrev some_kernel : Kernel Held
some_kernel = record { acquire = λ r k. grant r (k r) k; release = λ r. put r false }

abbrev holds : Resource → Held → Bool
holds q k = k q

grant-failed :
    (r : Resource) (b : Bool) (k : Held) → (grant r b k).0 ≡ false → (grant r b k).1 r ≡ k r
grant-failed r true k e = refl
grant-failed r false k e = absurd cc

grant-other : (q r : Resource) (b : Bool) (k : Held) → same q r ≡ false → (grant r b k).1 q ≡ k q
grant-other q r true k e = refl
grant-other q r false k e = rw e refl

abbrev some_kernel-IsKernel : IsKernel some_kernel holds
some_kernel-IsKernel = record {
  acquire_failed = λ r k e. grant-failed r (k r) k e;
  acquire_other = λ q r k e. grant-other q r (k r) k e;
  released = λ q r k. refl;
}

-- Somebody else holds the first region behind port 0.
abbrev shared : Held
shared = put (mem_region 0x40000000) true (λ q. false)

mfd_exit-mfd_init_example :
    holds (mem_region 0x40000000) (mfd_exit some_kernel (mfd_init some_kernel shared).1) ≡ false
mfd_exit-mfd_init_example =
    mfd_exit-mfd_init some_kernel holds some_kernel-IsKernel (mem_region 0x40000000) shared

-- The kernel's character device is taken.
abbrev busy : Held
busy = put c_dev true (λ q. false)

mfd_init-fails_example : holds sw_firewall (mfd_init some_kernel busy).1 ≡ false
unfolding mfd_init
mfd_init-fails_example =
    mfd_init-fails some_kernel holds some_kernel-IsKernel busy refl refl refl refl sw_firewall
