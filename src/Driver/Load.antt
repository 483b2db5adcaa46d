-- ===== src/Driver/Load.antt =====
-- `mfd_init` and `mfd_exit` of init_modules.h: what the driver takes from the kernel when it is
-- loaded, and gives back when it is removed. The statistics that mfd_init reads are in Stats.
pub mod Laws
use sc_co_si_m.Prelude.{ℕ, Bool, true, false, List, [], ◌∷◌, ◌++◌, if◌then◌else◌}
use sc_co_si_m.Driver.Map.{
  bram1_direct, bram2_direct, bram3_direct, bram4_direct, fw_setup, bram1, bram2, bram3, bram4,
}

-- What the kernel keeps for the driver: the range of device numbers `first`, the class, the device
-- and c_dev; and the memory regions, by their addresses.
pub data Resource : Type 0 where
  chrdev_region class_sw_firewall sw_firewall c_dev : Resource
  mem_region : ℕ → Resource

abbrev pub fw_debug : ℕ
fw_debug = 0x50001000

-- The kernel is no part of the driver. `acquire` stands for alloc_chrdev_region, class_create,
-- device_create, cdev_add and request_mem_region, with whether the driver's test finds that it
-- failed (`false`); `release` for unregister_chrdev_region, class_destroy, device_destroy, cdev_del
-- and release_mem_region. The mappings of ioremap are not among the resources.
pub record Kernel (K : Type 0) : Type 0 where
  pub acquire : Resource → K → Bool × K
  pub release : Resource → K → K

-- In the order of the calls; the driver requests BRAM3 and BRAM4 alike.
abbrev pub regions : List ℕ
regions =
    bram1_direct ∷ bram2_direct ∷ bram3_direct ∷ bram4_direct ∷ fw_setup ∷ fw_debug ∷ bram1 ∷ bram2
    ∷ bram3 ∷ bram4 ∷ []

module _ {K : Type 0} (kernel : Kernel K) where
  -- The results of request_mem_region are not looked at.
  unfoldable pub request_mem_regions : List ℕ → K → K
  request_mem_regions [] k = k
  request_mem_regions (a ∷ rest) k = request_mem_regions rest (kernel.acquire (mem_region a) k).1

  unfoldable pub release_mem_regions : List ℕ → K → K
  release_mem_regions [] k = k
  release_mem_regions (a ∷ rest) k = release_mem_regions rest (kernel.release (mem_region a) k)

  -- `true` where 0 is returned, and `false` where -1 is.
  unfoldable pub mfd_init : K → Bool × K
  unfolding request_mem_regions
  mfd_init k0 =
      let (numbered, k1) = kernel.acquire chrdev_region k0 in
      let (classed, k2) = kernel.acquire class_sw_firewall k1 in
      let (created, k3) = kernel.acquire sw_firewall k2 in
      let (added, k4) = kernel.acquire c_dev k3 in
      if numbered
      then (if classed
          then (if created
              then (if added then (true, request_mem_regions regions k4) else (
                false,
                kernel.release chrdev_region
                    (kernel.release class_sw_firewall (kernel.release sw_firewall k4)),
              ))
              else (false, kernel.release chrdev_region (kernel.release class_sw_firewall k3)))
          else (false, kernel.release chrdev_region k2))
      else (false, k1)

  unfoldable pub mfd_exit : K → K
  unfolding release_mem_regions
  mfd_exit k = kernel.release chrdev_region (
      kernel.release class_sw_firewall
        (kernel.release sw_firewall (kernel.release c_dev (release_mem_regions regions k))))
