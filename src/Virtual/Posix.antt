-- ===== src/Virtual/Posix.antt =====
-- sc_kernel_mode_posix.h: the virtual driver over POSIX shared memory.
use sc_co_si_m.Prelude.{ℕ, Option, none, some, ltb, if◌then◌else◌}
use sc_co_si_m.Driver.Machine.{M, ◌>>◌}
use sc_co_si_m.Driver.Rules.{FwDs}
use sc_co_si_m.Driver.Packets.{AccessDs}
use sc_co_si_m.Driver.Bram.{DirectAccessDs, Code}
use sc_co_si_m.Driver.Stats.{StatDs}
use sc_co_si_m.Virtual.Access.{Access}
use sc_co_si_m.Virtual.Packet.{SimpleAsyncPacket}
use sc_co_si_m.Virtual.Semaphore.{Port, Client, sem_access}
use sc_co_si_m.Virtual.Calls

-- The calls that init_virtual_kernel makes, `none` where one fails: shm_open gives a descriptor,
-- fstat the size of the memory, mmap the packet that is there. `shmem_length` is the size of the
-- packet's structure.
pub record PosixOs (W : Type 0) : Type 0 where
  pub port : Port W
  pub shmem_length : ℕ
  pub shm_open : W → Option ℕ
  pub fstat : ℕ → W → Option ℕ
  pub mmap : ℕ → W → Option (SimpleAsyncPacket × W)

module _ {W : Type 0} (os : PosixOs W) where
  unfoldable pub open_memory : W → Option (SimpleAsyncPacket × W)
  open_memory w = elim (os.shm_open w) [
    | none ↦ none
    | some fd ↦ elim (os.fstat fd w) [
      | none ↦ none
      | some st_size ↦ if ltb st_size os.shmem_length then none else os.mmap fd w
    ]
  ]

  unfoldable pub mapping : Client W → Option (SimpleAsyncPacket × W)
  unfolding open_memory
  mapping c = elim c.shptr [ none ↦ open_memory c.world | some p ↦ some (p, c.world) ]

  unfoldable pub access : Access (Client W)
  access = sem_access os.port mapping 0

  pub sc_iowrite32 : ℕ → ℕ → M (Client W) (Unit {0})
  unfolding access
  sc_iowrite32 = access.sc_iowrite32

  pub sc_ioread32 : ℕ → M (Client W) ℕ
  unfolding access
  sc_ioread32 = access.sc_ioread32

  pub init_virtual_kernel : M (Client W) (Unit {0})
  unfolding access
  init_virtual_kernel = access.init_virtual_kernel

  pub sc_setup_fw : FwDs → M (Client W) (Unit {0})
  unfolding access
  sc_setup_fw = Calls.sc_setup_fw access

  pub sc_access_bram_fw : ℕ → AccessDs → M (Client W) AccessDs
  unfolding access
  sc_access_bram_fw = Calls.sc_access_bram_fw access

  pub sc_access_bram : DirectAccessDs → M (Client W) (Code × DirectAccessDs)
  unfolding access
  sc_access_bram = Calls.sc_access_bram access

  pub sc_read_stats_per_port : StatDs → M (Client W) StatDs
  unfolding access
  sc_read_stats_per_port r = do init_virtual_kernel; Calls.sc_read_stats_per_port access r
