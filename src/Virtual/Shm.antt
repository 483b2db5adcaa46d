-- ===== src/Virtual/Shm.antt =====
-- sc_kernel_mode_shm.h: the virtual driver over System V shared memory.
pub mod Laws
use sc_co_si_m.Prelude.{ℕ, Option, none, some}
use sc_co_si_m.Driver.Machine.{M}
use sc_co_si_m.Driver.Rules.{FwDs}
use sc_co_si_m.Driver.Packets.{AccessDs}
use sc_co_si_m.Driver.Bram.{DirectAccessDs, Code}
use sc_co_si_m.Driver.Stats.{StatDs}
use sc_co_si_m.Virtual.Access.{Access}
use sc_co_si_m.Virtual.Packet.{SimpleAsyncPacket}
use sc_co_si_m.Virtual.Semaphore.{Port, Client, sem_access}
use sc_co_si_m.Virtual.Calls

-- What init_virtual_kernel calls: ftok, shmget and shmat in one, `none` where there is no key file.
pub record ShmOs (W : Type 0) : Type 0 where
  pub port : Port W
  pub attach : W → Option (SimpleAsyncPacket × W)

module _ {W : Type 0} (os : ShmOs W) where
  unfoldable pub mapping : Client W → Option (SimpleAsyncPacket × W)
  mapping c = elim c.shptr [ none ↦ os.attach c.world | some p ↦ some (p, c.world) ]

  unfoldable pub access : Access (Client W)
  access = sem_access os.port mapping 0

  pub sc_iowrite32 : ℕ → ℕ → M (Client W) (Unit {0})
  unfolding access
  sc_iowrite32 = access.sc_iowrite32

  pub sc_ioread32 : ℕ → M (Client W) ℕ
  unfolding access
  sc_ioread32 = access.sc_ioread32

  pub init_virtual_kernel : M (Client W) (Unit {0})
  unfolding access
  init_virtual_kernel = access.init_virtual_kernel

  unfoldable pub sc_setup_fw : FwDs → M (Client W) (Unit {0})
  unfolding access
  sc_setup_fw = Calls.sc_setup_fw access

  unfoldable pub sc_access_bram_fw : ℕ → AccessDs → M (Client W) AccessDs
  unfolding access
  sc_access_bram_fw = Calls.sc_access_bram_fw access

  pub sc_access_bram : DirectAccessDs → M (Client W) (Code × DirectAccessDs)
  unfolding access
  sc_access_bram = Calls.sc_access_bram access

  unfoldable pub sc_read_stats_per_port : StatDs → M (Client W) StatDs
  unfolding access
  sc_read_stats_per_port r = Calls.sc_read_stats_per_port access r
