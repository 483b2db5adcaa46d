-- ===== src/Virtual/Semaphore.antt =====
-- sc_iowrite32 and sc_ioread32 as three of the virtual drivers have them, word for word:
-- sc_kernel_mode_shm.h, sc_kernel_mode_posix.h and sc_kernel_mode.h. A request is left in memory
-- that is shared with the simulation, and two semaphores pass the turn.
pub mod Laws
pub mod Errors
use sc_co_si_m.Prelude.{ℕ, Option, none, some, ◌==◌, if◌then◌else◌}
use sc_co_si_m.Driver.Machine.{M, spin, return, stop}
use sc_co_si_m.Virtual.Access.{Access, exit_word}
use sc_co_si_m.Virtual.Packet.{
  SimpleAsyncPacket, write_request, read_request, response_word, next_id,
}

-- The other side of the shared memory, `W` its states. `exchange` is what happens between
-- sem_post(sharedsemA) and the end of sem_wait(sharedsemB): from the packet in the memory to the
-- packet then, `none` if the second semaphore is never posted. `post` is the first alone.
pub record Port (W : Type 0) : Type 0 where
  pub exchange : SimpleAsyncPacket → W → Option (SimpleAsyncPacket × W)
  pub post : SimpleAsyncPacket → W → W

-- The process: what shptr points to, `none` for the null pointer, and id_counter.
pub record Client (W : Type 0) : Type 0 where
  pub shptr : Option SimpleAsyncPacket
  pub id_counter : ℕ
  pub world : W

module _ {W : Type 0} (port : Port W) where
  -- Every field that a request does not fill is a time.
  unfoldable pub sem_iowrite32 : ℕ → ℕ → M (Client W) (Unit {0})
  sem_iowrite32 word address c = elim c.shptr [
    | none ↦ stop c
    | some old ↦
        let q = write_request c.id_counter word address in
        let n = next_id c.id_counter in
        if word == exit_word
        then return tt (record c { shptr = some q; id_counter = n; world = port.post q c.world })
        else elim (port.exchange q c.world) [
          | none ↦ spin c
          | some (p, w) ↦ return tt (record c { shptr = some p; id_counter = n; world = w })
        ]
  ]

  -- `garbage` is what the field `data` of the request is set to.
  unfoldable pub sem_ioread32 : ℕ → ℕ → M (Client W) ℕ
  sem_ioread32 garbage address c = elim c.shptr [
    | none ↦ stop c
    | some old ↦
        let q = read_request c.id_counter garbage address in
        elim (port.exchange q c.world) [
          | none ↦ spin c
          | some (p, w) ↦
              return (response_word p)
                (record c { shptr = some p; id_counter = next_id c.id_counter; world = w })
        ]
  ]

unfoldable pub set_id_counter : {W : Type 0} → ℕ → M (Client W) (Unit {0})
set_id_counter n c = return tt (record c { id_counter = n })

-- init_virtual_kernel, for what it does to map the memory: the packet that is there. The semaphores
-- are opened without a look at the result, and count as part of the other side.
unfoldable pub init_with :
    {W : Type 0} → (Client W → Option (SimpleAsyncPacket × W)) → M (Client W) (Unit {0})
init_with mapping c = elim (mapping c) [
  | none ↦ stop c
  | some (p, w) ↦ return tt (record c { shptr = some p; world = w })
]

unfoldable pub sem_access :
    {W : Type 0} → Port W → (Client W → Option (SimpleAsyncPacket × W)) → ℕ → Access (Client W)
sem_access port mapping garbage = record {
  sc_iowrite32 = sem_iowrite32 port;
  sc_ioread32 = sem_ioread32 port garbage;
  init_virtual_kernel = init_with mapping;
  restart_ids = set_id_counter 1;
}
