-- ===== src/Virtual/Semaphore/Laws.antt =====
-- What the accesses do when the simulation serves them.
use sc_co_si_m.Prelude.{ℕ, ◌^◌, ◌<◌, ◌≡◌, ◌≢◌, refl, ap, arith, false, Option, none, some, ◌==◌}
use sc_co_si_m.Driver.Machine.{Device, load, store, done}
use sc_co_si_m.Virtual.Access.{exit_word}
use sc_co_si_m.Virtual.Packet.{
  SimpleAsyncPacket, async_incomplete_response, async_read, async_write, write_request,
  read_request, response_word,
}
use sc_co_si_m.Virtual.Refines.{Implements, Simulates, seen, EndsReady}
use sc_co_si_m.Virtual.Semaphore.{
  Port, Client, sem_iowrite32, sem_ioread32, set_id_counter, init_with, sem_access,
}

-- Between accesses, in the states `Idle`, the simulation stands for the device `d`, of whose state
-- `view` is what it shows: it answers every request and does the write or the read of `d`. A read
-- may be answered with any status: what sc_ioread32 makes of the response is the device's word.
pub record Answers {W V : Type 0}
    (exchange : SimpleAsyncPacket → W → Option (SimpleAsyncPacket × W)) (Idle : W → Type 0)
    (view : W → V) (d : Device V) : Type 0 where
  pub write_answered :
      (p : SimpleAsyncPacket) (w : W)
      → Idle w
      → p.command ≡ async_write
      → p.word < 2 ^ 32
      → p.address < 2 ^ 32
      → (q : SimpleAsyncPacket) × (t : W) × (exchange p w ≡ some (q, t))
        × Idle t
        × (view t ≡ d.iowrite32 p.word p.address (view w))
  pub read_answered :
      (p : SimpleAsyncPacket) (w : W)
      → Idle w
      → p.command ≡ async_read
      → p.word < 2 ^ 32
      → p.address < 2 ^ 32
      → (q : SimpleAsyncPacket) × (t : W) × (exchange p w ≡ some (q, t))
        × Idle t
        × (response_word q ≡ (d.ioread32 p.address (view w)).0)
        × (view t ≡ (d.ioread32 p.address (view w)).1)

-- The request of a write of another word than the exit word.
abbrev pub written : ℕ → ℕ → ℕ → SimpleAsyncPacket
written id word address = record {
  id = id;
  command = async_write;
  status = async_incomplete_response;
  address = address;
  word = word;
}

pub no_exit : (v : ℕ) → v ≢ exit_word → (v == exit_word) ≡ false
no_exit v n = ground arith

-- The memory is mapped.
abbrev pub IsMapped : {W : Type 0} → Client W → Type 0
IsMapped c = elim c.shptr [ none ↦ ⊥ | some p ↦ Unit ]

-- The process has mapped the memory, or can map it, which does not touch the simulation.
abbrev pub CanMap : {W : Type 0} → (Client W → Option (SimpleAsyncPacket × W)) → Client W → Type 0
CanMap mapping c = (p : SimpleAsyncPacket) × (mapping c ≡ some (p, c.world))

module _ {W V : Type 0} (Idle : W → Type 0) (view : W → V) where
  abbrev pub Mapped : Client W → Type 0
  Mapped c = IsMapped c × Idle c.world

  abbrev pub view_of : Client W → V
  view_of c = view c.world

  abbrev pub CanStart : (Client W → Option (SimpleAsyncPacket × W)) → Client W → Type 0
  CanStart mapping c = CanMap mapping c × Idle c.world

module _ {W V : Type 0} (port : Port W) (Idle : W → Type 0) (view : W → V) (d : Device V)
    (answers : Answers port.exchange Idle view d) where
  write_at :
      (v a n : ℕ) (w : W) (shptr : Option SimpleAsyncPacket)
      → v < 2 ^ 32
      → v ≢ exit_word
      → a < 2 ^ 32
      → Mapped Idle view (record { shptr = shptr; id_counter = n; world = w })
      → Simulates
          (Mapped Idle view)
          (view_of Idle view)
          (sem_iowrite32 port v a (record { shptr = shptr; id_counter = n; world = w }))
          (store d v a (view w))
  unfolding sem_iowrite32 seen EndsReady write_request
  write_at v a n w none hv nv ha r = elim (r.0) [ ]
  write_at v a n w (some old) hv nv ha r =
      let s = answers.write_answered (written n v a) w r.1 refl hv ha in
      rw (no_exit v nv, s.2) (ap (done tt) (s.4), (tt, s.3))

  read_at :
      (garbage a n : ℕ) (w : W) (shptr : Option SimpleAsyncPacket)
      → garbage < 2 ^ 32
      → a < 2 ^ 32
      → Mapped Idle view (record { shptr = shptr; id_counter = n; world = w })
      → Simulates
          (Mapped Idle view)
          (view_of Idle view)
          (sem_ioread32 port garbage a (record { shptr = shptr; id_counter = n; world = w }))
          (load d a (view w))
  unfolding sem_ioread32 seen EndsReady read_request
  read_at g a n w none hg ha r = elim (r.0) [ ]
  read_at g a n w (some old) hg ha r =
      let s = answers.read_answered (read_request n g a) w r.1 refl hg ha in
      rw (sem_ioread32, s.2) (rw (s.4, s.5) refl, (tt, s.3))

  init_at :
      (mapping : Client W → Option (SimpleAsyncPacket × W)) (c : Client W)
      → CanStart Idle view mapping c
      → Simulates
          (Mapped Idle view)
          (view_of Idle view)
          (init_with mapping c)
          (done tt (view c.world))
  unfolding init_with seen EndsReady
  init_at mapping c h = rw (init_with, h.0.1) (refl, (tt, h.1))

  pub answers-Implements :
      (mapping : Client W → Option (SimpleAsyncPacket × W)) (garbage : ℕ)
      → garbage < 2 ^ 32
      → Implements
          (sem_access port mapping garbage)
          d
          (Mapped Idle view)
          (CanStart Idle view mapping)
          (view_of Idle view)
  unfolding sem_access set_id_counter seen EndsReady
  answers-Implements mapping garbage hg = record {
    write_refines = λ v a hv nv ha. record {
      simulates = λ c r. write_at v a c.id_counter c.world c.shptr hv nv ha r;
    };
    read_refines = λ a ha. record {
      simulates = λ c r. read_at garbage a c.id_counter c.world c.shptr hg ha r;
    };
    restart_refines = record { simulates = λ c r. (refl, r) };
    init_starts = init_at mapping;
  }
