-- ===== src/Cosim/Simulated.antt =====
-- The virtual driver over shared memory, the co-simulation and a target, as one.
use sc_co_si_m.Prelude.{ℕ, ◌≡◌, ◌≢◌, arith, Option, none, some}
use sc_co_si_m.Driver.Machine.{Device}
use sc_co_si_m.Driver.Rules.{FwDs, setup_fw}
use sc_co_si_m.Driver.Packets.{AccessDs, access_bram_fw}
use sc_co_si_m.Virtual.Access.{exit_word}
use sc_co_si_m.Virtual.Packet.{SimpleAsyncPacket}
use sc_co_si_m.Virtual.Refines.{Implements, seen}
use sc_co_si_m.Virtual.Semaphore.{Client}
use sc_co_si_m.Virtual.Semaphore.Laws.{Mapped, CanStart, view_of, answers-Implements}
use sc_co_si_m.Virtual.Calls.Laws.{
  CanSend, packet_word, sc_setup_fw-setup_fw, sc_access_bram_fw-access_bram_fw,
}
use sc_co_si_m.Virtual.Shm.{ShmOs, mapping, access, sc_setup_fw, sc_access_bram_fw}
use sc_co_si_m.Cosim.Tlm.{Target}
use sc_co_si_m.Cosim.Sysc.{Simulation}
use sc_co_si_m.Cosim.Round.{round}
use sc_co_si_m.Cosim.Round.Laws.{Idle}
use sc_co_si_m.Cosim.Request.{world_of}
use sc_co_si_m.Cosim.Answers.{Replies, round-Answers}

module _ {W : Type 0} (target : Target W) (d : Device W) (replies : Replies target d)
    (post : SimpleAsyncPacket → Simulation W → Simulation W)
    (attach : Simulation W → Option (SimpleAsyncPacket × Simulation W)) where
  -- The operating system, with the co-simulation of the target behind the semaphores.
  abbrev pub simulated : ShmOs (Simulation W)
  simulated = record { port = record { exchange = round target; post = post }; attach = attach }

  -- What the process sees of the target.
  abbrev pub target_of : Client (Simulation W) → W
  target_of c = c.world.world

  simulated-Implements :
      Implements
        (access simulated)
        d
        (Mapped Idle world_of)
        (CanStart Idle world_of (mapping simulated))
        (view_of Idle world_of)
  unfolding access
  simulated-Implements =
      answers-Implements simulated.port Idle world_of d (round-Answers target d replies)
        (mapping simulated) 0 (omega arith)

  starts :
      (s : Simulation W) (p : SimpleAsyncPacket) (n : ℕ)
      → Idle s
      → attach s ≡ some (p, s)
      → CanStart Idle world_of
          (mapping simulated)
          (record { shptr = none; id_counter = n; world = s })
  unfolding mapping
  starts s p n i e = ((p, e), i)

  -- In a process that maps the memory, which leaves the idle simulation as it is, setting up a
  -- rule and an access to a BRAM through the switch, over the shared memory, the channel and the
  -- socket of the simulation, each do to a target that does the accesses of a device what the
  -- kernel's driver does to the device for root, and with the same result, on any fuel. The target
  -- may refuse an access, and then the device's read gives what sc_ioread32 makes of the refusal.
  -- No word written is the one that ends the simulation, and the rule's values fit 32 bits.
  pub simulated_calls :
      (s : Simulation W) (p : SimpleAsyncPacket) (n : ℕ) (fw : FwDs) (fuel : ℕ) (r : AccessDs)
      → Idle s
      → attach s ≡ some (p, s)
      → CanSend fw
      → packet_word r ≢ exit_word
      → let c : Client (Simulation W) = record { shptr = none; id_counter = n; world = s } in
        (seen (Mapped Idle world_of) target_of (sc_setup_fw simulated fw c)
          ≡ setup_fw d 0 fw s.world)
        × (seen (Mapped Idle world_of) target_of (sc_access_bram_fw simulated fuel r c)
            ≡ access_bram_fw d fuel 0 r s.world)
  unfolding sc_setup_fw sc_access_bram_fw
  simulated_calls s p n fw fuel r i e fits stays =
      let c : Client (Simulation W) = record { shptr = none; id_counter = n; world = s } in
      let start = starts s p n i e in
      (
        (sc_setup_fw-setup_fw simulated-Implements fw c fits start).0,
        (sc_access_bram_fw-access_bram_fw simulated-Implements fuel r c stays start).0,
      )
