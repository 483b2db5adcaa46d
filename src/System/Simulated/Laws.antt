-- ===== src/System/Simulated/Laws.antt =====
-- A read of a process on the simulated firewall, from the call of the virtual driver to its return.
use sc_co_si_m.Prelude.{
  Bool, true, false, if◌then◌else◌, ℕ, ◌+◌, ◌*◌, ◌%◌, ◌^◌, ◌<◌, ◌≡◌, ◌≢◌, refl, ap, ◌∙◌, false,
  Option, none, some, arith, u32, range, ◌⊎◌, inl, inr,
}
use sc_co_si_m.Firewall.Packet.{Port}
use sc_co_si_m.Firewall.Registers
use sc_co_si_m.Firewall.Registers.{Status, ok_response, address_error, byte_enable_error}
use sc_co_si_m.Firewall.Input.Laws.{Takes, IsWelcome}
use sc_co_si_m.Firewall.Output.{bram}
use sc_co_si_m.Firewall.Module.{Firewall}
use sc_co_si_m.Firewall.Module.Quiet.{quiet}
use sc_co_si_m.Firewall.Module.Stages.{offered}
use sc_co_si_m.Channel.Packet.{memcpy, byte, number_at}
use sc_co_si_m.Driver.Machine.{done}
use sc_co_si_m.Driver.Packets.{AccessDs, read_value, access_bram_fw}
use sc_co_si_m.Driver.Packets.Laws.{read_packet-read_value}
use sc_co_si_m.Virtual.Access.{exit_word}
use sc_co_si_m.Virtual.Packet.{SimpleAsyncPacket}
use sc_co_si_m.Virtual.Refines.{Implements, seen}
use sc_co_si_m.Virtual.Semaphore.{Client}
use sc_co_si_m.Virtual.Semaphore.Laws.{Mapped, CanStart, view_of, answers-Implements}
use sc_co_si_m.Virtual.Calls.{sc_read_value}
use sc_co_si_m.Virtual.Calls.Laws.{packet_word, sc_access_bram_fw-access_bram_fw}
use sc_co_si_m.Virtual.Shm.{ShmOs, mapping, access, sc_access_bram_fw}
use sc_co_si_m.Cosim.Tlm.{tlm_incomplete_response, tlm_read_command, tlm_write_command, TlmPayload}
use sc_co_si_m.Cosim.Sysc.{Simulation, status_of}
use sc_co_si_m.Cosim.Round.Laws.{Idle}
use sc_co_si_m.Cosim.Request.{Requests, world_of}
use sc_co_si_m.Cosim.Answers.{Replies, word_in, round-Answers}
use sc_co_si_m.System.Access.{Route, Route-IsAddress}
use sc_co_si_m.System.Driven.{
  Bench, no_word, bench, bench_read, bench_write, admit_read, admit_write,
}
use sc_co_si_m.System.Driven.Laws.{started, access_bram_fw-delivered}
use sc_co_si_m.System.Simulated.{transported, b_transport, firewall_router, demo}

number_at-memcpy : (v n : ℕ) (b : ℕ → ℕ) → n ≡ 4 → number_at (memcpy 0 (byte v) n b) 0 4 ≡ u32 v
unfolding number_at byte memcpy
number_at-memcpy v n b e = rw e (omega arith)

Status-cases : (s : Status) → (s ≡ ok_response) ⊎ (s ≡ address_error) ⊎ (s ≡ byte_enable_error)
Status-cases ok_response = inl refl
Status-cases address_error = inr (inl refl)
Status-cases byte_enable_error = inr (inr refl)

module _ (mem : ℕ → ℕ) (dbg : TlmPayload → Bench → ℕ × TlmPayload × Bench) where
  transported_writes :
      (t : TlmPayload) (w : Bench)
      → Requests t
      → t.command ≡ tlm_write_command
      → (transported mem dbg t w).1 ≡ admit_write mem (number_at t.bytes 0 4) t.address w
  unfolding transported admit_write
  transported_writes t w h c = elim (Status-cases (Registers.b_transport 4 t.address false)) [
    | inl e ↦ rw (transported, admit_write, h.0, e, c) refl
    | inr (inl e) ↦ rw (transported, admit_write, h.0, e) refl
    | inr (inr e) ↦ rw (transported, admit_write, h.0, e) refl
  ]

  transported_reads :
      (t : TlmPayload) (w : Bench)
      → Requests t
      → t.command ≡ tlm_read_command
      → let (r, u) = transported mem dbg t w in
        (word_in r ≡ (admit_read mem t.address w).0) × (u ≡ (admit_read mem t.address w).1)
  unfolding transported admit_read status_of
  transported_reads t w h c = elim (Status-cases (Registers.b_transport 4 t.address false)) [
    | inl e ↦
        rw (transported, admit_read, h.0, e, c) (number_at-memcpy _ t.data_length t.bytes h.0, refl)
    | inr (inl e) ↦ rw (transported, admit_read, h.0, e) (refl, refl)
    | inr (inr e) ↦ rw (transported, admit_read, h.0, e) (refl, refl)
  ]

  -- A call that hangs, or one that is served.
  if_write :
      (hangs : Bool) (t : TlmPayload) (w u : Bench) (s : TlmPayload × Bench)
      → s.1 ≡ u
      → (if hangs then (t, w) else s).1 ≡ (if hangs then w else u)
  if_write true t w u s e = refl
  if_write false t w u s e = e

  if_read :
      (hangs : Bool) (t : TlmPayload) (w : Bench) (s : TlmPayload × Bench) (u : ℕ × Bench)
      → word_in t ≡ no_word
      → (word_in s.0 ≡ u.0) × (s.1 ≡ u.1)
      → let r = if hangs then (t, w) else s in
        let v = if hangs then (no_word, w) else u in (word_in r.0 ≡ v.0) × (r.1 ≡ v.1)
  if_read true t w s u n e = (n, refl)
  if_read false t w s u n e = e

  no_answer : (t : TlmPayload) → t.response_status ≡ tlm_incomplete_response → word_in t ≡ no_word
  unfolding status_of
  no_answer t e = rw e refl

  router_writes :
      (t : TlmPayload) (w : Bench)
      → Requests t
      → t.command ≡ tlm_write_command
      → (b_transport mem dbg t w).1 ≡ bench_write mem (number_at t.bytes 0 4) t.address w
  unfolding b_transport bench_write
  router_writes t w h c = if_write w.blocked t w _ _ (transported_writes t w h c)

  router_reads :
      (t : TlmPayload) (w : Bench)
      → Requests t
      → t.command ≡ tlm_read_command
      → let (r, u) = b_transport mem dbg t w in
        (word_in r ≡ (bench_read mem t.address w).0) × (u ≡ (bench_read mem t.address w).1)
  unfolding b_transport bench_read
  router_reads t w h c = if_read w.blocked t w _ _ (no_answer t h.1) (transported_reads t w h c)

  -- The simulated firewall, which refuses the addresses outside its windows, does the accesses of
  -- the bench: its response to any request of four bytes is what the driver finds in the registers.
  pub router-Replies : Replies (firewall_router mem dbg) (bench mem)
  router-Replies = record { replies_write = router_writes; replies_read = router_reads }

sc_read_value-read_value : (r : AccessDs) → sc_read_value r ≡ read_value r
unfolding read_value sc_read_value
sc_read_value-read_value r = refl

-- The packet of a read is not the word that ends the simulation.
packet_word-stays :
    (p d : Port) (r : AccessDs) → Route r p d → r.op_code ≢ 0 → packet_word r ≢ exit_word
packet_word-stays p d r route op =
    let opcode : range (read_value r) 21 20 ≡ 1 =
      ap (λ k. k.opcode) (read_packet-read_value r (Route-IsAddress route)) in
    let same = sc_read_value-read_value r in ground (arith, opcode, same)

module _ (mem : ℕ → ℕ) (dbg : TlmPayload → Bench → ℕ × TlmPayload × Bench)
    (post : SimpleAsyncPacket → Simulation Bench → Simulation Bench)
    (attach : Simulation Bench → Option (SimpleAsyncPacket × Simulation Bench)) where
  abbrev os : ShmOs (Simulation Bench)
  os = demo mem dbg post attach

  demo-Implements :
      Implements
        (access os)
        (bench mem)
        (Mapped Idle world_of)
        (CanStart Idle world_of (mapping os))
        (view_of Idle world_of)
  unfolding access
  demo-Implements =
      answers-Implements os.port Idle world_of (bench mem)
        (round-Answers (firewall_router mem dbg) (bench mem) (router-Replies mem dbg)) (mapping os)
        0 (omega arith)

  starts :
      (s : Simulation Bench) (q : SimpleAsyncPacket) (n : ℕ)
      → Idle s
      → attach s ≡ some (q, s)
      → CanStart Idle world_of (mapping os) (record { shptr = none; id_counter = n; world = s })
  unfolding mapping
  starts s q n i e = ((q, e), i)

  -- The whole call of a read by a process of the demonstration, on the simulated firewall in which
  -- nothing waits at first: through the virtual driver over shared memory, the channel and the
  -- socket, to b_transport and the module behind it. The write of the packet waits in b_transport
  -- for m_write_ended_event, and the rounds that the packet and its response take part in come
  -- while it waits, up to the response thread's, which ends the wait. So the simulation answers
  -- the write, the first poll finds the response, and the call ends, with the low 16 bits of the
  -- memory word as the result, and leaves the module with nothing waiting and no call of
  -- b_transport that never returned. The process maps the memory, which leaves the idle simulation
  -- as it is. It holds for a packet for ports that exist and an address below 256 words, an input
  -- port that takes it and lets it in, an idle output port, a memory word below 2^32, and fuel
  -- above 0.
  pub sc_access_bram_fw-delivered :
      (p d : Port) (g : Firewall) (r : AccessDs) (fuel x n : ℕ) (q : SimpleAsyncPacket)
      (s : Simulation Bench)
      → Idle s
      → attach s ≡ some (q, s)
      → s.world ≡ started mem p d g r x
      → Route r p d
      → r.op_code ≢ 0
      → Takes (g.input p) (offered p g (read_value r)) (read_value r)
      → IsWelcome (g.input p) (offered p g (read_value r)) (read_value r)
      → (g.output d).preready ≡ false
      → mem (bram d + 4 * r.addr) < 2 ^ 32
      → 0 < fuel
      → (t : Bench) × (seen (Mapped Idle world_of) (view_of Idle world_of) (
            sc_access_bram_fw
              (demo mem dbg post attach)
              fuel
              r
              (record { shptr = none; id_counter = n; world = s }))
          ≡ done (record r { word = mem (bram d + 4 * r.addr) % 2 ^ 16 }) t)
        × (t.blocked ≡ false)
        × (quiet t.firewall ≡ t.firewall)
  unfolding sc_access_bram_fw
  sc_access_bram_fw-delivered p d g r fuel x n q s i e holds route op takes welcome idle small
        enough =
      let c : Client (Simulation Bench) = record { shptr = none; id_counter = n; world = s } in
      let (t, ends, free, _, rests) =
        access_bram_fw-delivered mem p d g r fuel 0 x route op takes welcome idle small enough in
      (
        t,
        (sc_access_bram_fw-access_bram_fw demo-Implements fuel r c
              (packet_word-stays p d r route op) (starts s q n i e)).0
            ∙ ap (access_bram_fw (bench mem) fuel 0 r) holds
            ∙ ends,
        free,
        rests,
      )
