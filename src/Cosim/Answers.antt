-- ===== src/Cosim/Answers.antt =====
-- A target that may refuse an access, behind the co-simulation: what sc_ioread32 makes of the
-- response to a request.
use sc_co_si_m.Prelude.{
  ℕ, ◌^◌, ◌<◌, ◌≡◌, refl, ap, ◌∙◌, arith, some, ◌==◌, Bool-cases, inl, inr, if◌then◌else◌,
}
use sc_co_si_m.Driver.Machine.{Device}
use sc_co_si_m.Channel.Packet.{AsyncPacket, number_at}
use sc_co_si_m.Virtual.Packet.{
  SimpleAsyncPacket, async_read, async_write, async_ok_response, response_word,
}
use sc_co_si_m.Virtual.Semaphore.Laws.{Answers}
use sc_co_si_m.Cosim.Tlm.{tlm_read_command, tlm_write_command, TlmPayload, Target}
use sc_co_si_m.Cosim.Sysc.{Simulation, status_of, answer}
use sc_co_si_m.Cosim.Os.{os_response}
use sc_co_si_m.Cosim.Round.{round}
use sc_co_si_m.Cosim.Round.Laws.{Idle, packet_of, transported, round_answers}
use sc_co_si_m.Cosim.Request.{
  Requests, request, transported_read, transported_write, word-byte, world_of,
}

-- What sc_ioread32 returns in the end of a payload that the target gives back.
abbrev pub word_in : TlmPayload → ℕ
word_in t =
    if status_of t.response_status == async_ok_response then number_at t.bytes 0 4 else 0xFFFFFFFF

-- The target does the accesses of the device `d` for words; a read may be refused, and then the
-- device's word is what sc_ioread32 makes of the refusal.
pub record Replies {W : Type 0} (target : Target W) (d : Device W) : Type 0 where
  pub replies_write :
      (t : TlmPayload) (w : W)
      → Requests t
      → t.command ≡ tlm_write_command
      → (target.b_transport t w).1 ≡ d.iowrite32 (number_at t.bytes 0 4) t.address w
  pub replies_read :
      (t : TlmPayload) (w : W)
      → Requests t
      → t.command ≡ tlm_read_command
      → let (r, u) = target.b_transport t w in
        (word_in r ≡ (d.ioread32 t.address w).0) × (u ≡ (d.ioread32 t.address w).1)

response_word-answer :
    (p : SimpleAsyncPacket) (a : AsyncPacket) (t : TlmPayload)
    → response_word (os_response p (some (answer a t))) ≡ word_in t
unfolding response_word os_response answer
response_word-answer p a t = elim (Bool-cases (status_of t.response_status == async_ok_response)) [
  | inl e ↦ rw (e, e) refl
  | inr e ↦ rw (e, e) refl
]

module _ {W : Type 0} (target : Target W) (d : Device W) (replies : Replies target d) where
  writes :
      (p : SimpleAsyncPacket) (s : Simulation W)
      → p.command ≡ async_write
      → p.word < 2 ^ 32
      → (transported target p s).1 ≡ d.iowrite32 p.word p.address s.world
  writes p s c h =
      ap (λ x. x.1) (transported_write target p s c)
      ∙ replies.replies_write (request target tlm_write_command p) s.world (refl, refl) refl
      ∙ ap (λ v. d.iowrite32 v p.address s.world) (word-byte p.word h)

  reads :
      (p : SimpleAsyncPacket) (s : Simulation W)
      → p.command ≡ async_read
      → (word_in (transported target p s).0 ≡ (d.ioread32 p.address s.world).0)
        × ((transported target p s).1 ≡ (d.ioread32 p.address s.world).1)
  reads p s c =
      rw (transported_read target p s c)
        (replies.replies_read (request target tlm_read_command p) s.world (refl, refl) refl)

  -- A pass of the co-simulation over a target that does the accesses of a device, or refuses them,
  -- answers for that device: from an idle channel, a write request is the device's write of its
  -- word at its address, and a read request comes back with a status and data of which sc_ioread32
  -- makes the device's word, and the channel is idle again.
  pub round-Answers : Answers (round target) Idle world_of d
  round-Answers = record {
    write_answered = λ p s i c hw ha.
        let (t, e, j, f) = round_answers target p s i (omega (arith, c)) in
        (_, t, e, j, f ∙ writes p s c hw);
    read_answered = λ p s i c hw ha.
        let (t, e, j, f) = round_answers target p s i (omega (arith, c)) in
        let (word, world) = reads p s c in
        (
          _,
          t,
          e,
          j,
          response_word-answer p (packet_of p s) (transported target p s).0 ∙ word,
          f ∙ world,
        );
  }
