-- ===== src/Cosim/Round/Laws.antt =====
-- A request is answered as the target answers it, and the command to end is never answered.
use sc_co_si_m.Prelude.{
  ℕ, ◌≡◌, ◌≢◌, refl, ap, ◌∙◌, arith, Bool, true, false, none, some, List, [], ◌==◌,
}
use mathlib.Core.Path.{subst⁻¹}
use sc_co_si_m.Channel.Packet.{AsyncPacket, byte, new_async_packet}
use sc_co_si_m.Channel.Async.{back, pop_back, push, nb_get, nb_put, wait_for_put, nb_pull, update}
use sc_co_si_m.Virtual.Packet.{SimpleAsyncPacket, async_exit}
use sc_co_si_m.Cosim.Tlm.{TlmPayload, Target}
use sc_co_si_m.Cosim.Sysc.{Simulation, transport, answer, serve_packet, sysc_pass}
use sc_co_si_m.Cosim.Os.{os_request, os_response, os_reply}
use sc_co_si_m.Cosim.Round.{sysc_turn, round}

-- Between two requests: both queues are empty, the outer thread would wait, SystemC is running.
pub record Idle {W : Type 0} (s : Simulation W) : Type 0 where
  pub none_to_sysc : s.channel.queue_to_sysc ≡ []
  pub none_fm_sysc : s.channel.queue_fm_sysc ≡ []
  pub waits : s.channel.wait_put ≡ true
  pub running : s.stopped ≡ false

-- The packet that a request becomes.
abbrev pub packet_of : {W : Type 0} → SimpleAsyncPacket → Simulation W → AsyncPacket
packet_of p s = new_async_packet s.s_id p.command p.address 4 (byte p.word)

no_exit : (c : ℕ) → c ≢ async_exit → (c == async_exit) ≡ false
no_exit c n = ground arith

-- A simulation with the fields that make it idle put in.
abbrev with_fields :
    {W : Type 0} → Simulation W → List AsyncPacket → List AsyncPacket → Bool → Bool → Simulation W
with_fields s to_sysc fm_sysc waits stopped = record s {
  channel = record s.channel { queue_to_sysc = to_sysc; queue_fm_sysc = fm_sysc; wait_put = waits };
  stopped = stopped;
}

abbrev quiet : {W : Type 0} → Simulation W → Simulation W
quiet s = with_fields s [] [] true false

is_quiet : {W : Type 0} (s : Simulation W) → Idle s → s ≡ quiet s
is_quiet s i =
    ap (λ a. with_fields s a s.channel.queue_fm_sysc s.channel.wait_put s.stopped) (i.none_to_sysc)
    ∙ ap (λ a. with_fields s [] a s.channel.wait_put s.stopped) (i.none_fm_sysc)
    ∙ ap (λ a. with_fields s [] [] a s.stopped) (i.waits)
    ∙ ap (λ a. with_fields s [] [] true a) (i.running)

module _ {W : Type 0} (target : Target W) where
  -- What the target makes of a request.
  abbrev pub transported : SimpleAsyncPacket → Simulation W → TlmPayload × W
  transported p s = transport target (packet_of p s) s.command s.world

  abbrev pub Answered : SimpleAsyncPacket → Simulation W → Type 0
  Answered p s =
      (t : Simulation W) × (round target p s
        ≡ some (os_response p (some (answer (packet_of p s) (transported p s).0)), t))
      × Idle t
      × (t.world ≡ (transported p s).1)

  answers_quiet :
      (p : SimpleAsyncPacket) (s : Simulation W)
      → (p.command == async_exit) ≡ false
      → Answered p (quiet s)
  unfolding round sysc_turn sysc_pass serve_packet os_request os_reply push update nb_get nb_put
      wait_for_put nb_pull back pop_back answer new_async_packet
  answers_quiet p s e = rw e (
    _,
    refl,
    record { none_to_sysc = refl; none_fm_sysc = refl; waits = refl; running = refl },
    refl,
  )

  -- From an idle channel, every request but the one to end is answered within one pass, with what
  -- the target makes of its payload, and the channel is idle again.
  pub round_answers :
      (p : SimpleAsyncPacket) (s : Simulation W) → Idle s → p.command ≢ async_exit → Answered p s
  round_answers p s i ne =
      subst⁻¹ (Answered p) (is_quiet s i) (answers_quiet p s (no_exit p.command ne))

  -- Once SystemC has stopped, nothing is answered.
  pub round_stopped :
      (p : SimpleAsyncPacket) (s : Simulation W)
      → s.channel.wait_put ≡ true
      → s.stopped ≡ true
      → round target p s ≡ none
  unfolding round sysc_turn os_request os_reply push update wait_for_put
  round_stopped p s w e = rw (round, e, w) refl

  abbrev pub Hangs : SimpleAsyncPacket → Simulation W → Type 0
  Hangs p s = ((sysc_turn target (os_request p s)).stopped ≡ true) × (round target p s ≡ none)

  ends_quiet :
      (p : SimpleAsyncPacket) (s : Simulation W)
      → (p.command == async_exit) ≡ true
      → Hangs p (quiet s)
  unfolding round sysc_turn sysc_pass serve_packet os_request os_reply push update nb_get
      wait_for_put back pop_back new_async_packet
  ends_quiet p s e = rw e (refl, refl)

  -- From an idle channel, the request to end the simulation stops the SystemC process, and it is
  -- never answered: the thread that took it waits for ever.
  pub round_exit :
      (p : SimpleAsyncPacket) (s : Simulation W) → Idle s → p.command ≡ async_exit → Hangs p s
  round_exit p s i e = subst⁻¹ (Hangs p) (is_quiet s i) (ends_quiet p s (ground (arith, e)))
