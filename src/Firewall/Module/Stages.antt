-- ===== src/Firewall/Module/Stages.antt =====
-- The stages of a read that goes through a quiet module: one event each.
use sc_co_si_m.Prelude.{
  ℕ, ◌+◌, ◌≡◌, refl, ap, ◌∙◌, true, false, none, some, [], ◌∷◌, range, if◌then◌else◌, u32, map,
}
use sc_co_si_m.Firewall.Packet.{Port}
use sc_co_si_m.Firewall.Registers.{packet, execute_write}
use sc_co_si_m.Firewall.Input
use sc_co_si_m.Firewall.Input.{InPort, Sample, is_read}
use sc_co_si_m.Firewall.Input.Laws.{stamp, Takes, IsWelcome, thread_read}
use sc_co_si_m.Firewall.Switch.Laws.{in_fifo, out_fifo}
use sc_co_si_m.Firewall.Output
use sc_co_si_m.Firewall.Output.{OutPort, bram, response}
use sc_co_si_m.Firewall.Output.Laws.{thread-read}
use sc_co_si_m.Firewall.Response
use sc_co_si_m.Firewall.Response.{section}
use sc_co_si_m.Firewall.Module.{
  Firewall, put_at, put_link, left, nb_read, head, sample, input_action, input_actions,
  output_actions, response_actions, enqueue, enter, leave, respond, bus_write, enters, leaves,
  responds, step,
}
use sc_co_si_m.Firewall.Module.Quiet.{
  no_words, quiet, only, put_at-same, put_at-empty, put_at-emptied, put_link-same, put_link-emptied,
}

-- What the input port reads in a quiet module, with the packet `v` in its in_k.
abbrev pub offered : Port → Firewall → ℕ → Sample
offered p g v = record {
  rule_range = (g.installed p).range.rule;
  lower_range = (g.installed p).range.lower;
  upper_range = (g.installed p).range.upper;
  waiting = some v;
  responce = g.responce_s p;
  num_free = 10;
}

module _ (p : Port) (g : Firewall) where
  pub arrives :
      (a v : ℕ)
      → execute_write a ≡ packet p
      → step (bus_write a v) (quiet g)
        ≡ ([], record (quiet g) { waiting = put_at p (v ∷ []) no_words })
  unfolding step enqueue
  arrives a v e = rw e refl

  pub cleared :
      (w : ℕ)
      → put_at p (left true (put_at p (w ∷ []) no_words p)) (put_at p (w ∷ []) no_words) ≡ no_words
  cleared w = rw (put_at-same p (w ∷ []) no_words) (put_at-emptied p (w ∷ []))

  pub enters_read :
      (v : ℕ)
      → Takes (g.input p) (offered p g v) v
      → IsWelcome (g.input p) (offered p g v) v
      → is_read v ≡ true
      → let s = g.input p in
        step (enters p true) (record (quiet g) { waiting = put_at p (v ∷ []) no_words }) ≡ (
          [],
          record (quiet g) {
            input =
                put_at p (record s { preval = v; count_total = u32 (s.count_total + 1) }) g.input;
            links = only (in_fifo p) (stamp p v);
            init_responce_fifo = put_at p (0x80000000 ∷ []) no_words;
          },
        )
  unfolding step enter sample input_actions input_action
  enters_read v t k r =
      let f = record (quiet g) { waiting = put_at p (v ∷ []) no_words } in
      let s = g.input p in
      let read : Input.thread p s (sample p true f) ≡ (
        record s { preval = v; count_total = u32 (s.count_total + 1) },
        Input.read_in
            ∷ Input.total (u32 (s.count_total + 1))
            ∷ Input.init_responce 0x80000000
            ∷ Input.in_fifo (stamp p v)
            ∷ [],
      ) =
        ap (λ ws. Input.thread p s (record (offered p g v) { waiting = head ws }))
          (put_at-same p (v ∷ []) no_words)
        ∙ thread_read p s (offered p g v) v t k r in
      ap (λ r. ([], input_actions p true r.1 (record f { input = put_at p r.0 g.input }))) read
      ∙ ap
          (λ ws. (
            [],
            record (quiet g) {
              waiting = ws;
              input =
                  put_at p (record s { preval = v; count_total = u32 (s.count_total + 1) }) g.input;
              links = only (in_fifo p) (stamp p v);
              init_responce_fifo = put_at p (0x80000000 ∷ []) no_words;
            },
          ))
          (cleared v)

  pub responds_init :
      (c : ℕ)
      → step
          (responds p true true)
          (record g { init_responce_fifo = put_at p (c ∷ []) no_words; responce_fifo = no_words })
        ≡ (
          [],
          record g {
            init_responce_fifo = no_words;
            responce_fifo = no_words;
            responce_s = put_at p c g.responce_s;
            in_responce = put_at p c g.in_responce;
          },
        )
  unfolding step respond response_actions section
  responds_init c =
      rw (put_at-same p (c ∷ []) no_words, put_at-emptied p (c ∷ []), put_at-empty p) refl

  -- Here `p` is the port by which the word leaves.
  pub leaves_read :
      (mem : ℕ → ℕ) (w : ℕ)
      → (g.output p).preready ≡ false
      → range w 21 20 ≡ 1
      → let r = response w (mem (bram p + range w 31 22)) in
        step
          (leaves mem p false true)
          (record g { links = only (out_fifo p) w; responce_fifo = no_words })
        ≡ (
          (p, Output.responce_fifo r) ∷ [],
          record g {
            output = put_at p (record (g.output p) { is_write_op = false }) g.output;
            links = no_words;
            responce_fifo = put_at p (r ∷ []) no_words;
          },
        )
  unfolding step leave output_actions
  leaves_read mem w idle op =
      let f = record g { links = only (out_fifo p) w; responce_fifo = no_words } in
      let ws = only (out_fifo p) w in
      ap
        (λ c.
          let seen = if c then false else true in
          let (s, out) = Output.thread mem p (g.output p) false (nb_read seen (ws (out_fifo p))) in
          (
            map (λ a. (p, a)) out,
            output_actions p out (record f {
              output = put_at p s g.output;
              links = put_link (out_fifo p) (left seen (ws (out_fifo p))) ws;
            }),
          ))
        idle
      ∙ rw
          (
            put_link-same (out_fifo p) (w ∷ []) no_words,
            thread-read mem p (g.output p) w idle op,
            put_link-emptied (out_fifo p) (w ∷ []),
          )
          refl

  -- Here `p` is the port whose response it is, and `d` the port it is for.
  pub responds_answer :
      (d : Port) (r v : ℕ)
      → section p none (some r) ≡ Response.deliver d v ∷ Response.write_ended ∷ []
      → step
          (responds p true true)
          (record g { init_responce_fifo = no_words; responce_fifo = put_at p (r ∷ []) no_words })
        ≡ (
          [],
          record g {
            init_responce_fifo = no_words;
            responce_fifo = no_words;
            responce_s = put_at d v g.responce_s;
            in_responce = put_at d v g.in_responce;
          },
        )
  unfolding step respond response_actions
  responds_answer d r v e =
      rw (put_at-same p (r ∷ []) no_words, e, put_at-emptied p (r ∷ []), put_at-empty p) refl
