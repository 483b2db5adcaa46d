-- ===== src/Firewall/Module/Writes.antt =====
-- The stages of a write that goes through a quiet module: one event each.
use sc_co_si_m.Prelude.{
  ℕ, ◌+◌, ◌≡◌, refl, ap, ◌∙◌, true, false, none, some, [], ◌∷◌, ◌==◌, range, set_range,
  if◌then◌else◌, u32, map, arith,
}
use sc_co_si_m.Firewall.Packet.{Port}
use sc_co_si_m.Firewall.Input
use sc_co_si_m.Firewall.Input.{InPort, is_read}
use sc_co_si_m.Firewall.Input.Laws.{stamp, Takes, IsWelcome, thread_no_read}
use mathlib.Core.Path.{fun_ext}
use sc_co_si_m.Firewall.Switch.{Link}
use sc_co_si_m.Firewall.Switch.Laws.{in_fifo, out_fifo}
use sc_co_si_m.Firewall.Output
use sc_co_si_m.Firewall.Output.{OutPort, bram, execute, interface_out, take_out}
use sc_co_si_m.Firewall.Output.Laws.{thread_lem}
use sc_co_si_m.Firewall.Module.{
  Firewall, put_at, put_link, left, nb_read, head, sample, input_action, input_actions,
  output_actions, enter, leave, enters, leaves, step,
}
use sc_co_si_m.Firewall.Module.Quiet.{
  no_words, quiet, only, put_at-same, put_link-same, put_link-emptied,
}
use sc_co_si_m.Firewall.Module.Ends.{notifies, output_ends}
use sc_co_si_m.Firewall.Module.Stages.{offered, cleared}

-- The first round of a write at a port.
thread_stores :
    (mem : ℕ → ℕ) (p : Port) (s : OutPort) (w : ℕ)
    → s.preready ≡ false
    → (range w 21 20 == 1) ≡ false
    → let a = bram p + range w 31 22 in
      Output.thread mem p s false (some w) ≡ (
        record { preready = true; is_write_op = true },
        Output.mem_write a (range w 15 0) ∷ Output.out_addr_to_read a ∷ Output.ready true ∷ [],
      )
unfolding interface_out take_out execute
thread_stores mem p s w idle op =
    let low : set_range 0 15 0 (range w 15 0) ≡ range w 15 0 = omega arith in
    rw (thread_lem mem p s false (some w), idle, op, low) refl

put_link-empty : (l : Link) → put_link l [] no_words ≡ no_words
put_link-empty l = fun_ext λ k. ground arith

module _ (p : Port) (g : Firewall) where
  pub enters_write :
      (v : ℕ)
      → Takes (g.input p) (offered p g v) v
      → IsWelcome (g.input p) (offered p g v) v
      → is_read v ≡ false
      → let s = g.input p in
        step (enters p true) (record (quiet g) { waiting = put_at p (v ∷ []) no_words }) ≡ (
          [],
          record (quiet g) {
            input =
                put_at p (record s { preval = v; count_total = u32 (s.count_total + 1) }) g.input;
            links = only (in_fifo p) (stamp p v);
          },
        )
  unfolding step enter sample input_actions input_action
  enters_write v t k r =
      let f = record (quiet g) { waiting = put_at p (v ∷ []) no_words } in
      let s = g.input p in
      let read : Input.thread p s (sample p true f) ≡ (
        record s { preval = v; count_total = u32 (s.count_total + 1) },
        Input.read_in ∷ Input.total (u32 (s.count_total + 1)) ∷ Input.in_fifo (stamp p v) ∷ [],
      ) =
        ap (λ ws. Input.thread p s (record (offered p g v) { waiting = head ws }))
          (put_at-same p (v ∷ []) no_words)
        ∙ thread_no_read p s (offered p g v) v t k r in
      ap (λ r. ([], input_actions p true r.1 (record f { input = put_at p r.0 g.input }))) read
      ∙ ap
          (λ ws. (
            [],
            record (quiet g) {
              waiting = ws;
              input =
                  put_at p (record s { preval = v; count_total = u32 (s.count_total + 1) }) g.input;
              links = only (in_fifo p) (stamp p v);
            },
          ))
          (cleared p g v)

  -- Here `p` is the port by which the word leaves.
  pub leaves_write :
      (mem : ℕ → ℕ) (w : ℕ)
      → (g.output p).preready ≡ false
      → (range w 21 20 == 1) ≡ false
      → let a = bram p + range w 31 22 in
        step (leaves mem p false true) (record g { links = only (out_fifo p) w }) ≡ (
          (p, Output.mem_write a (range w 15 0))
              ∷ (p, Output.out_addr_to_read a)
              ∷ (p, Output.ready true)
              ∷ [],
          record g {
            output = put_at p (record { preready = true; is_write_op = true }) g.output;
            links = no_words;
          },
        )
  unfolding step leave output_actions interface_out take_out execute
  leaves_write mem w idle op =
      let f = record g { links = only (out_fifo p) w } in
      let ws = only (out_fifo p) w in
      ap
        (λ c.
          let seen = if c then false else true in
          let (s, out) = Output.thread mem p (g.output p) false (nb_read seen (ws (out_fifo p))) in
          (
            map (λ a. (p, a)) out,
            output_actions p out (record f {
              output = put_at p s g.output;
              links = put_link (out_fifo p) (left seen (ws (out_fifo p))) ws;
            }),
          ))
        idle
      ∙ rw
          (
            put_link-same (out_fifo p) (w ∷ []) no_words,
            thread_stores mem p (g.output p) w idle op,
            put_link-emptied (out_fifo p) (w ∷ []),
          )
          refl

  -- The memory is done with the write.
  pub leaves_done :
      (mem : ℕ → ℕ)
      → (g.output p) ≡ record { preready = true; is_write_op = true }
      → step (leaves mem p true false) (record g { links = no_words }) ≡ (
        (p, Output.ready false) ∷ (p, Output.write_ended) ∷ [],
        record g {
          output = put_at p (record { preready = false; is_write_op = true }) g.output;
          links = no_words;
        },
      )
  unfolding step leave output_actions interface_out take_out execute
  leaves_done mem e =
      rw
        (
          e,
          thread_lem mem p (record { preready = true; is_write_op = true }) true none,
          put_link-empty (out_fifo p),
        )
        refl

  pub done_notifies :
      (mem : ℕ → ℕ)
      → (g.output p) ≡ record { preready = true; is_write_op = true }
      → notifies (leaves mem p true false) g ≡ true
  unfolding notifies output_ends leave interface_out
  done_notifies mem e =
      rw (e, thread_lem mem p (record { preready = true; is_write_op = true }) true none) refl
