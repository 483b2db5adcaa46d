-- ===== src/System/Driven/Laws.antt =====
-- A read of the driver on the module, from the call to its return.
use sc_co_si_m.Prelude.{
  range, u32, ℕ, ◌+◌, ◌*◌, ◌%◌, ◌^◌, ◌<◌, ◌≡◌, ◌≢◌, refl, sym, ap, ◌∙◌, true, false, List, [], ◌∷◌,
  ◌++◌, arith, some,
}
use mathlib.Core.Path.{subst}
use sc_co_si_m.Firewall.Packet.{Port}
use sc_co_si_m.Firewall.Input.Laws.{stamp, Takes, IsWelcome}
use sc_co_si_m.Firewall.Output.{bram, response}
use sc_co_si_m.Firewall.Transport.{fetch}
use sc_co_si_m.Firewall.Module.{Firewall, Event, bus_write, enters, responds, step, run}
use sc_co_si_m.Firewall.Module.Quiet.{no_words, quiet, put_at-same}
use sc_co_si_m.Firewall.Module.Stages.{offered}
use sc_co_si_m.Driver.Machine.{done}
use sc_co_si_m.Driver.Map.{word_at, access_base}
use sc_co_si_m.Driver.Packets.{AccessDs, read_value, print_data, access_bram_fw}
use sc_co_si_m.Driver.Packets.Laws.{later, access_bram_fw-read, print_data_lem}
use sc_co_si_m.System.AddressMap.{base_of, access_base-ReadsFrom}
use sc_co_si_m.System.Access.{Route, read_request, settled}
use sc_co_si_m.System.Delivery.{
  served, awaiting, answered, answer, after_asked, after_served, after_carried, carried, responding,
  run_join,
}
use sc_co_si_m.System.Driven.{
  Bench, admit_read, admit_write, bench_read, bench_write, bench, signals, write_and_wait,
}
use sc_co_si_m.Firewall.Response.Laws.{section-responce}
use sc_co_si_m.Firewall.Module.Ends.{ended, ended-last, notifies, response_ends}

module _ (mem : ℕ → ℕ) (p : Port) where
  abbrev response_register : ℕ
  response_register = word_at (base_of p) 7

  fetch_response :
      (f : Firewall) (x : ℕ) → fetch (signals mem f) response_register x ≡ f.in_responce p
  unfolding fetch
  fetch_response f x = rw (fetch, (access_base-ReadsFrom p).2.1) refl

  -- The bench when the rounds that were listed are made, and no write hangs.
  abbrev pub still : Firewall → ℕ → Bench
  still f y = record { firewall = f; register_read = y; later_rounds = []; blocked = false }

  read_response :
      (f : Firewall) (y : ℕ)
      → bench_read mem response_register (still f y)
        ≡ (u32 (f.in_responce p), still f (f.in_responce p))
  unfolding bench_read admit_read run
  read_response f y =
      rw (bench_read, admit_read, (access_base-ReadsFrom p).2.0, fetch_response f y) refl

module _ (mem : ℕ → ℕ) (p d : Port) (g : Firewall) (r : AccessDs) where
  -- The rounds that the packet and its answer take part in, of which the last ends the write.
  abbrev pub rounds : List Event
  rounds = (enters p true ∷ responds p true true ∷ carried mem p d g r) ++ responds d true true ∷ []

  abbrev pub started : ℕ → Bench
  started x = record {
    firewall = quiet g;
    register_read = x;
    later_rounds = rounds ∷ [];
    blocked = false;
  }

  abbrev shown : ℕ
  shown = answer mem p d g r % 2 ^ 31

  abbrev served_bench : ℕ → Bench
  served_bench y = still mem p (answered mem p d g r) y

  -- The write thread's round, and the rounds up to the answer.
  abbrev asking : Firewall
  asking = (step (bus_write (word_at (base_of p) 5) (read_value r)) (quiet g)).1

  answer_ends :
      Route r p d
      → mem (bram d + 4 * r.addr) < 2 ^ 32
      → notifies (responds d true true) (responding mem p d g r) ≡ true
  unfolding notifies response_ends answer
  answer_ends route small =
      let w = stamp p (read_value r) in
      let m = mem (bram d + range w 31 22) in
      let (_, _, at, source) = read_request r p d route in
      let (word, back, _, _) = settled w m (rw at small) in
      rw
        (
          put_at-same d (response w m ∷ []) no_words,
          section-responce d p (response w m) word (back ∙ source),
        )
        refl

  rounds-run :
      Route r p d
      → Takes (g.input p) (offered p g (read_value r)) (read_value r)
      → IsWelcome (g.input p) (offered p g (read_value r)) (read_value r)
      → (g.output d).preready ≡ false
      → mem (bram d + 4 * r.addr) < 2 ^ 32
      → ((run rounds asking).1 ≡ answered mem p d g r) × (ended rounds asking ≡ true)
  unfolding run
  rounds-run route takes welcome idle small =
      let first = enters p true ∷ responds p true true ∷ [] in
      let asked = ap (λ c. c.1) ((after_asked mem p d g r route takes welcome).runs) in
      let ready =
        run_join first (carried mem p d g r) asking
        ∙ ap (λ f. (run (carried mem p d g r) f).1) asked
        ∙ ap (λ c. c.1) ((after_carried mem p d g r route idle).runs) in
      (
        run_join first (served mem p d g r) asking
            ∙ ap (λ f. (run (served mem p d g r) f).1) asked
            ∙ ap (λ c. c.1) ((after_served mem p d g r route idle small).runs),
        ended-last (first ++ carried mem p d g r) (responds d true true) asking (
            subst (λ f. notifies (responds d true true) f ≡ true) (sym ready)
              (answer_ends route small)),
      )

  writes_request :
      (x : ℕ)
      → Route r p d
      → Takes (g.input p) (offered p g (read_value r)) (read_value r)
      → IsWelcome (g.input p) (offered p g (read_value r)) (read_value r)
      → (g.output d).preready ≡ false
      → mem (bram d + 4 * r.addr) < 2 ^ 32
      → bench_write mem (read_value r) (word_at (base_of p) 5) (started x) ≡ served_bench x
  unfolding bench_write admit_write write_and_wait
  writes_request x route takes welcome idle small =
      let (ran, ends) = rounds-run route takes welcome idle small in
      let (admitted, target) = (access_base-ReadsFrom p).1 in
      rw (bench_write, admit_write, admitted) (rw (write_and_wait, ran, ends, target) refl)

  reads_answer :
      (y : ℕ)
      → bench_read mem (word_at (base_of p) 7) (served_bench y) ≡ (shown, served_bench shown)
  unfolding run
  reads_answer y =
      let held : (answered mem p d g r).in_responce p ≡ shown =
        put_at-same p shown (awaiting mem p d g r).in_responce in
      let word : u32 shown ≡ shown = omega arith in
      read_response mem p (answered mem p d g r) y ∙ rw (held, word) refl

  -- The driver's whole call of a read, by any user, on the module in which nothing waits at first.
  -- The write of the packet waits in b_transport for m_write_ended_event, and the rounds that the
  -- packet and its response take part in come while it waits, up to the response thread's, which
  -- ends the wait. So the write returns, the first poll finds the response, and the call ends,
  -- with the low 16 bits of the memory word as the result, and leaves the module with nothing
  -- waiting, and as it was but for what the input port, the switches, the output port and the
  -- response thread change for one answered read. It holds for a packet for ports that exist and
  -- an address below 256 words, an input port that takes it and lets it in, an idle output port, a
  -- memory word below 2^32, and fuel above 0.
  pub access_bram_fw-delivered :
      (fuel gid x : ℕ)
      → Route r p d
      → r.op_code ≢ 0
      → Takes (g.input p) (offered p g (read_value r)) (read_value r)
      → IsWelcome (g.input p) (offered p g (read_value r)) (read_value r)
      → (g.output d).preready ≡ false
      → mem (bram d + 4 * r.addr) < 2 ^ 32
      → 0 < fuel
      → (t : Bench) × (access_bram_fw (bench mem) fuel gid r (started x)
          ≡ done (record r { word = mem (bram d + 4 * r.addr) % 2 ^ 16 }) t)
        × (t.blocked ≡ false)
        × (t.firewall ≡ answered mem p d g r)
        × (quiet t.firewall ≡ t.firewall)
  unfolding answer later
  access_bram_fw-delivered fuel gid x route op takes welcome idle small enough =
      let w = stamp p (read_value r) in
      let a = word_at (base_of p) 7 in
      let m = mem (bram d + 4 * r.addr) in
      let (_, _, at, _) = read_request r p d route in
      let (word, _, low, pends) = settled w m small in
      let value : answer mem p d g r ≡ response w m = rw at refl in
      let wrote = writes_request x route takes welcome idle small in
      let b = started x in
      let t = served_bench shown in
      (
        t,
        access_bram_fw-read (bench mem) fuel gid 0 (base_of p) shown r b t op
              (subst (λ k. access_base k ≡ some (base_of p)) (sym route.enters)
                (access_base-ReadsFrom p).0)
              enough tt (ap (bench_read mem a) wrote ∙ reads_answer x)
              (λ k. pends (ap (λ c. c % 2 ^ 31) (sym value) ∙ k)) (omega arith)
            ∙ ap (λ k. done (record r { word = k }) t)
                (sym (print_data_lem shown (omega arith))
                  ∙ ap (λ k. print_data (k % 2 ^ 31)) value
                  ∙ low),
        refl,
        refl,
        refl,
      )
