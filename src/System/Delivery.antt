-- ===== src/System/Delivery.antt =====
-- A read from the driver in the whole module of the firewall, event by event.
use sc_co_si_m.Prelude.{
  ℕ, ◌+◌, ◌*◌, ◌%◌, ◌^◌, ◌<◌, ◌≡◌, refl, ap, ◌∙◌, true, false, List, [], ◌∷◌, ◌++◌, arith, range,
  u32,
}
use sc_co_si_m.Firewall.Packet.{Port}
use sc_co_si_m.Firewall.Input.{is_read}
use sc_co_si_m.Firewall.Input.Laws.{stamp, Takes, IsWelcome}
use sc_co_si_m.Firewall.Switch.{rotate}
use sc_co_si_m.Firewall.Switch.Laws.{in_fifo, out_fifo}
use sc_co_si_m.Firewall.Output
use sc_co_si_m.Firewall.Output.{bram, response}
use sc_co_si_m.Firewall.Response.Laws.{section-responce}
use sc_co_si_m.Firewall.Module.{
  Firewall, put_at, Event, bus_write, enters, moves, leaves, responds, step, run,
}
use sc_co_si_m.Firewall.Module.Quiet.{no_words, quiet, only, middle, moved, first_hop, second_hop}
use sc_co_si_m.Firewall.Module.Stages.{
  offered, arrives, enters_read, responds_init, leaves_read, responds_answer,
}
use sc_co_si_m.Driver.Map.{word_at}
use sc_co_si_m.Driver.Packets.{AccessDs, read_value, pending}
use sc_co_si_m.Driver.Packets.Laws.{read_packet-read_value}
use sc_co_si_m.System.AddressMap.{base_of, access_base-ReadsFrom}
use sc_co_si_m.System.Access.{Route, Route-IsAddress, read_request, settled}

-- The outcome of a run.
pub record Runs (es : List Event) (f : Firewall) (out : List (Port × Output.Action)) (t : Firewall)
    : Type 0 where
  pub runs : run es f ≡ (out, t)

pub run_nil : (f : Firewall) → Runs [] f [] f
unfolding run
run_nil f = record { runs = refl }

pub run_join :
    (es : List Event) (fs : List Event) (f : Firewall)
    → (run (es ++ fs) f).1 ≡ (run fs (run es f).1).1
unfolding run
run_join [] fs f = refl
run_join (e ∷ es) fs f = run_join es fs (step e f).1

-- An event of which the outcome is known, at the head of a run.
pub run_cons :
    {e : Event} {es : List Event} {f t u : Firewall} (out : List (Port × Output.Action))
    {outs : List (Port × Output.Action)}
    → step e f ≡ (out, t)
    → Runs es t outs u
    → Runs (e ∷ es) f (out ++ outs) u
unfolding run
run_cons {t} out h k = record { runs = rw (h, k.runs) refl }

module _ (mem : ℕ → ℕ) (p d : Port) (g : Firewall) (r : AccessDs) where
  -- The driver's write, and the rounds that the packet and its response take part in.
  abbrev pub asked : List Event
  asked =
      bus_write (word_at (base_of p) 5) (read_value r) ∷ enters p true ∷ responds p true true ∷ []

  abbrev pub served : List Event
  served =
      moves (in_fifo p) true
      ∷ moves (middle p d) true
      ∷ leaves mem d false true
      ∷ responds d true true
      ∷ []

  request_is_read : Route r p d → is_read (read_value r) ≡ true
  unfolding is_read
  request_is_read t =
      let opcode : range (read_value r) 21 20 ≡ 1 =
        ap (λ k. k.opcode) (read_packet-read_value r (Route-IsAddress t)) in
      ground (arith, opcode)

  -- The module when the driver's packet has been let in, and the port awaits the result.
  abbrev pub awaiting : Firewall
  awaiting =
      let s = g.input p in
      record (quiet g) {
        input =
            put_at p (record s { preval = read_value r; count_total = u32 (s.count_total + 1) })
              g.input;
        responce_s = put_at p pending g.responce_s;
        in_responce = put_at p pending g.in_responce;
      }

  pub after_asked :
      Route r p d
      → Takes (g.input p) (offered p g (read_value r)) (read_value r)
      → IsWelcome (g.input p) (offered p g (read_value r)) (read_value r)
      → Runs asked
          (quiet g)
          []
          (record awaiting { links = only (in_fifo p) (stamp p (read_value r)) })
  after_asked t takes welcome =
      let v = read_value r in
      let i =
        put_at p
          (record (g.input p) { preval = v; count_total = u32 ((g.input p).count_total + 1) })
          g.input in
      let entered = record (quiet g) { input = i; links = only (in_fifo p) (stamp p v) } in
      run_cons [] (arrives p g (word_at (base_of p) 5) v ((access_base-ReadsFrom p).1.1)) (
        run_cons [] (enters_read p g v takes welcome (request_is_read t))
          (run_cons [] (responds_init p entered pending) (run_nil _)))

  unfoldable pub answer : ℕ
  answer = response (stamp p (read_value r)) (mem (bram d + range (stamp p (read_value r)) 31 22))

  -- The module afterwards.
  abbrev pub answered : Firewall
  answered = record awaiting {
    output = put_at d (record (g.output d) { is_write_op = false }) g.output;
    responce_s = put_at p (answer % 2 ^ 31) awaiting.responce_s;
    in_responce = put_at p (answer % 2 ^ 31) awaiting.in_responce;
  }

  -- The module when the answer waits for the response thread.
  abbrev pub responding : Firewall
  responding = record awaiting {
    output = put_at d (record (g.output d) { is_write_op = false }) g.output;
    responce_fifo = put_at d (answer ∷ []) no_words;
  }

  -- The rounds of `served` but the last.
  abbrev pub carried : List Event
  carried = moves (in_fifo p) true ∷ moves (middle p d) true ∷ leaves mem d false true ∷ []

  pub after_carried :
      Route r p d
      → (g.output d).preready ≡ false
      → Runs carried
          (record awaiting { links = only (in_fifo p) (stamp p (read_value r)) })
          ((d, Output.responce_fifo answer) ∷ [])
          responding
  unfolding answer
  after_carried t idle =
      let w = stamp p (read_value r) in
      let (op, to, _, _) = read_request r p d t in
      run_cons [] (moved (in_fifo p) (middle p d) w (rotate w) awaiting (first_hop p d w to)) (
        run_cons [] (moved (middle p d) (out_fifo d) (rotate w) w awaiting (second_hop p d w to)) (
          run_cons ((d, Output.responce_fifo answer) ∷ []) (leaves_read d awaiting mem w idle op)
            (run_nil _)))

  pub after_served :
      Route r p d
      → (g.output d).preready ≡ false
      → mem (bram d + 4 * r.addr) < 2 ^ 32
      → Runs served
          (record awaiting { links = only (in_fifo p) (stamp p (read_value r)) })
          ((d, Output.responce_fifo answer) ∷ [])
          answered
  unfolding answer
  after_served t idle small =
      let w = stamp p (read_value r) in
      let m = mem (bram d + range w 31 22) in
      let (op, to, at, source) = read_request r p d t in
      let (word, back, shown, pends) = settled w m (rw at small) in
      let g4 = record awaiting {
        output = put_at d (record (g.output d) { is_write_op = false }) g.output;
      } in
      run_cons [] (moved (in_fifo p) (middle p d) w (rotate w) awaiting (first_hop p d w to)) (
        run_cons [] (moved (middle p d) (out_fifo d) (rotate w) w awaiting (second_hop p d w to)) (
          run_cons ((d, Output.responce_fifo answer) ∷ []) (leaves_read d awaiting mem w idle op) (
            run_cons []
              (responds_answer d g4 p answer (answer % 2 ^ 31)
                (section-responce d p answer word (back ∙ source)))
              (run_nil _))))
