-- ===== src/System/Written.antt =====
-- A write of the driver on the whole module of the firewall, event by event, and from the call to
-- its return.
use sc_co_si_m.Prelude.{
  ◌++◌, some, ℕ, ◌+◌, ◌*◌, ◌^◌, ◌<◌, ◌≡◌, refl, sym, ap, ◌∙◌, true, false, List, [], ◌∷◌, ◌==◌,
  arith, range, u32,
}
use mathlib.Core.Path.{subst}
use sc_co_si_m.Firewall.Packet.{Port}
use sc_co_si_m.Firewall.Input.{is_read}
use sc_co_si_m.Firewall.Input.Laws.{stamp, Takes, IsWelcome}
use sc_co_si_m.Firewall.Switch.{rotate}
use sc_co_si_m.Firewall.Switch.Laws.{in_fifo, out_fifo}
use sc_co_si_m.Firewall.Output
use sc_co_si_m.Firewall.Output.{bram}
use sc_co_si_m.Firewall.Module.{
  step, Firewall, put_at, Event, bus_write, enters, moves, leaves, run,
}
use sc_co_si_m.Firewall.Module.Quiet.{quiet, middle, moved, first_hop, second_hop, put_at-same}
use sc_co_si_m.Firewall.Module.Stages.{offered, arrives}
use sc_co_si_m.Firewall.Module.Writes.{enters_write, leaves_write, leaves_done, done_notifies}
use sc_co_si_m.Firewall.Module.Ends.{notifies, ended, ended-last}
use sc_co_si_m.Driver.Machine.{done}
use sc_co_si_m.Driver.Map.{word_at, access_base}
use sc_co_si_m.Driver.Packets.{AccessDs, write_value, access_bram_fw}
use sc_co_si_m.Driver.Packets.Laws.{read_packet-write_value, access_bram_fw-write}
use sc_co_si_m.System.AddressMap.{base_of, access_base-ReadsFrom}
use sc_co_si_m.System.Access.{Route, Route-IsAddress, write_request}
use sc_co_si_m.System.Delivery.{Runs, run_nil, run_cons}
use sc_co_si_m.System.Driven.{Bench, bench, admit_write, bench_write, write_and_wait}

module _ (mem : ℕ → ℕ) (p d : Port) (g : Firewall) (r : AccessDs) where
  -- The rounds that the packet takes part in, while the driver's write waits.
  abbrev pub rounds : List Event
  rounds =
      enters p true
      ∷ moves (in_fifo p) true
      ∷ moves (middle p d) true
      ∷ leaves mem d false true
      ∷ leaves mem d true false
      ∷ []

  abbrev pub actions : List (Port × Output.Action)
  actions =
      (d, Output.mem_write (bram d + 4 * r.addr) r.word)
      ∷ (d, Output.out_addr_to_read (bram d + 4 * r.addr))
      ∷ (d, Output.ready true)
      ∷ (d, Output.ready false)
      ∷ (d, Output.write_ended)
      ∷ []

  request_is_write : Route r p d → r.word < 2 ^ 16 → is_read (write_value r) ≡ false
  unfolding is_read
  request_is_write t small =
      let opcode : range (write_value r) 21 20 ≡ 0 =
        ap (λ k. k.opcode) (read_packet-write_value r (Route-IsAddress t) small) in
      ground (arith, opcode)

  -- The module while the packet is on its way, and when it is served.
  abbrev entered : Firewall
  entered =
      let s = g.input p in
      record (quiet g) {
        input =
            put_at p (record s { preval = write_value r; count_total = u32 (s.count_total + 1) })
              g.input;
      }

  abbrev storing : Firewall
  storing = record entered {
    output = put_at d (record { preready = true; is_write_op = true }) g.output;
  }

  abbrev pub stored : Firewall
  stored = record storing {
    output = put_at d (record { preready = false; is_write_op = true }) storing.output;
  }

  -- The first rounds, and then any.
  abbrev first_rounds : List Event
  first_rounds =
      enters p true
      ∷ moves (in_fifo p) true
      ∷ moves (middle p d) true
      ∷ leaves mem d false true
      ∷ []

  after_stored :
      (rest : List Event) (out : List (Port × Output.Action)) (u : Firewall)
      → Route r p d
      → r.word < 2 ^ 16
      → Takes (g.input p) (offered p g (write_value r)) (write_value r)
      → IsWelcome (g.input p) (offered p g (write_value r)) (write_value r)
      → (g.output d).preready ≡ false
      → Runs rest storing out u
      → Runs
          (bus_write (word_at (base_of p) 5) (write_value r) ∷ first_rounds ++ rest)
          (quiet g)
          ((d, Output.mem_write (bram d + 4 * r.addr) r.word)
            ∷ (d, Output.out_addr_to_read (bram d + 4 * r.addr))
            ∷ (d, Output.ready true)
            ∷ out)
          u
  after_stored rest out u t small takes welcome idle then =
      let v = write_value r in
      let w = stamp p v in
      let (op, to, at, kept) = write_request r p d t small in
      let no_read : (range w 21 20 == 1) ≡ false = ground arith in
      let stores = leaves_write d entered mem w idle no_read in
      run_cons [] (arrives p g (word_at (base_of p) 5) v ((access_base-ReadsFrom p).1.1)) (
        run_cons [] (enters_write p g v takes welcome (request_is_write t small)) (
          run_cons [] (moved (in_fifo p) (middle p d) w (rotate w) entered (first_hop p d w to)) (
            run_cons [] (moved (middle p d) (out_fifo d) (rotate w) w entered (second_hop p d w to))
              (run_cons
                ((d, Output.mem_write (bram d + 4 * r.addr) r.word)
                  ∷ (d, Output.out_addr_to_read (bram d + 4 * r.addr))
                  ∷ (d, Output.ready true)
                  ∷ [])
                (rw (stores, at, kept) refl) then))))

  after_written :
      Route r p d
      → r.word < 2 ^ 16
      → Takes (g.input p) (offered p g (write_value r)) (write_value r)
      → IsWelcome (g.input p) (offered p g (write_value r)) (write_value r)
      → (g.output d).preready ≡ false
      → Runs (bus_write (word_at (base_of p) 5) (write_value r) ∷ rounds) (quiet g) actions stored
  after_written t small takes welcome idle =
      after_stored (leaves mem d true false ∷ [])
        ((d, Output.ready false) ∷ (d, Output.write_ended) ∷ []) stored t small takes welcome idle
        (run_cons ((d, Output.ready false) ∷ (d, Output.write_ended) ∷ [])
          (leaves_done d storing mem (put_at-same d _ g.output)) (run_nil _))

  rounds-ended :
      Route r p d
      → r.word < 2 ^ 16
      → Takes (g.input p) (offered p g (write_value r)) (write_value r)
      → IsWelcome (g.input p) (offered p g (write_value r)) (write_value r)
      → (g.output d).preready ≡ false
      → ended rounds (step (bus_write (word_at (base_of p) 5) (write_value r)) (quiet g)).1 ≡ true
  unfolding run
  rounds-ended t small takes welcome idle = ended-last first_rounds (leaves mem d true false) _ (
      subst (λ f. notifies (leaves mem d true false) f ≡ true)
        (sym (
          ap (λ c. c.1) ((after_stored [] [] storing t small takes welcome idle (run_nil _)).runs)))
        (done_notifies d storing mem (put_at-same d _ g.output)))

  -- The driver's whole call of a write, for root, on the module in which nothing waits at first,
  -- with the rounds that the packet takes part in while b_transport waits for m_write_ended_event:
  -- the wait is met and the call ends; the port that it names, and no other, makes one write, of
  -- the caller's word at four times the caller's address behind its BRAM's start, and acknowledges
  -- it once, when the memory is done; and the module is left with nothing waiting and the port
  -- idle. It holds for a packet for ports that exist and an address below 256 words, data below
  -- 2^16, an input port that takes the packet and lets it in, and an idle output port.
  pub access_bram_fw-stored :
      (fuel x : ℕ)
      → Route r p d
      → r.op_code ≡ 0
      → r.word < 2 ^ 16
      → Takes (g.input p) (offered p g (write_value r)) (write_value r)
      → IsWelcome (g.input p) (offered p g (write_value r)) (write_value r)
      → (g.output d).preready ≡ false
      → let b : Bench = record {
        firewall = quiet g;
        register_read = x;
        later_rounds = rounds ∷ [];
        blocked = false;
      } in
        (t : Bench) × (access_bram_fw (bench mem) fuel 0 r b ≡ done r t)
        × (run (bus_write (word_at (base_of p) 5) (write_value r) ∷ rounds) (quiet g)
            ≡ (actions, t.firewall))
        × (quiet t.firewall ≡ t.firewall)
        × ((t.firewall.output d).preready ≡ false)
        × (t.blocked ≡ false)
  unfolding bench_write admit_write write_and_wait run
  access_bram_fw-stored fuel x route op small takes welcome idle =
      let ran = (after_written route small takes welcome idle).runs in
      let b : Bench = record {
        firewall = quiet g;
        register_read = x;
        later_rounds = rounds ∷ [];
        blocked = false;
      } in
      let t : Bench = record {
        firewall = stored;
        register_read = x;
        later_rounds = [];
        blocked = false;
      } in
      let (admitted, target) = (access_base-ReadsFrom p).1 in
      let ends = rounds-ended route small takes welcome idle in
      let wrote : bench_write mem (write_value r) (word_at (base_of p) 5) b ≡ t =
        rw (bench_write, admit_write, admitted)
          (rw (write_and_wait, ends, target)
            (ap
              (λ (c : List (Port × Output.Action) × Firewall). (record {
                firewall = c.1;
                register_read = x;
                later_rounds = [];
                blocked = false;
              }))
              ran)) in
      (
        t,
        access_bram_fw-write (bench mem) fuel (base_of p) r b op (
              subst (λ k. access_base k ≡ some (base_of p)) (sym route.enters)
                (access_base-ReadsFrom p).0)
            ∙ ap (done r) wrote,
        ran,
        refl,
        ap (λ o. o.preready) (put_at-same d _ storing.output),
        refl,
      )
