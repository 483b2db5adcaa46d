-- ===== src/Firewall/Module.antt =====
-- The module `firewall_with_mem` as a whole: its fifos and signals, and its threads on them.
-- An event is a round of one thread, with what the rest of the world does in it, so that a
-- sequence of events is an interleaving of the threads. SystemC lets a round see a fifo as it was
-- when the cycle began; the flag `seen` of an event tells whether the head was there by then.
pub mod Checked
pub mod Links
pub mod Routing
pub mod Exits
pub mod Bounds
pub mod Counts
pub mod Quiet
pub mod Ends
pub mod Stages
pub mod Writes
use sc_co_si_m.Prelude.{
  ℕ, ◌+◌, ◌-◌, Bool, true, false, Option, none, some, List, [], ◌∷◌, ◌++◌, length, ltb, ◌==◌, map,
  if◌then◌else◌,
}
use sc_co_si_m.Firewall.Packet.{Port, port_0, port_1, port_2, port_3, number}
use sc_co_si_m.Firewall.Registers.{WriteTarget, packet, execute_write, write_setup}
use sc_co_si_m.Firewall.Setup.{Registers, Installed, reset, setupfw_rule}
use sc_co_si_m.Firewall.Input
use sc_co_si_m.Firewall.Input.{InPort, Sample, start}
use sc_co_si_m.Firewall.Switch.{
  Link, in_fifo_0, in_fifo_1, in_fifo_2, in_fifo_3, out_fifo_s1_0, out_fifo_s1_1, out_fifo_s2_0,
  out_fifo_s2_1, out_fifo_0, out_fifo_1, out_fifo_2, out_fifo_3, hop,
}
use sc_co_si_m.Firewall.Switch.Laws.{in_fifo, out_fifo}
use sc_co_si_m.Firewall.Output
use sc_co_si_m.Firewall.Output.{OutPort}
use sc_co_si_m.Firewall.Response
use sc_co_si_m.Firewall.Response.{section}

abbrev pub internal_fifo_size : ℕ
internal_fifo_size = 10

abbrev pub same_port : Port → Port → Bool
same_port p q = number p == number q

-- The links are numbered in the order of their declaration.
abbrev pub link_number : Link → ℕ
link_number in_fifo_0 = 0
link_number in_fifo_1 = 1
link_number in_fifo_2 = 2
link_number in_fifo_3 = 3
link_number out_fifo_s1_0 = 4
link_number out_fifo_s1_1 = 5
link_number out_fifo_s2_0 = 6
link_number out_fifo_s2_1 = 7
link_number out_fifo_0 = 8
link_number out_fifo_1 = 9
link_number out_fifo_2 = 10
link_number out_fifo_3 = 11

-- A field of one port, or one fifo, changed.
abbrev pub put_at : {A : Type 0} → Port → A → (Port → A) → Port → A
put_at p a f q = if same_port p q then a else f q

abbrev pub put_link : Link → List ℕ → (Link → List ℕ) → Link → List ℕ
put_link l ws f k = if link_number l == link_number k then ws else f k

pub record Firewall : Type 0 where
  -- in_k, which the write thread fills
  pub waiting : Port → List ℕ
  pub input : Port → InPort
  pub links : Link → List ℕ
  pub output : Port → OutPort
  pub responce_fifo : Port → List ℕ
  pub init_responce_fifo : Port → List ℕ
  pub responce_s : Port → ℕ
  pub in_responce : Port → ℕ
  pub registers : Port → Registers
  pub installed : Port → Installed

-- The fifos are empty, and each thread has run to its loop.
pub initial : Firewall
initial = record {
  waiting = λ p. [];
  input = λ p. start;
  links = λ l. [];
  output = λ p. record { preready = false; is_write_op = false };
  responce_fifo = λ p. [];
  init_responce_fifo = λ p. [];
  responce_s = λ p. 0;
  in_responce = λ p. 0;
  registers = λ p. record { rule = 0; lower = 0; upper = 0 };
  installed = λ p. reset;
}

abbrev pub head : List ℕ → Option ℕ
head [] = none
head (w ∷ ws) = some w

abbrev pub tail : List ℕ → List ℕ
tail [] = []
tail (w ∷ ws) = ws

-- nb_read: what it gives, and what it leaves.
abbrev pub nb_read : Bool → List ℕ → Option ℕ
nb_read seen ws = if seen then head ws else none

abbrev pub left : Bool → List ℕ → List ℕ
left seen ws = if seen then tail ws else ws

-- nb_write, whose result the switches do not look at: a full fifo loses the word.
unfoldable pub nb_write : ℕ → List ℕ → List ℕ
nb_write w ws = if ltb (length ws) internal_fifo_size then ws ++ w ∷ [] else ws

unfoldable pub write_links : List (Link × ℕ) → (Link → List ℕ) → Link → List ℕ
write_links [] f = f
write_links ((l, w) ∷ ws) f = write_links ws (put_link l (nb_write w (f l)) f)

-- What a round of an input port reads.
unfoldable pub sample : Port → Bool → Firewall → Sample
sample p seen f = record {
  rule_range = (f.installed p).range.rule;
  lower_range = (f.installed p).range.lower;
  upper_range = (f.installed p).range.upper;
  waiting = nb_read seen (f.waiting p);
  responce = f.responce_s p;
  num_free = internal_fifo_size - length (f.links (in_fifo p));
}

-- What an action of a thread does to the fifos and signals. A write to a fifo that is full waits,
-- which is a later round here; the other actions go to the bus and to the memory.
unfoldable pub input_action : Port → Bool → Input.Action → Firewall → Firewall
input_action p seen Input.read_in f = record f {
  waiting = put_at p (left seen (f.waiting p)) f.waiting;
}
input_action p seen (Input.in_fifo w) f = record f {
  links = put_link (in_fifo p) (f.links (in_fifo p) ++ w ∷ []) f.links;
}
input_action p seen (Input.init_responce w) f = record f {
  init_responce_fifo = put_at p (f.init_responce_fifo p ++ w ∷ []) f.init_responce_fifo;
}
input_action p seen _ f = f

unfoldable pub input_actions : Port → Bool → List Input.Action → Firewall → Firewall
input_actions p seen [] f = f
input_actions p seen (a ∷ out) f = input_actions p seen out (input_action p seen a f)

unfoldable pub output_actions : Port → List Output.Action → Firewall → Firewall
output_actions p [] f = f
output_actions p (Output.responce_fifo w ∷ out) f =
    output_actions p out
      (record f { responce_fifo = put_at p (f.responce_fifo p ++ w ∷ []) f.responce_fifo })
output_actions p (_ ∷ out) f = output_actions p out f

unfoldable pub response_actions : List Response.Action → Firewall → Firewall
response_actions [] f = f
response_actions (Response.deliver p w ∷ out) f =
    response_actions out
      (record f { responce_s = put_at p w f.responce_s; in_responce = put_at p w f.in_responce })
response_actions (Response.write_ended ∷ out) f = response_actions out f

-- A packet that the write thread puts into in_k, or a setup register.
unfoldable pub enqueue : WriteTarget → ℕ → Firewall → Firewall
enqueue (packet p) v f = record f { waiting = put_at p (f.waiting p ++ v ∷ []) f.waiting }
enqueue t v f = record f { registers = write_setup t v f.registers }

-- `bus_write a v` is a round of execute_write_thread; `enters` one of an input thread; `moves` the
-- part of a switch's round that reads the link; `leaves` a round of an output thread, with what
-- the memory holds and its done signal; `responds` the part of entry_response for a port; and
-- `installs` a round of setupfw_rule.
pub data Event : Type 0 where
  bus_write : ℕ → ℕ → Event
  enters : Port → Bool → Event
  moves : Link → Bool → Event
  leaves : (ℕ → ℕ) → Port → Bool → Bool → Event
  responds : Port → Bool → Bool → Event
  installs : Event

unfoldable pub enter : Port → Bool → Firewall → Firewall
unfolding sample
enter p seen f =
    let (s, out) = Input.thread p (f.input p) (sample p seen f) in
    input_actions p seen out (record f { input = put_at p s f.input })

-- What a switch does with a word, and with what it leaves on the link; no switch reads the links of
-- the output ports, from which no hop goes.
unfoldable pub carry : List (Link × ℕ) → Link → List ℕ → Firewall → Firewall
carry [] l ws f = f
carry (x ∷ xs) l ws f = record f { links = write_links (x ∷ xs) (put_link l ws f.links) }

unfoldable pub move_word : Link → List ℕ → Firewall → Firewall
unfolding carry
move_word l [] f = f
move_word l (w ∷ ws) f = carry (hop l w) l ws f

unfoldable pub move : Link → Bool → Firewall → Firewall
move l seen f = if seen then move_word l (f.links l) f else f

-- The port reads its fifo when neither it nor the memory is at work.
unfoldable pub leave : (ℕ → ℕ) → Port → Bool → Bool → Firewall → List Output.Action × Firewall
leave mem p done seen f =
    let ws = f.links (out_fifo p) in
    let idle = if done then false else if (f.output p).preready then false else seen in
    let (s, out) = Output.thread mem p (f.output p) done (nb_read idle ws) in
    (
      out,
      output_actions p out (record f {
        output = put_at p s f.output;
        links = put_link (out_fifo p) (left idle ws) f.links;
      }),
    )

abbrev pub if_none : Option ℕ → Bool → Bool
if_none none seen = seen
if_none (some w) seen = false

-- The response is read only where no initial response is.
unfoldable pub respond : Port → Bool → Bool → Firewall → Firewall
respond p seen_init seen f =
    let first = nb_read seen_init (f.init_responce_fifo p) in
    let second = if_none first seen in
    response_actions (section p first (nb_read second (f.responce_fifo p))) (record f {
      init_responce_fifo = put_at p (left seen_init (f.init_responce_fifo p)) f.init_responce_fifo;
      responce_fifo = put_at p (left second (f.responce_fifo p)) f.responce_fifo;
    })

-- A round, with what it does on the memory side of a port.
unfoldable pub step : Event → Firewall → List (Port × Output.Action) × Firewall
step (bus_write a v) f = ([], enqueue (execute_write a) v f)
step (enters p seen) f = ([], enter p seen f)
step (moves l seen) f = ([], move l seen f)
step (leaves mem p done seen) f =
    let (out, t) = leave mem p done seen f in (map (λ a. (p, a)) out, t)
step (responds p seen_init seen) f = ([], respond p seen_init seen f)
step installs f = ([], record f { installed = setupfw_rule f.registers f.installed })

unfoldable pub run : List Event → Firewall → List (Port × Output.Action) × Firewall
run [] f = ([], f)
run (e ∷ es) f = let (out, t) = step e f in let (outs, u) = run es t in (out ++ outs, u)
