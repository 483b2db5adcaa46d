-- ===== src/Firewall/Input.antt =====
-- `firewall_with_mem::interface_in_0` to `interface_in_3`: a port takes the packets that the bus
-- wrote to it, checks them against the firewall rule, and hands them to the switches.
-- The four functions are one text over the port's own fifos and signals. A round of the endless
-- loop is a step from what it reads in a clock cycle (`Sample`) to what it writes (`Action`), in
-- order; the fifos and signals themselves belong to the SystemC library.
pub mod Laws
pub mod Trace
use sc_co_si_m.Prelude.{
  ℕ, ◌+◌, Bool, true, false, ◌&&◌, Option, none, some, List, [], ◌∷◌, ◌++◌, ltb, ◌==◌,
  if◌then◌else◌, range, set_range, bit, u32,
}
use sc_co_si_m.Firewall.Packet.{Port, port_0, port_1, port_2, port_3, number}
use sc_co_si_m.Firewall.Rule.{Rule, fw_hit}

-- The local variables of the loop, and the port's three counters.
pub record InPort : Type 0 where
  pub preval : ℕ
  pub pre_read_r : ℕ
  pub rule : Rule
  pub count_total : ℕ
  pub rule_hit_counter : ℕ
  pub count_droped : ℕ

-- What a round reads: the port's fw_rule_range, fw_lower_range and fw_upper_range, what in_k holds
-- for nb_read, its responce_s, and num_free of its in_fifo.
pub record Sample : Type 0 where
  pub rule_range : ℕ
  pub lower_range : ℕ
  pub upper_range : ℕ
  pub waiting : Option ℕ
  pub responce : ℕ
  pub num_free : ℕ

-- What a round writes: `read_in` is the call of nb_read on in_k, `in_fifo` and `init_responce` are
-- writes to those fifos, `write_ended` notifies m_write_ended_event, and the others are writes to
-- the signals of those names.
pub data Action : Type 0 where
  read_in write_ended : Action
  fw_hreg fw_lreg fw_rreg : ℕ → Action
  total droped fw_rule_hit_counter : ℕ → Action
  init_responce in_fifo : ℕ → Action

unfoldable pub is_read : ℕ → Bool
is_read w = range w 21 20 == 1

-- The head of the function, above its loop.
pub start : InPort
start = record {
  preval = 0;
  pre_read_r = 0;
  rule = record { read_r = 0; read_l = 0; read_h = 0 };
  count_total = 0;
  rule_hit_counter = 0;
  count_droped = 0;
}

latch : InPort → Sample → InPort × List Action
latch s x = (
  record s {
    pre_read_r = x.rule_range;
    rule = record { read_r = x.rule_range; read_l = x.lower_range; read_h = x.upper_range };
  },
  fw_hreg x.upper_range ∷ fw_lreg x.lower_range ∷ fw_rreg x.rule_range ∷ [],
)

-- A packet that the rule stops; a read is answered by 0 at once.
block : InPort → ℕ → InPort × List Action
block s w =
    let n = u32 (s.rule_hit_counter + 1) in
    let rest = fw_rule_hit_counter n ∷ write_ended ∷ [] in
    (record s { rule_hit_counter = n }, if is_read w then init_responce 0 ∷ rest else rest)

drop_packet : InPort → InPort × List Action
drop_packet s =
    let n = u32 (s.count_droped + 1) in (record s { count_droped = n }, droped n ∷ write_ended ∷ [])

-- A read takes the port's number for its source, and marks the port as expecting a result.
accept : Port → InPort → ℕ → InPort × List Action
accept p s w = (
  s,
  if is_read w
      then init_responce 0x80000000 ∷ in_fifo (set_range w 19 18 (number p)) ∷ []
      else in_fifo w ∷ [],
)

admit : Port → InPort → Sample → ℕ → InPort × List Action
admit p s x w =
    if fw_hit s.rule w
    then block s w
    else if bit x.responce 31 && is_read w
    then drop_packet s
    else if ltb 0 x.num_free
    then accept p s w
    else drop_packet s

-- A packet that differs from the one before it is counted; another one is passed over.
receive : Port → InPort → Sample → ℕ → InPort × List Action
receive p s x w =
    let n = u32 (s.count_total + 1) in
    let (s', out) = admit p (record s { preval = w; count_total = n }) x w in
    if w == s.preval then (s, read_in ∷ []) else (s', read_in ∷ total n ∷ out)

take_in : Port → InPort → Sample → Option ℕ → InPort × List Action
take_in p s x none = (s, read_in ∷ [])
take_in p s x (some w) = receive p s x w

pub interface_in : Port → InPort → Sample → InPort × List Action
interface_in p s x = if x.rule_range == s.pre_read_r then take_in p s x x.waiting else latch s x

pub interface_in_0 : InPort → Sample → InPort × List Action
interface_in_0 = interface_in port_0

pub interface_in_1 : InPort → Sample → InPort × List Action
interface_in_1 = interface_in port_1

pub interface_in_2 : InPort → Sample → InPort × List Action
interface_in_2 = interface_in port_2

pub interface_in_3 : InPort → Sample → InPort × List Action
interface_in_3 = interface_in port_3

-- The thread of a port, and its rounds over a sequence of samples.
pub thread : Port → InPort → Sample → InPort × List Action
thread port_0 = interface_in_0
thread port_1 = interface_in_1
thread port_2 = interface_in_2
thread port_3 = interface_in_3

pub run : Port → InPort → List Sample → InPort × List Action
run p s [] = (s, [])
run p s (x ∷ xs) = let (s', out) = thread p s x in let (t, outs) = run p s' xs in (t, out ++ outs)
