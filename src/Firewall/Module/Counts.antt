-- ===== src/Firewall/Module/Counts.antt =====
-- How often the packets that are let in reach a memory.
use sc_co_si_m.Prelude.{
  ℕ, suc, ◌+◌, ◌≤◌, ◌≡◌, refl, ap, inl, inr, Bool, true, false, Option, none, some, List, [], ◌∷◌,
  ◌++◌, length, length-append, map, ltb, Bool-cases, arith, range, ◌==◌, if◌then◌else◌,
}
use sc_co_si_m.Firewall.Packet.{Port}
use sc_co_si_m.Firewall.Registers.{execute_write}
use sc_co_si_m.Firewall.Input
use sc_co_si_m.Firewall.Input.Laws.{entered}
use sc_co_si_m.Firewall.Switch.{
  Link, in_fifo_0, in_fifo_1, in_fifo_2, in_fifo_3, out_fifo_s1_0, out_fifo_s1_1, out_fifo_s2_0,
  out_fifo_s2_1, out_fifo_0, out_fifo_1, out_fifo_2, out_fifo_3, forward, switch, entry_sw_1,
  entry_sw_2, entry_sw_3, entry_sw_4, hop,
}
use sc_co_si_m.Firewall.Switch.Laws.{in_fifo, out_fifo}
use sc_co_si_m.Firewall.Output
use sc_co_si_m.Firewall.Output.{OutPort, execute, take_out, interface_out}
use sc_co_si_m.Firewall.Output.Laws.{thread_lem}
use sc_co_si_m.Firewall.Module.{
  Firewall, put_link, put_at, nb_read, left, nb_write, write_links, sample, input_action,
  input_actions, enter, carry, move_word, move, leave, respond, Event, bus_write, enters, moves,
  leaves, responds, installs, step, run,
}
use sc_co_si_m.Firewall.Module.Links.{response_actions-links, output_actions-links, enqueue-links}

-- The words on the links.
abbrev pub total : (Link → List ℕ) → ℕ
total f =
    length (f in_fifo_0)
    + length (f in_fifo_1)
    + length (f in_fifo_2)
    + length (f in_fifo_3)
    + length (f out_fifo_s1_0)
    + length (f out_fifo_s1_1)
    + length (f out_fifo_s2_0)
    + length (f out_fifo_s2_1)
    + length (f out_fifo_0)
    + length (f out_fifo_1)
    + length (f out_fifo_2)
    + length (f out_fifo_3)

put_link-total :
    (l : Link) (ws : List ℕ) (f : Link → List ℕ)
    → total (put_link l ws f) + length (f l) ≡ total f + length ws
put_link-total in_fifo_0 ws f = omega arith
put_link-total _ ws f = omega arith

nb_write-longer : (w : ℕ) (ws : List ℕ) → length (nb_write w ws) ≤ length ws + 1
unfolding nb_write
nb_write-longer w ws = elim (Bool-cases (ltb (length ws) 10)) [
  | inl e ↦ rw (e, length-append ws (w ∷ [])) (omega arith)
  | inr e ↦ rw e (omega arith)
]

write_links-total :
    (out : List (Link × ℕ)) (f : Link → List ℕ) → total (write_links out f) ≤ total f + length out
unfolding write_links
write_links-total [] f = omega arith
write_links-total ((l, w) ∷ out) f =
    let g = put_link l (nb_write w (f l)) f in
    let rest : total (write_links out g) ≤ total g + length out = write_links-total out g in
    let here : total g + length (f l) ≡ total f + length (nb_write w (f l)) =
      put_link-total l (nb_write w (f l)) f in
    omega (arith, rest, here, nb_write-longer w (f l))

hop-length : (l : Link) (w : ℕ) → length (hop l w) ≤ 1
unfolding hop entry_sw_1 entry_sw_2 entry_sw_3 entry_sw_4 switch forward
hop-length in_fifo_0 w = ground arith
hop-length _ w = ground arith

carry-total :
    (out : List (Link × ℕ)) (l : Link) (w : ℕ) (ws : List ℕ) (f : Firewall)
    → length out ≤ 1
    → f.links l ≡ w ∷ ws
    → total (carry out l ws f).links ≤ total f.links
unfolding carry
carry-total [] l w ws f h e = omega arith
carry-total (x ∷ xs) l w ws f h e =
    let g = put_link l ws f.links in
    let size : length (f.links l) ≡ suc (length ws) = ap length e in
    let rest : total (write_links (x ∷ xs) g) ≤ total g + suc (length xs) =
      write_links-total (x ∷ xs) g in
    let here : total g + length (f.links l) ≡ total f.links + length ws =
      put_link-total l ws f.links in
    omega (arith, rest, here, size)

move_word-total :
    (l : Link) (ws : List ℕ) (f : Firewall)
    → f.links l ≡ ws
    → total (move_word l ws f).links ≤ total f.links
unfolding move_word
move_word-total l [] f e = omega arith
move_word-total l (w ∷ ws) f e = carry-total (hop l w) l w ws f (hop-length l w) e

input_actions-total :
    (p : Port) (seen : Bool) (out : List Input.Action) (f : Firewall)
    → total (input_actions p seen out f).links ≤ total f.links + length (entered out)
unfolding input_actions input_action entered
input_actions-total p seen [] f = omega arith
input_actions-total p seen (Input.in_fifo w ∷ out) f =
    let ws = f.links (in_fifo p) in
    let g = put_link (in_fifo p) (ws ++ w ∷ []) f.links in
    let rest : total (input_actions p seen out (record f { links = g })).links
        ≤ total g + length (entered out) =
      input_actions-total p seen out (record f { links = g }) in
    let here : total g + length ws ≡ total f.links + length (ws ++ w ∷ []) =
      put_link-total (in_fifo p) (ws ++ w ∷ []) f.links in
    omega (arith, rest, here, length-append ws (w ∷ []))
input_actions-total p seen (a ∷ out) f = input_actions-total p seen out (input_action p seen a f)

-- The writes on a memory, and the answers to reads.
unfoldable pub accesses : List Output.Action → ℕ
accesses [] = 0
accesses (Output.mem_write a v ∷ out) = suc (accesses out)
accesses (Output.responce_fifo r ∷ out) = suc (accesses out)
accesses (a ∷ out) = accesses out

abbrev pub held : Option ℕ → ℕ
held none = 0
held (some w) = 1

accesses-execute :
    (mem : ℕ → ℕ) (d : Port) (s : OutPort) (w : ℕ) → accesses (execute mem d s w).1 ≤ 1
unfolding execute accesses
accesses-execute mem d s w = elim (Bool-cases (range w 21 20 == 1)) [
  | inl e ↦ rw e (omega arith)
  | inr e ↦ rw e (omega arith)
]

accesses-take_out :
    (mem : ℕ → ℕ) (d : Port) (s : OutPort) (head : Option ℕ)
    → accesses (take_out mem d s head).1 ≤ held head
unfolding take_out accesses
accesses-take_out mem d s none = omega arith
accesses-take_out mem d s (some w) = accesses-execute mem d s w

accesses-interface_out :
    (mem : ℕ → ℕ) (d : Port) (s : OutPort) (done : Bool) (head : Option ℕ)
    → accesses (interface_out mem d s done head).1 ≤ held head
unfolding interface_out accesses
accesses-interface_out mem d s done head = go done s.preready s.is_write_op refl refl
  where
    go :
        (b c o : Bool)
        → s.preready ≡ c
        → s.is_write_op ≡ o
        → accesses (interface_out mem d s b head).1 ≤ held head
    go false false o e i = rw e (accesses-take_out mem d _ head)
    go false true o e i = rw e (omega arith)
    go true false o e i = rw e (omega arith)
    go true true true e i = rw (e, i) (omega arith)
    go true true false e i = rw (e, i) (omega arith)

left-length :
    (seen : Bool) (ws : List ℕ) → length (left seen ws) + held (nb_read seen ws) ≡ length ws
left-length false ws = omega arith
left-length true [] = refl
left-length true (w ∷ ws) = omega arith

leave-total :
    (mem : ℕ → ℕ) (d : Port) (done seen : Bool) (f : Firewall)
    → accesses (leave mem d done seen f).0 + total (leave mem d done seen f).1.links ≤ total f.links
unfolding leave
leave-total mem d done seen f =
    let ws = f.links (out_fifo d) in
    let idle = if done then false else if (f.output d).preready then false else seen in
    let (s, out) = Output.thread mem d (f.output d) done (nb_read idle ws) in
    let few : accesses out ≤ held (nb_read idle ws) =
      rw (thread_lem mem d (f.output d) done (nb_read idle ws))
        (accesses-interface_out mem d (f.output d) done (nb_read idle ws)) in
    let here : total (put_link (out_fifo d) (left idle ws) f.links) + length ws
        ≡ total f.links + length (left idle ws) =
      put_link-total (out_fifo d) (left idle ws) f.links in
    rw (output_actions-links d out _) (omega (arith, few, here, left-length idle ws))

-- The packets that an event lets in, in number, and a sequence of events.
abbrev pub enters_count : Event → Firewall → ℕ
enters_count (enters p seen) f = length (entered (Input.thread p (f.input p) (sample p seen f)).1)
enters_count e f = 0

unfoldable pub let_in : List Event → Firewall → ℕ
let_in [] f = 0
let_in (e ∷ es) f = enters_count e f + let_in es (step e f).1

-- What the events do on the memories, without the ports.
abbrev pub actions : List (Port × Output.Action) → List Output.Action
actions [] = []
actions ((p, a) ∷ out) = a ∷ actions out

actions-at : (p : Port) (out : List Output.Action) → actions (map (λ a. (p, a)) out) ≡ out
actions-at p [] = refl
actions-at p (a ∷ out) = ap (λ l. a ∷ l) (actions-at p out)

accesses-append :
    (out rest : List (Port × Output.Action))
    → accesses (actions (out ++ rest)) ≡ accesses (actions out) + accesses (actions rest)
unfolding accesses
accesses-append [] rest = omega arith
accesses-append ((p, Output.mem_write a v) ∷ out) rest = omega (arith, accesses-append out rest)
accesses-append ((p, Output.responce_fifo r) ∷ out) rest = omega (arith, accesses-append out rest)
accesses-append ((p, a) ∷ out) rest = accesses-append out rest

enter-total :
    (p : Port) (seen : Bool) (f : Firewall)
    → total (enter p seen f).links ≤ total f.links + enters_count (enters p seen) f
unfolding enter
enter-total p seen f =
    let (s, out) = Input.thread p (f.input p) (sample p seen f) in
    input_actions-total p seen out (record f { input = put_at p s f.input })

step-total :
    (e : Event) (f : Firewall)
    → accesses (actions (step e f).0) + total (step e f).1.links ≤ total f.links + enters_count e f
unfolding step move respond accesses
step-total (bus_write a v) f = rw (enqueue-links (execute_write a) v f) (omega arith)
step-total (enters p seen) f = omega (arith, enter-total p seen f)
step-total (moves l true) f = omega (arith, move_word-total l (f.links l) f refl)
step-total (moves l false) f = omega arith
step-total (leaves mem d done seen) f =
    rw (actions-at d (leave mem d done seen f).0) (omega (arith, leave-total mem d done seen f))
step-total (responds p seen_init seen) f = rw (response_actions-links _ _) (omega arith)
step-total installs f = omega arith

-- Whatever the interleaving of the threads, the bus and the memories: the writes on the memories
-- and the answers to reads, with the words that are on the links in the end, are no more in number
-- than the words that were on the links at first and the packets that the input ports let in.
accesses-run :
    (es : List Event) (f : Firewall)
    → accesses (actions (run es f).0) + total (run es f).1.links ≤ total f.links + let_in es f
unfolding run let_in accesses
accesses-run [] f = omega arith
accesses-run (e ∷ es) f =
    let t = (step e f).1 in
    let rest : accesses (actions (run es t).0) + total (run es t).1.links
        ≤ total t.links + let_in es t =
      accesses-run es t in
    let both : accesses (actions ((step e f).0 ++ (run es t).0))
        ≡ accesses (actions (step e f).0) + accesses (actions (run es t).0) =
      accesses-append (step e f).0 (run es t).0 in
    omega (arith, rest, both, step-total e f)
