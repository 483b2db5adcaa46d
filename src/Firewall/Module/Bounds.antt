-- ===== src/Firewall/Module/Bounds.antt =====
-- The capacity of the links between the input ports and the output ports.
use sc_co_si_m.Prelude.{
  ℕ, ◌+◌, ◌≤◌, ◌≡◌, inl, inr, Bool, true, false, List, [], ◌∷◌, ◌++◌, length, length-append, ltb,
  Bool-cases, arith, if◌then◌else◌,
}
use sc_co_si_m.Firewall.Packet.{Port}
use sc_co_si_m.Firewall.Registers.{execute_write}
use sc_co_si_m.Firewall.Input
use sc_co_si_m.Firewall.Input.Laws.{entered, enters_cases}
use sc_co_si_m.Firewall.Switch.{Link, hop}
use sc_co_si_m.Firewall.Switch.Laws.{in_fifo, out_fifo}
use sc_co_si_m.Firewall.Module.{
  Firewall, internal_fifo_size, put_link, put_at, left, nb_write, write_links, sample, input_action,
  input_actions, enter, move_word, carry, move, leave, respond, Event, bus_write, enters, moves,
  leaves, responds, installs, step, run,
}
use sc_co_si_m.Firewall.Module.Links.{
  put_link-holds, response_actions-links, output_actions-links, enqueue-links,
}

-- No link holds more than INTERNAL_FIFO_SIZE words.
abbrev pub IsBounded : (Link → List ℕ) → Type 0
IsBounded f = (l : Link) → length (f l) ≤ internal_fifo_size

put_link-IsBounded :
    (l : Link) (ws : List ℕ) (f : Link → List ℕ)
    → length ws ≤ 10
    → IsBounded f
    → IsBounded (put_link l ws f)
put_link-IsBounded l ws f h hs = put_link-holds (λ k vs. length vs ≤ 10) l ws f h hs

nb_write-bound : (w : ℕ) (ws : List ℕ) → length ws ≤ 10 → length (nb_write w ws) ≤ 10
unfolding nb_write
nb_write-bound w ws h = elim (Bool-cases (ltb (length ws) 10)) [
  | inl e ↦ rw (e, length-append ws (w ∷ [])) (ground (arith, e))
  | inr e ↦ rw e h
]

write_links-IsBounded :
    (ws : List (Link × ℕ)) (f : Link → List ℕ) → IsBounded f → IsBounded (write_links ws f)
unfolding write_links
write_links-IsBounded [] f hs = hs
write_links-IsBounded ((l, w) ∷ ws) f hs =
    write_links-IsBounded ws (put_link l (nb_write w (f l)) f)
      (put_link-IsBounded l (nb_write w (f l)) f (nb_write-bound w (f l) (hs l)) hs)

put_link-same : (l : Link) (ws : List ℕ) (f : Link → List ℕ) → put_link l ws f l ≡ ws
put_link-same l ws f = ground arith

input_actions-IsBounded :
    (p : Port) (seen : Bool) (out : List Input.Action) (f : Firewall)
    → length (f.links (in_fifo p)) + length (entered out) ≤ 10
    → IsBounded f.links
    → IsBounded (input_actions p seen out f).links
unfolding input_actions input_action entered
input_actions-IsBounded p seen [] f h hs = hs
input_actions-IsBounded p seen (Input.in_fifo w ∷ out) f h hs =
    let ws = f.links (in_fifo p) in
    let n = length-append ws (w ∷ []) in
    input_actions-IsBounded p seen out (input_action p seen (Input.in_fifo w) f)
      (rw (put_link-same (in_fifo p) (ws ++ w ∷ []) f.links) (omega (arith, n, h)))
      (put_link-IsBounded (in_fifo p) (ws ++ w ∷ []) f.links (omega (arith, n, h)) hs)
input_actions-IsBounded p seen (a ∷ out) f h hs =
    input_actions-IsBounded p seen out (input_action p seen a f) h hs

left-bound : (seen : Bool) (ws : List ℕ) → length ws ≤ 10 → length (left seen ws) ≤ 10
left-bound false ws h = h
left-bound true [] h = h
left-bound true (w ∷ ws) h = omega arith

carry-IsBounded :
    (out : List (Link × ℕ)) (l : Link) (ws : List ℕ) (f : Firewall)
    → length ws ≤ 10
    → IsBounded f.links
    → IsBounded (carry out l ws f).links
unfolding carry
carry-IsBounded [] l ws f h hs = hs
carry-IsBounded (x ∷ xs) l ws f h hs =
    write_links-IsBounded (x ∷ xs) (put_link l ws f.links) (put_link-IsBounded l ws f.links h hs)

move_word-IsBounded :
    (l : Link) (ws : List ℕ) (f : Firewall)
    → length ws ≤ 10
    → IsBounded f.links
    → IsBounded (move_word l ws f).links
unfolding move_word
move_word-IsBounded l [] f h hs = hs
move_word-IsBounded l (w ∷ ws) f h hs = carry-IsBounded (hop l w) l ws f (omega arith) hs

enter-IsBounded :
    (p : Port) (seen : Bool) (f : Firewall) → IsBounded f.links → IsBounded (enter p seen f).links
unfolding enter sample
enter-IsBounded p seen f hs =
    let (s, out) = Input.thread p (f.input p) (sample p seen f) in
    input_actions-IsBounded p seen out (record f { input = put_at p s f.input })
      (elim (enters_cases p (f.input p) (sample p seen f)) [
        | inl (v, t, k, e) ↦ rw e (omega (arith, k.2))
        | inr e ↦ rw e (omega (arith, hs (in_fifo p)))
      ])
      hs

step-IsBounded : (e : Event) (f : Firewall) → IsBounded f.links → IsBounded (step e f).1.links
unfolding step move respond leave
step-IsBounded (bus_write a v) f hs = rw (enqueue-links (execute_write a) v f) hs
step-IsBounded (enters p seen) f hs = enter-IsBounded p seen f hs
step-IsBounded (moves l true) f hs = move_word-IsBounded l (f.links l) f (hs l) hs
step-IsBounded (moves l false) f hs = hs
step-IsBounded (leaves mem d done seen) f hs = rw (output_actions-links d _ _) (
    put_link-IsBounded (out_fifo d) _ f.links
      (left-bound (if done then false else if (f.output d).preready then false else seen)
        (f.links (out_fifo d)) (hs (out_fifo d)))
      hs)
step-IsBounded (responds p seen_init seen) f hs = rw (response_actions-links _ _) hs
step-IsBounded installs f hs = hs

-- Whatever the interleaving of the threads, the bus and the memories, no link between the ports
-- ever holds more words than INTERNAL_FIFO_SIZE, if none did at first.
pub run-IsBounded :
    (es : List Event) (f : Firewall) → IsBounded f.links → IsBounded (run es f).1.links
unfolding run
run-IsBounded [] f hs = hs
run-IsBounded (e ∷ es) f hs = run-IsBounded es (step e f).1 (step-IsBounded e f hs)
