-- ===== src/Firewall/Module/Checked.antt =====
-- Where the packets come from that reach a memory.
use sc_co_si_m.Prelude.{
  ℕ, ◌≡◌, ◌⊎◌, inl, inr, refl, Bool, true, false, List, [], ◌∷◌, All, All-append, if◌then◌else◌,
  map,
}
use sc_co_si_m.Firewall.Packet.{Port}
use sc_co_si_m.Firewall.Input
use sc_co_si_m.Firewall.Input.{InPort, Sample}
use sc_co_si_m.Firewall.Input.Laws.{stamp, Takes, IsWelcome, enters_cases}
use sc_co_si_m.Firewall.Switch.{Link, hop}
use sc_co_si_m.Firewall.Switch.Laws.{out_fifo}
use sc_co_si_m.Firewall.Registers.{execute_write}
use sc_co_si_m.Firewall.Output
use sc_co_si_m.Firewall.Output.{OutPort, bram, response, execute, take_out, interface_out}
use sc_co_si_m.Firewall.Module.{
  nb_read, left, put_at, Firewall, put_link, sample, enter, move_word, carry, move, leave, respond,
  Event, bus_write, enters, moves, leaves, responds, installs, step, run,
}
use sc_co_si_m.Firewall.Module.Links.{
  put_link-holds, response_actions-links, output_actions-links, enqueue-links,
}
use sc_co_si_m.Firewall.Module.Routing.{
  OnLink, OnLinks, Sent, hop-Sent, write_links-OnLinks, input_actions-OnLinks,
}
use sc_co_si_m.Firewall.Module.Exits.{IsAsked, left_out}

-- What the memory behind a port holds in a round of that port.
abbrev pub Holds : Event → Port → (ℕ → ℕ) → Type 0
Holds (leaves mem p done seen) d m = (p ≡ d) × (mem ≡ m)
Holds e d m = ⊥

-- The packets that an event lets in.
abbrev pub Lets : Event → Firewall → ℕ → Type 0
Lets (enters p seen) f w =
    (v : ℕ) × Takes (f.input p) (sample p seen f) v
    × IsWelcome (f.input p) (sample p seen f) v
    × (w ≡ stamp p v)
Lets e f w = ⊥

tail-All : (P : ℕ → Type 0) (seen : Bool) (ws : List ℕ) → All P ws → All P (left seen ws)
tail-All P false ws h = h
tail-All P true [] h = tt
tail-All P true (w ∷ ws) h = h.1

module _ (Q : ℕ → Type 0) (M : Port → (ℕ → ℕ) → Type 0) where
  enter-OnLinks :
      (p : Port) (seen : Bool) (f : Firewall)
      → ((w : ℕ) → Lets (enters p seen) f w → Q w)
      → OnLinks Q f.links
      → OnLinks Q (enter p seen f).links
  unfolding enter
  enter-OnLinks p seen f h hs =
      let (s, out) = Input.thread p (f.input p) (sample p seen f) in
      input_actions-OnLinks Q p seen out (record f { input = put_at p s f.input })
        (elim (enters_cases p (f.input p) (sample p seen f)) [
          | inl (v, t, k, e) ↦ rw e (h (stamp p v) (v, t, k, refl), tt)
          | inr e ↦ rw e tt
        ])
        hs

  carry-OnLinks :
      (out : List (Link × ℕ)) (l : Link) (ws : List ℕ) (f : Firewall)
      → All (Sent Q) out
      → All (OnLink Q l) ws
      → OnLinks Q f.links
      → OnLinks Q (carry out l ws f).links
  unfolding carry
  carry-OnLinks [] l ws f t h hs = hs
  carry-OnLinks (x ∷ xs) l ws f t h hs =
      write_links-OnLinks Q (x ∷ xs) (put_link l ws f.links) t
        (put_link-holds (λ k. All (OnLink Q k)) l ws f.links h hs)

  move_word-OnLinks :
      (l : Link) (ws : List ℕ) (f : Firewall)
      → All (OnLink Q l) ws
      → OnLinks Q f.links
      → OnLinks Q (move_word l ws f).links
  unfolding move_word
  move_word-OnLinks l [] f h hs = hs
  move_word-OnLinks l (w ∷ ws) f h hs = carry-OnLinks (hop l w) l ws f (hop-Sent Q l w h.0) h.1 hs

  leave-OnLinks :
      (mem : ℕ → ℕ) (d : Port) (done seen : Bool) (f : Firewall)
      → M d mem
      → OnLinks Q f.links
      → OnLinks Q (leave mem d done seen f).1.links
        × All (IsAsked Q M d) (leave mem d done seen f).0
  unfolding leave
  leave-OnLinks mem d done seen f k hs =
      let ws = f.links (out_fifo d) in
      let idle = if done then false else if (f.output d).preready then false else seen in
      let (s, out) = Output.thread mem d (f.output d) done (nb_read idle ws) in
      (
        rw (output_actions-links d out _) (
            put_link-holds (λ k. All (OnLink Q k)) (out_fifo d) (left idle ws) f.links
              (tail-All (OnLink Q (out_fifo d)) idle ws (hs (out_fifo d))) hs),
        left_out Q M mem d (f.output d) done idle ws k (hs (out_fifo d)),
      )

  abbrev pub Asks : Port × Output.Action → Type 0
  Asks x = IsAsked Q M x.0 x.1

  All-at :
      (d : Port) (out : List Output.Action)
      → All (IsAsked Q M d) out
      → All Asks (map (λ a. (d, a)) out)
  All-at d [] h = tt
  All-at d (a ∷ out) h = (h.0, All-at d out h.1)

  step-OnLinks :
      (e : Event) (f : Firewall)
      → ((w : ℕ) → Lets e f w → Q w)
      → ((d : Port) (mem : ℕ → ℕ) → Holds e d mem → M d mem)
      → OnLinks Q f.links
      → OnLinks Q (step e f).1.links × All Asks (step e f).0
  unfolding step move respond
  step-OnLinks (bus_write a v) f h k hs = (rw (enqueue-links (execute_write a) v f) hs, tt)
  step-OnLinks (enters p seen) f h k hs = (enter-OnLinks p seen f h hs, tt)
  step-OnLinks (moves l true) f h k hs = (move_word-OnLinks l (f.links l) f (hs l) hs, tt)
  step-OnLinks (moves l false) f h k hs = (hs, tt)
  step-OnLinks (leaves mem d done seen) f h k hs =
      let (links, out) = leave-OnLinks mem d done seen f (k d mem (refl, refl)) hs in
      (links, All-at d _ out)
  step-OnLinks (responds p seen_init seen) f h k hs = (rw (response_actions-links _ _) hs, tt)
  step-OnLinks installs f h k hs = (hs, tt)

-- The packets that a sequence of events lets in.
abbrev pub Admitted : List Event → Firewall → ℕ → Type 0
Admitted [] f w = ⊥
Admitted (e ∷ es) f w = Lets e f w ⊎ Admitted es (step e f).1 w

-- What the memory behind a port holds in some round of that port.
abbrev pub Held : List Event → Port → (ℕ → ℕ) → Type 0
Held [] d m = ⊥
Held (e ∷ es) d m = Holds e d m ⊎ Held es d m

run_checked_from :
    (Q : ℕ → Type 0) (M : Port → (ℕ → ℕ) → Type 0) (es : List Event) (f : Firewall)
    → ((w : ℕ) → Admitted es f w → Q w)
    → ((d : Port) (mem : ℕ → ℕ) → Held es d mem → M d mem)
    → OnLinks Q f.links
    → OnLinks Q (run es f).1.links × All (Asks Q M) (run es f).0
unfolding run
run_checked_from Q M [] f h k hs = (hs, tt)
run_checked_from Q M (e ∷ es) f h k hs =
    let (links, out) = step-OnLinks Q M e f (λ w l. h w (inl l)) (λ d mem l. k d mem (inl l)) hs in
    let (last, outs) =
      run_checked_from Q M es (step e f).1 (λ w a. h w (inr a)) (λ d mem a. k d mem (inr a))
        links in
    (last, All-append (Asks Q M) (step e f).0 (run es (step e f).1).0 out outs)

-- Whatever the interleaving of the threads, the bus and the memories, from a module whose links
-- between the ports are empty: each write on a memory, and each answer to a read, is at the word
-- that a packet asks for which names the port, and which some input port took and let in while
-- these events went on, under a rule that did not stop it. A write has the packet's data, and an
-- answer is made from what a memory holds at that word with which that port has had a round.
pub run_checked :
    (es : List Event) (f : Firewall)
    → ((l : Link) → f.links l ≡ [])
    → All (Asks (Admitted es f) (Held es)) (run es f).0
run_checked es f empty =
    (run_checked_from (Admitted es f) (Held es) es f (λ w a. a) (λ d mem a. a)
      (λ l. rw (empty l) tt)).1
