-- ===== src/Firewall/Input/Laws.antt =====
-- One round of an input port: which packets pass, and with which fields.
use sc_co_si_m.Prelude.{
  ℕ, ◌+◌, ◌<◌, ◌≡◌, ◌≢◌, ◌⊎◌, ◌↔◌, ◌==◌, true, false, ◌&&◌, Option, none, some, List, [], ◌∷◌,
  range, set_range, bit, ltb, Bool-cases, arith, u32, if◌then◌else◌, refl, inl, inr,
}
use sc_co_si_m.Firewall.Packet.{Port, port_0, port_1, port_2, port_3, number, read_packet}
use sc_co_si_m.Firewall.Rule.{fw_hit}
use sc_co_si_m.Firewall.Rule.Laws.{Blocks, fw_hit_iff}
use sc_co_si_m.Firewall.Input.{
  InPort, Sample, Action, in_fifo, read_in, total, init_responce, is_read, latch, block,
  drop_packet, accept, admit, receive, take_in, interface_in, interface_in_0, interface_in_1,
  interface_in_2, interface_in_3, thread,
}

-- The four threads are one function of the port.
pub thread_lem : (p : Port) (s : InPort) (x : Sample) → thread p s x ≡ interface_in p s x
unfolding thread interface_in_0 interface_in_1 interface_in_2 interface_in_3
thread_lem port_0 s x = refl
thread_lem port_1 s x = refl
thread_lem port_2 s x = refl
thread_lem port_3 s x = refl

-- The words that a list of actions hands to the switches.
unfoldable pub entered : List Action → List ℕ
entered [] = []
entered (in_fifo v ∷ out) = v ∷ entered out
entered (_ ∷ out) = entered out

-- The word that an accepted packet becomes.
abbrev pub stamp : Port → ℕ → ℕ
stamp p w = if is_read w then set_range w 19 18 (number p) else w

pub number-lt-four : (p : Port) → number p < 4
number-lt-four port_0 = omega arith
number-lt-four _ = omega arith

-- A read carries the number of the port that it came in by for its source, a write the source that
-- its sender wrote, and nothing else of the packet changes.
pub stamp_fields :
    (p : Port) (w : ℕ)
    → (range (stamp p w) 31 20 ≡ range w 31 20)
      × (range (stamp p w) 17 0 ≡ range w 17 0)
      × (range (stamp p w) 19 18 ≡ (if is_read w then number p else range w 19 18))
stamp_fields p w = elim (Bool-cases (is_read w)) [
  | inl e ↦ rw e (fields (number p) (number-lt-four p))
  | inr e ↦ rw e (refl, refl, refl)
]
  where
    fields :
        (k : ℕ)
        → k < 4
        → (range (set_range w 19 18 k) 31 20 ≡ range w 31 20)
          × (range (set_range w 19 18 k) 17 0 ≡ range w 17 0)
          × (range (set_range w 19 18 k) 19 18 ≡ k)
    fields k h = omega arith

accept_enters : (p : Port) (s : InPort) (w : ℕ) → entered (accept p s w).1 ≡ stamp p w ∷ []
unfolding accept entered
accept_enters p s w = ground arith

block_enters_none : (s : InPort) (w : ℕ) → entered (block s w).1 ≡ []
unfolding block entered
block_enters_none s w = ground arith

drop_enters_none : (s : InPort) → entered (drop_packet s).1 ≡ []
unfolding drop_packet entered
drop_enters_none s = refl

-- The port lets the packet in: no rule stops it, it is no read while a result is awaited, and
-- there is room.
abbrev pub Passes : InPort → Sample → ℕ → Type 0
Passes s x w =
    (fw_hit s.rule w ≡ false)
    × ((bit x.responce 31 && is_read w) ≡ false)
    × (ltb 0 x.num_free ≡ true)

admit_enters :
    (p : Port) (s : InPort) (x : Sample) (w : ℕ)
    → (Passes s x w × (entered (admit p s x w).1 ≡ stamp p w ∷ []))
      ⊎ (¬ Passes s x w × (entered (admit p s x w).1 ≡ []))
unfolding admit
admit_enters p s x w =
    ground (arith, accept_enters p s w, block_enters_none s w, drop_enters_none s)

-- The port takes `w` out of in_k this round: the rule is the one latched, and `w` differs from
-- the packet before it.
abbrev pub Takes : InPort → Sample → ℕ → Type 0
Takes s x w = (x.rule_range ≡ s.pre_read_r) × (x.waiting ≡ some w) × (w ≢ s.preval)

-- No rule stops `w`, it is not a read on a port that awaits a result, and there is room.
abbrev pub IsWelcome : InPort → Sample → ℕ → Type 0
IsWelcome s x w =
    (¬ Blocks s.rule (read_packet w))
    × ((bit x.responce 31 && is_read w) ≡ false)
    × (0 < x.num_free)

Passes-iff : (s : InPort) (x : Sample) (w : ℕ) → Passes s x w ↔ IsWelcome s x w
Passes-iff s x w = (to, from)
  where
    to : Passes s x w → IsWelcome s x w
    to h = (λ b. cc ((fw_hit_iff s.rule w).1 b), h.1, ground arith)

    from : IsWelcome s x w → Passes s x w
    from h = (
      elim (Bool-cases (fw_hit s.rule w)) [
        | inl e ↦ absurd (h.0 ((fw_hit_iff s.rule w).0 e))
        | inr e ↦ e
      ],
      h.1,
      ground arith,
    )

receive_enters :
    (p : Port) (s : InPort) (x : Sample) (w : ℕ)
    → w ≢ s.preval
    → (Passes s x w × (entered (receive p s x w).1 ≡ stamp p w ∷ []))
      ⊎ (¬ Passes s x w × (entered (receive p s x w).1 ≡ []))
unfolding receive entered
receive_enters p s x w n =
    let t = record s { preval = w; count_total = u32 (s.count_total + 1) } in
    ground (arith, admit_enters p t x w)

thread_receives :
    (p : Port) (s : InPort) (x : Sample) (w : ℕ)
    → x.rule_range ≡ s.pre_read_r
    → x.waiting ≡ some w
    → thread p s x ≡ receive p s x w
unfolding interface_in take_in
thread_receives p s x w r e = rw (thread_lem p s x) (ground arith)

-- A port that takes a packet (its rule is latched, and the packet differs from the one before it)
-- hands the switches that packet, with a read's source stamped, exactly when no rule stops it, it
-- is not a read on a port that awaits a result, and the fifo has room; and hands them nothing
-- exactly otherwise.
pub thread_enters_iff :
    (p : Port) (s : InPort) (x : Sample) (w : ℕ)
    → Takes s x w
    → let out = (thread p s x).1 in
      ((entered out ≡ stamp p w ∷ []) ↔ IsWelcome s x w)
      × ((entered out ≡ []) ↔ (¬ IsWelcome s x w))
thread_enters_iff p s x w h =
    rw (thread_receives p s x w h.0 h.1) (decide (receive_enters p s x w h.2) (Passes-iff s x w))
  where
    decide :
        {P Q : Type 0} {l : List ℕ}
        → (P × (l ≡ stamp p w ∷ [])) ⊎ (¬ P × (l ≡ []))
        → P ↔ Q
        → ((l ≡ stamp p w ∷ []) ↔ Q) × ((l ≡ []) ↔ (¬ Q))
    decide (inl c) i = ((λ _. i.0 c.0, λ _. c.1), (λ e. cc, λ n. absurd (n (i.0 c.0))))
    decide (inr c) i = ((λ e. cc, λ q. absurd (c.0 (i.1 q))), (λ _ q. c.0 (i.1 q), λ _. c.1))

-- A round that takes no packet hands the switches nothing.
thread_enters_none :
    (p : Port) (s : InPort) (x : Sample) → ((w : ℕ) → ¬ Takes s x w) → entered (thread p s x).1 ≡ []
unfolding interface_in take_in receive latch entered
thread_enters_none p s x h = rw (thread_lem p s x) (go x.waiting refl)
  where
    go : (o : Option ℕ) → x.waiting ≡ o → entered (interface_in p s x).1 ≡ []
    go none e = ground arith
    go (some w) e = ground (arith, h w)

-- What a round hands the switches is one packet that the port takes and lets in, stamped, or
-- nothing.
pub enters_cases :
    (p : Port) (s : InPort) (x : Sample)
    → ((w : ℕ) × Takes s x w × IsWelcome s x w × (entered (thread p s x).1 ≡ stamp p w ∷ []))
      ⊎ (entered (thread p s x).1 ≡ [])
enters_cases p s x = go x.waiting refl
  where
    go :
        (o : Option ℕ)
        → x.waiting ≡ o
        → ((w : ℕ) × Takes s x w × IsWelcome s x w × (entered (thread p s x).1 ≡ stamp p w ∷ []))
          ⊎ (entered (thread p s x).1 ≡ [])
    go none e = inr (thread_enters_none p s x (λ w t. ground (arith, e, t.1)))
    go (some w) e = elim (Bool-cases (x.rule_range == s.pre_read_r)) [
      | inr n ↦ inr (thread_enters_none p s x (λ v t. ground (arith, n, t.0)))
      | inl r ↦ elim (Bool-cases (w == s.preval)) [
        | inl q ↦ inr (thread_enters_none p s x (λ v t. ground (arith, e, q, t.1, t.2)))
        | inr q ↦
            let t : Takes s x w = (ground (arith, r), e, ground (arith, q)) in
            elim (receive_enters p s x w t.2) [
              | inl c ↦
                  inl (w, t, (Passes-iff s x w).0 c.0, rw (thread_receives p s x w t.0 e) (c.1))
              | inr c ↦ inr (rw (thread_receives p s x w t.0 e) (c.1))
            ]
      ]
    ]

-- What a round does with a read that it takes and lets in.
pub thread_read :
    (p : Port) (s : InPort) (x : Sample) (w : ℕ)
    → Takes s x w
    → IsWelcome s x w
    → is_read w ≡ true
    → let n = u32 (s.count_total + 1) in
      thread p s x ≡ (
        record s { preval = w; count_total = n },
        read_in ∷ total n ∷ init_responce 0x80000000 ∷ in_fifo (stamp p w) ∷ [],
      )
unfolding receive admit accept
thread_read p s x w t k e =
    rw (thread_receives p s x w t.0 t.1) (ground (arith, (Passes-iff s x w).1 k))

-- What a round does with any other packet that it takes and lets in.
pub thread_no_read :
    (p : Port) (s : InPort) (x : Sample) (w : ℕ)
    → Takes s x w
    → IsWelcome s x w
    → is_read w ≡ false
    → let n = u32 (s.count_total + 1) in
      thread p s x
      ≡ (record s { preval = w; count_total = n }, read_in ∷ total n ∷ in_fifo (stamp p w) ∷ [])
unfolding receive admit accept
thread_no_read p s x w t k e =
    rw (thread_receives p s x w t.0 t.1) (ground (arith, (Passes-iff s x w).1 k))
