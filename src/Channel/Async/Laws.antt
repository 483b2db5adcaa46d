-- ===== src/Channel/Async/Laws.antt =====
-- Packets come out of the channel as they went in, whatever the order of the two sides' steps.
use sc_co_si_m.Prelude.{
  ◌≡◌, refl, sym, ap, ◌∙◌, Bool-cases, inl, inr, Option, none, some, List, [], ◌∷◌, ◌++◌,
}
use mathlib.Core.List.{append_assoc}
use sc_co_si_m.Channel.Async.{
  AsyncChannel, new_channel, back, pop_back, push, nb_get, wait_for_get, nb_put, wait_for_put,
  nb_pull, update, Action, pushes, gets, waits_get, puts, waits_put, pulls, updates,
}

-- The channel with what went in and came out of it, in order.
pub record History (P : Type 0) : Type 0 where
  pub channel : AsyncChannel P
  pub pushed : List P
  pub got : List P
  pub put : List P
  pub pulled : List P

module _ {P : Type 0} where
  -- The last item of a list, put behind the others again.
  abbrev pub to_list : Option P → List P
  to_list none = []
  to_list (some p) = p ∷ []

  abbrev pub oldest_first : List P → List P
  oldest_first [] = []
  oldest_first (p ∷ ps) = oldest_first ps ++ (p ∷ [])

  abbrev pub or_same : Option (AsyncChannel P) → AsyncChannel P → AsyncChannel P
  or_same none c = c
  or_same (some t) c = t

  unfoldable pub act : Action P → History P → History P
  act (pushes p) h = record h { channel = push p h.channel; pushed = h.pushed ++ (p ∷ []) }
  act gets h = let (p, c) = nb_get h.channel in record h { channel = c; got = h.got ++ to_list p }
  act waits_get h = record h { channel = or_same (wait_for_get h.channel) h.channel }
  act (puts p) h = record h { channel = nb_put p h.channel; put = h.put ++ (p ∷ []) }
  act waits_put h = record h { channel = or_same (wait_for_put h.channel) h.channel }
  act pulls h =
      let (p, c) = nb_pull h.channel in record h { channel = c; pulled = h.pulled ++ to_list p }
  act updates h = record h { channel = (update h.channel).1 }

  unfoldable pub run : List (Action P) → History P → History P
  run [] h = h
  run (a ∷ rest) h = run rest (act a h)

  unfoldable pub fresh : History P
  unfolding new_channel
  fresh = record { channel = new_channel; pushed = []; got = []; put = []; pulled = [] }

  -- What went in is what came out and then what is still in the queue, oldest first.
  pub record InOrder (h : History P) : Type 0 where
    pub to_sysc : h.pushed ≡ h.got ++ oldest_first h.channel.queue_to_sysc
    pub fm_sysc : h.put ≡ h.pulled ++ oldest_first h.channel.queue_fm_sysc

  back-pop_back : (ps : List P) → oldest_first ps ≡ to_list (back ps) ++ oldest_first (pop_back ps)
  unfolding back pop_back
  back-pop_back [] = refl
  back-pop_back (p ∷ []) = refl
  back-pop_back (p ∷ q ∷ ps) =
      ap (λ l. l ++ (p ∷ [])) (back-pop_back (q ∷ ps))
      ∙ append_assoc (to_list (back (q ∷ ps))) (oldest_first (pop_back (q ∷ ps))) (p ∷ [])

  nb_get_at :
      (c : AsyncChannel P) (o : Option P)
      → back c.queue_to_sysc ≡ o
      → (oldest_first c.queue_to_sysc
          ≡ to_list (nb_get c).0 ++ oldest_first (nb_get c).1.queue_to_sysc)
        × ((nb_get c).1.queue_fm_sysc ≡ c.queue_fm_sysc)
  unfolding nb_get
  nb_get_at c none e = rw (nb_get, e) (refl, refl)
  nb_get_at c (some p) e = rw (nb_get, e) (rw e at (back-pop_back c.queue_to_sysc), refl)

  nb_pull_at :
      (c : AsyncChannel P) (o : Option P)
      → back c.queue_fm_sysc ≡ o
      → (oldest_first c.queue_fm_sysc
          ≡ to_list (nb_pull c).0 ++ oldest_first (nb_pull c).1.queue_fm_sysc)
        × ((nb_pull c).1.queue_to_sysc ≡ c.queue_to_sysc)
  unfolding nb_pull
  nb_pull_at c none e = rw (nb_pull, e) (refl, refl)
  nb_pull_at c (some p) e = rw (nb_pull, e) (rw e at (back-pop_back c.queue_fm_sysc), refl)

  -- Waiting leaves the queues.
  abbrev SameQueues : AsyncChannel P → AsyncChannel P → Type 0
  SameQueues c t = (t.queue_to_sysc ≡ c.queue_to_sysc) × (t.queue_fm_sysc ≡ c.queue_fm_sysc)

  wait_for_get_same : (c : AsyncChannel P) → SameQueues c (or_same (wait_for_get c) c)
  unfolding wait_for_get
  wait_for_get_same c = elim (Bool-cases c.wait_get) [
    | inl e ↦ rw (wait_for_get, e) (refl, refl)
    | inr e ↦ rw (wait_for_get, e) (refl, refl)
  ]

  wait_for_put_same : (c : AsyncChannel P) → SameQueues c (or_same (wait_for_put c) c)
  unfolding wait_for_put
  wait_for_put_same c = elim (Bool-cases c.wait_put) [
    | inl e ↦ rw (wait_for_put, e) (refl, refl)
    | inr e ↦ rw (wait_for_put, e) (refl, refl)
  ]

  -- Something goes into a queue, or comes out of it.
  into_queue :
      (all out : List P) (q : List P) (p : P)
      → all ≡ out ++ oldest_first q
      → all ++ (p ∷ []) ≡ out ++ oldest_first (p ∷ q)
  into_queue all out q p e = ap (λ l. l ++ (p ∷ [])) e ∙ append_assoc out (oldest_first q) (p ∷ [])

  out_of_queue :
      (all out : List P) (q r : List P) (o : Option P)
      → all ≡ out ++ oldest_first q
      → oldest_first q ≡ to_list o ++ oldest_first r
      → all ≡ (out ++ to_list o) ++ oldest_first r
  out_of_queue all out q r o e f =
      e ∙ ap (λ l. out ++ l) f ∙ sym (append_assoc out (to_list o) (oldest_first r))

  act-InOrder : (a : Action P) (h : History P) → InOrder h → InOrder (act a h)
  unfolding act push nb_put update
  act-InOrder (pushes p) h i = record {
    to_sysc = into_queue h.pushed h.got h.channel.queue_to_sysc p i.to_sysc;
    fm_sysc = i.fm_sysc;
  }
  act-InOrder gets h i =
      let (o, t) = nb_get h.channel in
      let n = nb_get_at h.channel _ refl in
      record {
        to_sysc =
            out_of_queue h.pushed h.got h.channel.queue_to_sysc t.queue_to_sysc o i.to_sysc n.0;
        fm_sysc = rw (n.1) i.fm_sysc;
      }
  act-InOrder waits_get h i =
      let n = wait_for_get_same h.channel in
      record { to_sysc = rw (n.0) i.to_sysc; fm_sysc = rw (n.1) i.fm_sysc }
  act-InOrder (puts p) h i = record {
    to_sysc = i.to_sysc;
    fm_sysc = into_queue h.put h.pulled h.channel.queue_fm_sysc p i.fm_sysc;
  }
  act-InOrder waits_put h i =
      let n = wait_for_put_same h.channel in
      record { to_sysc = rw (n.0) i.to_sysc; fm_sysc = rw (n.1) i.fm_sysc }
  act-InOrder pulls h i =
      let (o, t) = nb_pull h.channel in
      let n = nb_pull_at h.channel _ refl in
      record {
        to_sysc = rw (n.1) i.to_sysc;
        fm_sysc =
            out_of_queue h.put h.pulled h.channel.queue_fm_sysc t.queue_fm_sysc o i.fm_sysc n.0;
      }
  act-InOrder updates h i = record { to_sysc = i.to_sysc; fm_sysc = i.fm_sysc }

  run-InOrder_from :
      (actions : List (Action P)) (h : History P) → InOrder h → InOrder (run actions h)
  unfolding run
  run-InOrder_from [] h i = i
  run-InOrder_from (a ∷ rest) h i = run-InOrder_from rest (act a h) (act-InOrder a h i)

  -- After any sequence of operations on a new channel, in each of its two directions, what was put
  -- in is what came out followed by what waits, oldest first: no packet is lost, repeated or
  -- overtaken.
  pub run-InOrder : (actions : List (Action P)) → InOrder (run actions fresh)
  unfolding fresh new_channel
  run-InOrder actions = run-InOrder_from actions fresh (record { to_sysc = refl; fm_sysc = refl })
