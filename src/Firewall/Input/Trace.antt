-- ===== src/Firewall/Input/Trace.antt =====
-- All rounds of an input port: its counters account for every packet, and what a repeated packet
-- brings.
use sc_co_si_m.Prelude.{
  ℕ, ◌+◌, ◌<◌, ◌^◌, ◌≡◌, ◌⊎◌, Bool, true, false, Option, none, some, List, [], ◌∷◌, ◌++◌, All,
  arith, u32, refl, if◌then◌else◌,
}
use sc_co_si_m.Firewall.Packet.{Port}
use sc_co_si_m.Firewall.Input.{
  InPort, Sample, Action, read_in, write_ended, droped, fw_rule_hit_counter, in_fifo, start, latch,
  block, drop_packet, accept, admit, receive, take_in, interface_in, thread, run,
}
use sc_co_si_m.Firewall.Input.Laws.{thread_lem, entered}

-- How many actions of a list are of a kind.
pub tally : (Action → Bool) → List Action → ℕ
tally k [] = 0
tally k (a ∷ out) = (if k a then 1 else 0) + tally k out

pub is_entry : Action → Bool
is_entry (in_fifo _) = true
is_entry _ = false

pub is_hit : Action → Bool
is_hit (fw_rule_hit_counter _) = true
is_hit _ = false

pub is_drop : Action → Bool
is_drop (droped _) = true
is_drop _ = false

pub is_end : Action → Bool
is_end write_ended = true
is_end _ = false

tally-append :
    (k : Action → Bool) (xs ys : List Action) → tally k (xs ++ ys) ≡ tally k xs + tally k ys
unfolding tally
tally-append k [] ys = omega arith
tally-append k (x ∷ xs) ys = omega (arith, tally-append k xs ys)

-- The counters are 32-bit words.
pub record IsCounter (s : InPort) : Type 0 where
  pub total_word : s.count_total < 2 ^ 32
  pub hit_word : s.rule_hit_counter < 2 ^ 32
  pub droped_word : s.count_droped < 2 ^ 32

-- From `s` to `t` the counters grew by what `out` did, and every packet that was stopped or
-- dropped, and no other, was acknowledged.
pub record Accounts (s t : InPort) (out : List Action) : Type 0 where
  pub totals :
      t.count_total
      ≡ u32 (s.count_total + (tally is_entry out + tally is_hit out + tally is_drop out))
  pub hits : t.rule_hit_counter ≡ u32 (s.rule_hit_counter + tally is_hit out)
  pub drops : t.count_droped ≡ u32 (s.count_droped + tally is_drop out)
  pub acknowledged : tally is_end out ≡ tally is_hit out + tally is_drop out

-- What `admit` does to the hits and drops, one packet at a time.
admit-Accounts :
    (p : Port) (s : InPort) (x : Sample) (w : ℕ)
    → IsCounter s
    → let (t, out) = admit p s x w in
      (t.count_total ≡ s.count_total)
      × (tally is_entry out + tally is_hit out + tally is_drop out ≡ 1)
      × (t.rule_hit_counter ≡ u32 (s.rule_hit_counter + tally is_hit out))
      × (t.count_droped ≡ u32 (s.count_droped + tally is_drop out))
      × (tally is_end out ≡ tally is_hit out + tally is_drop out)
unfolding admit block drop_packet accept tally is_entry is_hit is_drop is_end
admit-Accounts p s x w c = ground arith

receive-Accounts :
    (p : Port) (s : InPort) (x : Sample) (w : ℕ)
    → IsCounter s
    → let (t, out) = receive p s x w in Accounts s t out
unfolding receive tally is_entry is_hit is_drop is_end
receive-Accounts p s x w c =
    let t = record s { preval = w; count_total = u32 (s.count_total + 1) } in
    let c' : IsCounter t = omega arith in ground (arith, admit-Accounts p t x w c')

thread-Accounts :
    (p : Port) (s : InPort) (x : Sample)
    → IsCounter s
    → let (t, out) = thread p s x in Accounts s t out
unfolding interface_in take_in latch tally is_entry is_hit is_drop is_end
thread-Accounts p s x c = rw (thread_lem p s x) (go x.waiting refl)
  where
    go : (o : Option ℕ) → x.waiting ≡ o → let (t, out) = interface_in p s x in Accounts s t out
    go none e = ground arith
    go (some w) e = ground (arith, receive-Accounts p s x w c)

Accounts-IsCounter : {s t : InPort} {out : List Action} → Accounts s t out → IsCounter t
Accounts-IsCounter a = omega (arith, a)

Accounts-trans :
    {s t u : InPort} {out outs : List Action}
    → Accounts s t out
    → Accounts t u outs
    → Accounts s u (out ++ outs)
Accounts-trans {out = out} {outs = outs} a b = omega (
  arith,
  tally-append is_entry out outs,
  tally-append is_hit out outs,
  tally-append is_drop out outs,
  tally-append is_end out outs,
)

run-Accounts :
    (p : Port) (s : InPort) (xs : List Sample)
    → IsCounter s
    → let (t, out) = run p s xs in Accounts s t out
unfolding run tally
run-Accounts p s [] c = omega arith
run-Accounts p s (x ∷ xs) c =
    let (s', out) = thread p s x in
    let (t, outs) = run p s' xs in
    let first = thread-Accounts p s x c in
    let rest = run-Accounts p s' xs (Accounts-IsCounter first) in Accounts-trans first rest

-- After any sequence of rounds from the start, a port's counters are, modulo 2^32, the numbers of
-- entries, rule hits and drops that it has signalled, and there are as many acknowledgements to the
-- bus as rule hits and drops.
run_conserves :
    (p : Port) (xs : List Sample)
    → let (t, out) = run p start xs in
      (t.count_total ≡ u32 (tally is_entry out + tally is_hit out + tally is_drop out))
      × (t.rule_hit_counter ≡ u32 (tally is_hit out))
      × (t.count_droped ≡ u32 (tally is_drop out))
      × (tally is_end out ≡ tally is_hit out + tally is_drop out)
unfolding start
run_conserves p xs = omega (arith, run-Accounts p start xs (unfold start in omega arith))

-- A sample in which nothing is new: the rule is the one latched, and no packet waits but the one
-- that came last.
abbrev pub IsStale : InPort → Sample → Type 0
IsStale s x = (x.rule_range ≡ s.pre_read_r) × ((x.waiting ≡ none) ⊎ (x.waiting ≡ some s.preval))

thread_stale : (p : Port) (s : InPort) (x : Sample) → IsStale s x → thread p s x ≡ (s, read_in ∷ [])
unfolding interface_in take_in receive
thread_stale p s x h = rw (thread_lem p s x) (ground arith)

-- Over rounds in which nothing is new, the port stays as it is, hands nothing to the switches and
-- acknowledges nothing.
run_stale :
    (p : Port) (s : InPort) (xs : List Sample)
    → All (IsStale s) xs
    → let (t, out) = run p s xs in (t ≡ s) × (entered out ≡ []) × (tally is_end out ≡ 0)
unfolding run entered tally is_end
run_stale p s [] h = (refl, refl, refl)
run_stale p s (x ∷ xs) h =
    let (same, none_enters, none_ends) = run_stale p s xs h.1 in
    rw (thread_stale p s x h.0) (same, none_enters, omega arith)
