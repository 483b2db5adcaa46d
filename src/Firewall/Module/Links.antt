-- ===== src/Firewall/Module/Links.antt =====
-- The tables of the ports and of the links: what holds of each entry holds after a change.
use sc_co_si_m.Prelude.{
  ℕ, ◌≡◌, refl, sym, ap, ◌∙◌, true, ◌==◌, ==_iff, Bool-cases, inl, inr, List, [], ◌∷◌,
  if◌then◌else◌,
}
use mathlib.Core.Path.{subst}
use sc_co_si_m.Firewall.Packet.{Port}
use sc_co_si_m.Firewall.Switch.{
  Link, in_fifo_0, in_fifo_1, in_fifo_2, in_fifo_3, out_fifo_s1_0, out_fifo_s1_1, out_fifo_s2_0,
  out_fifo_s2_1, out_fifo_0, out_fifo_1, out_fifo_2, out_fifo_3,
}
use sc_co_si_m.Firewall.Registers.{WriteTarget, packet}
use sc_co_si_m.Firewall.Output
use sc_co_si_m.Firewall.Response
use sc_co_si_m.Firewall.Module.{
  Firewall, link_number, put_link, output_actions, response_actions, enqueue,
}

link_of : ℕ → Link
link_of n =
    if n == 0
    then in_fifo_0
    else if n == 1
    then in_fifo_1
    else if n == 2
    then in_fifo_2
    else if n == 3
    then in_fifo_3
    else if n == 4
    then out_fifo_s1_0
    else if n == 5
    then out_fifo_s1_1
    else if n == 6
    then out_fifo_s2_0
    else if n == 7
    then out_fifo_s2_1
    else if n == 8
    then out_fifo_0
    else if n == 9
    then out_fifo_1
    else if n == 10
    then out_fifo_2
    else out_fifo_3

link_of-number : (l : Link) → link_of (link_number l) ≡ l
unfolding link_of
link_of-number in_fifo_0 = refl
link_of-number _ = refl

same_link : (l k : Link) → (link_number l == link_number k) ≡ true → l ≡ k
same_link l k e =
    sym (link_of-number l)
    ∙ ap link_of ((==_iff (link_number l) (link_number k)).0 e)
    ∙ link_of-number k

pub put_link-holds :
    (P : Link → List ℕ → Type 0) (l : Link) (ws : List ℕ) (f : Link → List ℕ)
    → P l ws
    → ((k : Link) → P k (f k))
    → (k : Link) → P k (put_link l ws f k)
put_link-holds P l ws f h hs k = elim (Bool-cases (link_number l == link_number k)) [
  | inl e ↦ rw e (subst (λ j. P j ws) (same_link l k e) h)
  | inr e ↦ rw e (hs k)
]

-- The links after what the other threads do.
pub response_actions-links :
    (out : List Response.Action) (f : Firewall) → (response_actions out f).links ≡ f.links
unfolding response_actions
response_actions-links [] f = refl
response_actions-links (Response.deliver p w ∷ out) f = response_actions-links out _
response_actions-links (Response.write_ended ∷ out) f = response_actions-links out f

pub output_actions-links :
    (p : Port) (out : List Output.Action) (f : Firewall) → (output_actions p out f).links ≡ f.links
unfolding output_actions
output_actions-links p [] f = refl
output_actions-links p (Output.responce_fifo w ∷ out) f = output_actions-links p out _
output_actions-links p (a ∷ out) f = output_actions-links p out f

pub enqueue-links : (t : WriteTarget) (v : ℕ) (f : Firewall) → (enqueue t v f).links ≡ f.links
unfolding enqueue
enqueue-links (packet p) v f = refl
enqueue-links t v f = refl
