-- ===== src/Firewall/Module/Routing.antt =====
-- The words on the links between the input ports and the output ports.
use sc_co_si_m.Prelude.{
  ℕ, ◌≡◌, inl, inr, refl, ◌∙◌, Bool, true, false, some, List, [], ◌∷◌, ◌++◌, All, All-append,
  Bool-cases, arith, range, bit, ltb, if◌then◌else◌, length,
}
use sc_co_si_m.Firewall.Packet.{Port, port_0, port_1, port_2, port_3, number}
use sc_co_si_m.Firewall.Input
use sc_co_si_m.Firewall.Input.{InPort, Sample}
use sc_co_si_m.Firewall.Input.Laws.{entered}
use sc_co_si_m.Firewall.Switch.{
  Link, in_fifo_0, in_fifo_1, in_fifo_2, in_fifo_3, out_fifo_s1_0, out_fifo_s1_1, out_fifo_s2_0,
  out_fifo_s2_1, out_fifo_0, out_fifo_1, out_fifo_2, out_fifo_3, next_position, rotate, forward,
  switch, entry_sw_1, entry_sw_2, entry_sw_3, entry_sw_4, hop,
}
use sc_co_si_m.Firewall.Switch.Laws.{in_fifo, out_fifo, rotate-rotate}
use sc_co_si_m.Firewall.Module.{
  Firewall, put_link, nb_write, write_links, input_action, input_actions,
}
use sc_co_si_m.Firewall.Module.Links.{put_link-holds}

rotated : (w : ℕ) → bit (rotate w) 16 ≡ next_position w
unfolding rotate next_position
rotated w = ground arith

-- The destination of a rotated word.
rotated_dest :
    (w : ℕ)
    → range (rotate w) 17 16 ≡ (
        if bit w 16 then (if next_position w then 3 else 2) else (if next_position w then 1 else 0))
unfolding rotate next_position
rotated_dest w = ground arith

module _ (Q : ℕ → Type 0) where
  -- What the words on a link are, where `Q` says what the words are that entered.
  abbrev pub OnLink : Link → ℕ → Type 0
  OnLink in_fifo_0 w = Q w
  OnLink in_fifo_1 w = Q w
  OnLink in_fifo_2 w = Q w
  OnLink in_fifo_3 w = Q w
  OnLink out_fifo_s1_0 w = Q (rotate w) × (bit w 16 ≡ false)
  OnLink out_fifo_s1_1 w = Q (rotate w) × (bit w 16 ≡ true)
  OnLink out_fifo_s2_0 w = Q (rotate w) × (bit w 16 ≡ false)
  OnLink out_fifo_s2_1 w = Q (rotate w) × (bit w 16 ≡ true)
  OnLink out_fifo_0 w = Q w × (range w 17 16 ≡ 0)
  OnLink out_fifo_1 w = Q w × (range w 17 16 ≡ 1)
  OnLink out_fifo_2 w = Q w × (range w 17 16 ≡ 2)
  OnLink out_fifo_3 w = Q w × (range w 17 16 ≡ 3)

  abbrev pub Sent : Link × ℕ → Type 0
  Sent x = OnLink x.0 x.1

  forwarded :
      (low high : Link) (w : ℕ)
      → (next_position w ≡ false → OnLink low (rotate w))
      → (next_position w ≡ true → OnLink high (rotate w))
      → All Sent (forward low high (some w))
  unfolding forward
  forwarded low high w l h = elim (Bool-cases (next_position w)) [
    | inl e ↦ rw e (h e, tt)
    | inr e ↦ rw e (l e, tt)
  ]

  first_row :
      (w : ℕ) (b : Bool)
      → Q w
      → next_position w ≡ b
      → Q (rotate (rotate w)) × (bit (rotate w) 16 ≡ b)
  first_row w b q e = rw (rotate-rotate w) (q, rotated w ∙ e)

  second_row :
      (w : ℕ) (a b : Bool)
      → Q (rotate w)
      → bit w 16 ≡ a
      → next_position w ≡ b
      → Q (rotate w)
        × (range (rotate w) 17 16 ≡ (if a then (if b then 3 else 2) else (if b then 1 else 0)))
  second_row w a b q e f = (q, rw (rotated_dest w, e, f) refl)

  pub hop-Sent : (l : Link) (w : ℕ) → OnLink l w → All Sent (hop l w)
  unfolding hop entry_sw_1 entry_sw_2 entry_sw_3 entry_sw_4 switch forward
  hop-Sent in_fifo_0 w q =
      forwarded out_fifo_s1_0 out_fifo_s1_1 w (first_row w false q) (first_row w true q)
  hop-Sent in_fifo_1 w q =
      forwarded out_fifo_s1_0 out_fifo_s1_1 w (first_row w false q) (first_row w true q)
  hop-Sent in_fifo_2 w q =
      forwarded out_fifo_s2_0 out_fifo_s2_1 w (first_row w false q) (first_row w true q)
  hop-Sent in_fifo_3 w q =
      forwarded out_fifo_s2_0 out_fifo_s2_1 w (first_row w false q) (first_row w true q)
  hop-Sent out_fifo_s1_0 w q =
      forwarded out_fifo_0 out_fifo_1 w (second_row w false false q.0 q.1)
        (second_row w false true q.0 q.1)
  hop-Sent out_fifo_s1_1 w q =
      forwarded out_fifo_2 out_fifo_3 w (second_row w true false q.0 q.1)
        (second_row w true true q.0 q.1)
  hop-Sent out_fifo_s2_0 w q =
      forwarded out_fifo_0 out_fifo_1 w (second_row w false false q.0 q.1)
        (second_row w false true q.0 q.1)
  hop-Sent out_fifo_s2_1 w q =
      forwarded out_fifo_2 out_fifo_3 w (second_row w true false q.0 q.1)
        (second_row w true true q.0 q.1)
  hop-Sent _ w q = tt

  -- Every word on every link is what the link's words are.
  abbrev pub OnLinks : (Link → List ℕ) → Type 0
  OnLinks f = (l : Link) → All (OnLink l) (f l)

  nb_write-holds : (P : ℕ → Type 0) (w : ℕ) (ws : List ℕ) → P w → All P ws → All P (nb_write w ws)
  unfolding nb_write
  nb_write-holds P w ws h hs = elim (Bool-cases (ltb (length ws) 10)) [
    | inl e ↦ rw e (All-append P ws (w ∷ []) hs (h, tt))
    | inr e ↦ rw e hs
  ]

  pub write_links-OnLinks :
      (ws : List (Link × ℕ)) (f : Link → List ℕ)
      → All Sent ws
      → OnLinks f
      → OnLinks (write_links ws f)
  unfolding write_links
  write_links-OnLinks [] f h hs = hs
  write_links-OnLinks ((l, w) ∷ ws) f h hs =
      write_links-OnLinks ws (put_link l (nb_write w (f l)) f) h.1 (
        put_link-holds (λ k. All (OnLink k)) l (nb_write w (f l)) f
          (nb_write-holds (OnLink l) w (f l) h.0 (hs l)) hs)

  entered-OnLink : (p : Port) (w : ℕ) → Q w → OnLink (in_fifo p) w
  unfolding in_fifo
  entered-OnLink port_0 w q = q
  entered-OnLink port_1 w q = q
  entered-OnLink port_2 w q = q
  entered-OnLink port_3 w q = q

  pub leaving-OnLink : (p : Port) (w : ℕ) → OnLink (out_fifo p) w → Q w × (range w 17 16 ≡ number p)
  unfolding out_fifo
  leaving-OnLink port_0 w q = q
  leaving-OnLink port_1 w q = q
  leaving-OnLink port_2 w q = q
  leaving-OnLink port_3 w q = q

  pub input_actions-OnLinks :
      (p : Port) (seen : Bool) (out : List Input.Action) (f : Firewall)
      → All Q (entered out)
      → OnLinks f.links
      → OnLinks (input_actions p seen out f).links
  unfolding input_actions input_action entered
  input_actions-OnLinks p seen [] f h hs = hs
  input_actions-OnLinks p seen (Input.in_fifo w ∷ out) f h hs =
      input_actions-OnLinks p seen out (input_action p seen (Input.in_fifo w) f) h.1 (
        put_link-holds (λ k. All (OnLink k)) (in_fifo p) (f.links (in_fifo p) ++ w ∷ []) f.links
          (All-append (OnLink (in_fifo p)) (f.links (in_fifo p)) (w ∷ []) (hs (in_fifo p))
            (entered-OnLink p w h.0, tt))
          hs)
  input_actions-OnLinks p seen (a ∷ out) f h hs =
      input_actions-OnLinks p seen out (input_action p seen a f) h hs
