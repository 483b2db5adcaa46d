-- ===== src/Firewall/Module/Quiet.antt =====
-- A module in which nothing waits, and one word on its way through it.
use sc_co_si_m.Prelude.{ℕ, ◌≡◌, ap, ◌∙◌, true, List, [], ◌∷◌, arith, range, ltb, if◌then◌else◌}
use mathlib.Core.Path.{fun_ext}
use sc_co_si_m.Firewall.Packet.{Port, port_0, number}
use sc_co_si_m.Firewall.Switch.{
  Link, out_fifo_s1_0, out_fifo_s1_1, out_fifo_s2_0, out_fifo_s2_1, rotate, forward, switch,
  entry_sw_1, entry_sw_2, entry_sw_3, entry_sw_4, hop,
}
use sc_co_si_m.Firewall.Switch.Laws.{in_fifo, out_fifo, rotate-rotate, exits, upper, lower}
use sc_co_si_m.Firewall.Module.{
  Firewall, put_at, put_link, nb_write, write_links, moves, step, move, move_word, carry,
}

abbrev pub no_words : {A : Type 0} → A → List ℕ
no_words a = []

-- The fifos emptied, the rest of the module as it is.
abbrev pub quiet : Firewall → Firewall
quiet g = record g {
  waiting = no_words;
  links = no_words;
  responce_fifo = no_words;
  init_responce_fifo = no_words;
}

pub put_at-same : {A : Type 0} (p : Port) (a : A) (f : Port → A) → put_at p a f p ≡ a
put_at-same p a f = ground arith

pub put_at-empty : (p : Port) → put_at p [] no_words ≡ no_words
put_at-empty p = fun_ext λ q. ground arith

pub put_at-emptied : (p : Port) (ws : List ℕ) → put_at p [] (put_at p ws no_words) ≡ no_words
put_at-emptied p ws = fun_ext λ q. ground arith

pub put_link-same : (l : Link) (ws : List ℕ) (f : Link → List ℕ) → put_link l ws f l ≡ ws
put_link-same l ws f = ground arith

pub put_link-emptied : (l : Link) (ws : List ℕ) → put_link l [] (put_link l ws no_words) ≡ no_words
put_link-emptied l ws = fun_ext λ k. ground arith

-- The one word on the links, on `l`.
abbrev pub only : Link → ℕ → Link → List ℕ
only l w = put_link l (w ∷ []) no_words

written : (l m : Link) (w v : ℕ) → write_links ((m, v) ∷ []) (put_link l [] (only l w)) ≡ only m v
unfolding write_links nb_write
written l m w v = ap (λ f. write_links ((m, v) ∷ []) f) (put_link-emptied l (w ∷ []))

-- The word on `l` is moved, alone, to `m`.
pub moved :
    (l m : Link) (w v : ℕ) (g : Firewall)
    → hop l w ≡ (m, v) ∷ []
    → step (moves l true) (record g { links = only l w }) ≡ ([], record g { links = only m v })
unfolding step move move_word carry
moved l m w v g e =
    let found : move_word l (only l w l) (record g { links = only l w })
        ≡ record g { links = only m v } =
      ap (λ ws. move_word l ws (record g { links = only l w })) (put_link-same l (w ∷ []) no_words)
      ∙ ap (λ out. carry out l [] (record g { links = only l w })) e
      ∙ ap (λ f. record g { links = f }) (written l m w v) in
    ap (λ f. ([], f)) found

-- The link between the two rows of switches on the way from `p` to `d`.
abbrev pub middle : Port → Port → Link
middle p d =
    if ltb (number p) 2
    then (if ltb (number d) 2 then out_fifo_s1_0 else out_fifo_s1_1)
    else (if ltb (number d) 2 then out_fifo_s2_0 else out_fifo_s2_1)

pub first_hop :
    (p d : Port) (w : ℕ)
    → range w 17 16 ≡ number d
    → hop (in_fifo p) w ≡ (middle p d, rotate w) ∷ []
unfolding hop in_fifo entry_sw_1 entry_sw_2 switch forward upper
first_hop port_0 d w e = ground (arith, exits d w e)
first_hop p d w e = ground (arith, exits d w e)

pub second_hop :
    (p d : Port) (w : ℕ)
    → range w 17 16 ≡ number d
    → hop (middle p d) (rotate w) ≡ (out_fifo d, w) ∷ []
unfolding hop out_fifo entry_sw_3 entry_sw_4 switch forward lower
second_hop p d w e = ground (arith, exits d w e, rotate-rotate w)
