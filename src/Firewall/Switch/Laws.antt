-- ===== src/Firewall/Switch/Laws.antt =====
-- Two switches deliver a packet, unchanged, to the port that it names.
use sc_co_si_m.Prelude.{ℕ, ◌≡◌, Bool, true, false, List, [], ◌∷◌, ◌++◌, arith, range, bit}
use sc_co_si_m.Firewall.Packet.{Port, port_0, port_1, port_2, port_3, number}
use sc_co_si_m.Firewall.Switch.{
  Link, in_fifo_0, in_fifo_1, in_fifo_2, in_fifo_3, out_fifo_0, out_fifo_1, out_fifo_2, out_fifo_3,
  next_position, rotate, forward, switch, entry_sw_1, entry_sw_2, entry_sw_3, entry_sw_4, hop,
}

-- Rotating twice gives the packet back.
pub rotate-rotate : (w : ℕ) → rotate (rotate w) ≡ w
unfolding rotate next_position
rotate-rotate w = ground arith

next_position-rotate : (w : ℕ) → next_position (rotate w) ≡ bit w 16
unfolding rotate next_position
next_position-rotate w = ground arith

-- A packet's way: the hops of each packet that a hop put on a link.
pub hops : List (Link × ℕ) → List (Link × ℕ)
hops [] = []
hops ((l, w) ∷ ps) = hop l w ++ hops ps

unfoldable pub in_fifo : Port → Link
in_fifo port_0 = in_fifo_0
in_fifo port_1 = in_fifo_1
in_fifo port_2 = in_fifo_2
in_fifo port_3 = in_fifo_3

unfoldable pub out_fifo : Port → Link
out_fifo port_0 = out_fifo_0
out_fifo port_1 = out_fifo_1
out_fifo port_2 = out_fifo_2
out_fifo port_3 = out_fifo_3

-- The exits that a packet for `d` takes: first by the upper bit of `d`, then by the lower.
unfoldable pub upper : Port → Bool
upper port_0 = false
upper port_1 = false
upper port_2 = true
upper port_3 = true

unfoldable pub lower : Port → Bool
lower port_0 = false
lower port_1 = true
lower port_2 = false
lower port_3 = true

pub exits :
    (d : Port) (w : ℕ)
    → range w 17 16 ≡ number d
    → (next_position w ≡ upper d) × (next_position (rotate w) ≡ lower d)
unfolding next_position upper lower
exits port_0 w e = rw (next_position-rotate w) (ground arith)
exits _ w e = rw (next_position-rotate w) (ground arith)

-- From every input port, a packet whose destination is port d is, after two switches, the one
-- packet there is, in the output fifo of d, and is the word that entered.
pub hops-in_fifo :
    (p d : Port) (w : ℕ)
    → range w 17 16 ≡ number d
    → hops (hop (in_fifo p) w) ≡ (out_fifo d, w) ∷ []
unfolding hops hop in_fifo entry_sw_1 entry_sw_2 entry_sw_3 entry_sw_4 switch forward out_fifo upper
    lower
hops-in_fifo port_0 port_0 w e = ground (arith, exits port_0 w e, rotate-rotate w)
hops-in_fifo p d w e = ground (arith, exits d w e, rotate-rotate w)
