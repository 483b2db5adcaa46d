-- ===== src/Firewall/Response/Laws.antt =====
-- What becomes of a response.
use sc_co_si_m.Prelude.{ℕ, ◌%◌, ◌<◌, ◌^◌, ◌≡◌, none, some, [], ◌∷◌, arith, range, bit_and_low}
use sc_co_si_m.Firewall.Packet.{Port, port_0, port_3, number}
use sc_co_si_m.Firewall.Response.{deliver, write_ended, settle, route, section}

settle_lem : (k : Port) (w : ℕ) → w < 2 ^ 32 → settle k w ≡ w % 2 ^ 31
unfolding settle
settle_lem port_3 w h = rw (bit_and_low 31 w) (omega arith)
settle_lem _ w h = omega arith

-- A response of 32 bits, from any port with no initial response waiting and for one of the four
-- ports, is delivered to the one port that its destination names, without its bit 31, and
-- acknowledged to the bus once.
pub section-responce :
    (k d : Port) (w : ℕ)
    → w < 2 ^ 32
    → range w 17 16 ≡ number d
    → section k none (some w) ≡ deliver d (w % 2 ^ 31) ∷ write_ended ∷ []
unfolding section route
section-responce k port_0 w h e = rw (settle_lem k w h) (ground arith)
section-responce k _ w h e = rw (settle_lem k w h) (ground arith)
