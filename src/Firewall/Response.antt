-- ===== src/Firewall/Response.antt =====
-- `firewall_with_mem::entry_response`: hands each response to the port that asked for it.
-- A round of the loop is four sections, one for each port, over the heads of that port's
-- init_responce_fifo and responce_fifo. The four sections are one text, but for a mask in the last.
pub mod Laws
use sc_co_si_m.Prelude.{
  ℕ, false, Option, none, some, List, [], ◌∷◌, ◌++◌, ◌==◌, if◌then◌else◌, range, set_bit, bit_and,
}
use sc_co_si_m.Firewall.Packet.{Port, port_0, port_1, port_2, port_3}

-- `deliver k w` writes w to responce_s<k> and to in_responce_<k>, which the bus reads;
-- `write_ended` notifies m_write_ended_event.
pub data Action : Type 0 where
  deliver : Port → ℕ → Action
  write_ended : Action

-- Clears the bit by which a port says that it awaits a result.
pub settle : Port → ℕ → ℕ
settle port_3 w = set_bit (bit_and w 0x7FFFFFFF) 31 false
settle _ w = set_bit w 31 false

-- The ladder on the destination; no branch is left for a destination that is no port.
pub route : ℕ → List Action
route r =
    if range r 17 16 == 0
    then deliver port_0 r ∷ []
    else if range r 17 16 == 1
    then deliver port_1 r ∷ []
    else if range r 17 16 == 2
    then deliver port_2 r ∷ []
    else if range r 17 16 == 3
    then deliver port_3 r ∷ []
    else []

unfoldable pub section : Port → Option ℕ → Option ℕ → List Action
section k (some w) res = deliver k w ∷ []
section k none (some w) = route (settle k w) ++ write_ended ∷ []
section k none none = []

-- The heads of the fifos, at the time that the section of each port reads them.
pub record Heads : Type 0 where
  pub init_responce : Port → Option ℕ
  pub responce : Port → Option ℕ

pub entry_response : Heads → List Action
entry_response h = at port_0 ++ (at port_1 ++ (at port_2 ++ at port_3))
  where
    at : Port → List Action
    at k = section k (h.init_responce k) (h.responce k)
