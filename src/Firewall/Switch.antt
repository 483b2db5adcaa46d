-- ===== src/Firewall/Switch.antt =====
-- `firewall_with_mem::entry_sw_1` to `entry_sw_4`: the four two-way switches between the input
-- fifos and the output ports. A round of a switch's loop reads its two input fifos (`none` where
-- nb_read finds nothing) and writes packets to its two output fifos, in order.
pub mod Laws
use sc_co_si_m.Prelude.{
  ℕ, Bool, true, false, Option, none, some, List, [], ◌∷◌, ◌++◌, if◌then◌else◌, bit, set_bit,
}
use sc_co_si_m.Firewall.Packet.{read_packet}

-- The fifos that carry packets: in_fifo_k, out_fifo_s1_0 to out_fifo_s2_1, and out_fifo_k.
pub data Link : Type 0 where
  in_fifo_0 in_fifo_1 in_fifo_2 in_fifo_3 : Link
  out_fifo_s1_0 out_fifo_s1_1 out_fifo_s2_0 out_fifo_s2_1 : Link
  out_fifo_0 out_fifo_1 out_fifo_2 out_fifo_3 : Link

-- "find next exit port and rotate": the exit is the upper destination bit, and the two bits of the
-- destination change places.
unfoldable pub next_position : ℕ → Bool
next_position w = bit (read_packet w).dest 1

unfoldable pub rotate : ℕ → ℕ
unfolding next_position
rotate w = let shifted = set_bit w 17 (bit w 16) in set_bit shifted 16 (next_position w)

unfoldable pub forward : Link → Link → Option ℕ → List (Link × ℕ)
forward low high none = []
forward low high (some w) = (if next_position w then high else low, rotate w) ∷ []

unfoldable pub switch : Link → Link → Option ℕ → Option ℕ → List (Link × ℕ)
switch low high a b = forward low high a ++ forward low high b

unfoldable pub entry_sw_1 : Option ℕ → Option ℕ → List (Link × ℕ)
entry_sw_1 = switch out_fifo_s1_0 out_fifo_s1_1

unfoldable pub entry_sw_2 : Option ℕ → Option ℕ → List (Link × ℕ)
entry_sw_2 = switch out_fifo_s2_0 out_fifo_s2_1

unfoldable pub entry_sw_3 : Option ℕ → Option ℕ → List (Link × ℕ)
entry_sw_3 = switch out_fifo_0 out_fifo_1

unfoldable pub entry_sw_4 : Option ℕ → Option ℕ → List (Link × ℕ)
entry_sw_4 = switch out_fifo_2 out_fifo_3

-- The round of the switch that reads `l`, when a packet is at the head of `l` and at the head of no
-- other fifo: which switch reads which fifo.
unfoldable pub hop : Link → ℕ → List (Link × ℕ)
hop in_fifo_0 w = entry_sw_1 (some w) none
hop in_fifo_1 w = entry_sw_1 none (some w)
hop in_fifo_2 w = entry_sw_2 (some w) none
hop in_fifo_3 w = entry_sw_2 none (some w)
hop out_fifo_s1_0 w = entry_sw_3 (some w) none
hop out_fifo_s2_0 w = entry_sw_3 none (some w)
hop out_fifo_s1_1 w = entry_sw_4 (some w) none
hop out_fifo_s2_1 w = entry_sw_4 none (some w)
hop l w = []
