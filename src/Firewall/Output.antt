-- ===== src/Firewall/Output.antt =====
-- `firewall_with_mem::interface_out_0` to `interface_out_3`: a port carries out the packets that
-- the switches delivered, on the memory behind it. A round of the loop reads the memory's done
-- signal and the head of out_fifo_k; the memory bus answers reads by the function `mem_read`.
pub mod Laws
use sc_co_si_m.Prelude.{
  ℕ, ◌+◌, Bool, true, false, ◌&&◌, not, Option, none, some, List, [], ◌∷◌, ◌==◌, if◌then◌else◌,
  range, set_range,
}
use sc_co_si_m.Firewall.Packet.{Port, port_0, port_1, port_2, port_3}

pub record OutPort : Type 0 where
  pub preready : Bool
  pub is_write_op : Bool

-- `mem_write` is a write on the memory bus, at an address, of a word; `responce_fifo` a write to
-- that fifo; `write_ended` notifies m_write_ended_event; the others are writes to signals.
pub data Action : Type 0 where
  mem_write : ℕ → ℕ → Action
  responce_fifo : ℕ → Action
  out_addr_to_read : ℕ → Action
  ready : Bool → Action
  write_ended : Action

-- The port's BRAM.
unfoldable pub bram : Port → ℕ
bram port_0 = 0x40000000
bram port_1 = 0x40001000
bram port_2 = 0x40002000
bram port_3 = 0x40003000

-- The answer to the read `w`, where the memory holds `m`.
pub response : ℕ → ℕ → ℕ
response w m =
    let a = set_range m 31 22 (range w 31 22) in
    let b = set_range a 21 20 2 in
    let c = set_range b 19 18 (range w 17 16) in set_range c 17 16 (range w 19 18)

module _ (mem_read : ℕ → ℕ) where
  unfoldable pub execute : Port → OutPort → ℕ → OutPort × List Action
  execute p s w =
      let address = bram p + range w 31 22 in
      if range w 21 20 == 1
      then (record s { is_write_op = false }, responce_fifo (response w (mem_read address)) ∷ [])
      else (
        record s { preready = true; is_write_op = true },
        mem_write address (set_range 0 15 0 (range w 15 0))
            ∷ out_addr_to_read address
            ∷ ready true
            ∷ [],
      )

  unfoldable pub take_out : Port → OutPort → Option ℕ → OutPort × List Action
  take_out p s none = (s, [])
  take_out p s (some w) = execute p s w

  unfoldable pub interface_out : Port → OutPort → Bool → Option ℕ → OutPort × List Action
  unfolding take_out
  interface_out p s done head =
      if not done && not s.preready
      then take_out p s head
      else if done && s.preready
      then (
        record s { preready = false },
        ready false ∷ (if s.is_write_op then write_ended ∷ [] else []),
      )
      else (s, [])

  unfoldable pub interface_out_0 : OutPort → Bool → Option ℕ → OutPort × List Action
  interface_out_0 = interface_out port_0

  unfoldable pub interface_out_1 : OutPort → Bool → Option ℕ → OutPort × List Action
  interface_out_1 = interface_out port_1

  unfoldable pub interface_out_2 : OutPort → Bool → Option ℕ → OutPort × List Action
  interface_out_2 = interface_out port_2

  unfoldable pub interface_out_3 : OutPort → Bool → Option ℕ → OutPort × List Action
  interface_out_3 = interface_out port_3

  unfoldable pub thread : Port → OutPort → Bool → Option ℕ → OutPort × List Action
  thread port_0 = interface_out_0
  thread port_1 = interface_out_1
  thread port_2 = interface_out_2
  thread port_3 = interface_out_3
