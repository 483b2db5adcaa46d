-- ===== src/Firewall/Direct.antt =====
-- `firewall_with_mem::direct_mem_out_0` to `direct_mem_out_3`: a direct access from the bus to the
-- memory behind a port, past the switches. A round of the loop reads the memory's dir_mem_done
-- signal, the head of dir_mem_out_fifo_k, and out_address_k and out_read_k, which the bus threads
-- set when they write to that fifo.
pub mod Laws
use sc_co_si_m.Prelude.{
  ℕ, Bool, true, false, ◌&&◌, not, Option, none, some, List, [], ◌∷◌, if◌then◌else◌, range,
  set_range,
}
use sc_co_si_m.Firewall.Packet.{Port, port_0, port_1, port_2, port_3}
use sc_co_si_m.Firewall.Registers.{WriteTarget, ReadSource, direct, memory}

-- out_address_k and out_read_k, and dir_mem_preready.
pub record DirectPort : Type 0 where
  pub out_address : ℕ
  pub out_read : Bool
  pub preready : Bool

-- `read_pending` notifies m_read_event_pending, for which the read thread waits; `write_ended`
-- notifies m_write_ended_event; the others are a write on the memory bus, a write to
-- dir_mem_responce_fifo_k, and writes to signals.
pub data Action : Type 0 where
  mem_write : ℕ → ℕ → Action
  responce_fifo : ℕ → Action
  read_pending write_ended : Action
  addr_to_read : ℕ → Action
  ready : Bool → Action

-- What `execute_write_thread` and `execute_read_thread` do for an address of the port `p`: they set
-- the two variables and put m_register_write into the fifo, here the second component.
unfoldable pub request_write : ℕ → ℕ → DirectPort → DirectPort × ℕ
request_write a v s = (record s { out_address = a; out_read = false }, v)

unfoldable pub request_read : ℕ → ℕ → DirectPort → DirectPort × ℕ
request_read a v s = (record s { out_address = a; out_read = true }, v)

module _ (mem_read : ℕ → ℕ) where
  unfoldable pub execute : DirectPort → ℕ → DirectPort × List Action
  execute s w =
      if s.out_read then (s, responce_fifo (mem_read s.out_address) ∷ read_pending ∷ []) else (
        record s { preready = true },
        mem_write s.out_address (set_range 0 15 0 (range w 15 0))
            ∷ addr_to_read s.out_address
            ∷ ready true
            ∷ [],
      )

  unfoldable pub take_out : DirectPort → Option ℕ → DirectPort × List Action
  unfolding execute
  take_out s none = (s, [])
  take_out s (some w) = execute s w

  unfoldable pub direct_mem_out : DirectPort → Bool → Option ℕ → DirectPort × List Action
  unfolding take_out
  direct_mem_out s done head =
      if not done && not s.preready
      then take_out s head
      else if done && s.preready
      then (record s { preready = false }, write_ended ∷ ready false ∷ [])
      else (s, [])

  unfoldable pub direct_mem_out_0 : DirectPort → Bool → Option ℕ → DirectPort × List Action
  direct_mem_out_0 = direct_mem_out

  unfoldable pub direct_mem_out_1 : DirectPort → Bool → Option ℕ → DirectPort × List Action
  direct_mem_out_1 = direct_mem_out

  unfoldable pub direct_mem_out_2 : DirectPort → Bool → Option ℕ → DirectPort × List Action
  direct_mem_out_2 = direct_mem_out

  unfoldable pub direct_mem_out_3 : DirectPort → Bool → Option ℕ → DirectPort × List Action
  direct_mem_out_3 = direct_mem_out

  unfoldable pub thread : Port → DirectPort → Bool → Option ℕ → DirectPort × List Action
  thread port_0 = direct_mem_out_0
  thread port_1 = direct_mem_out_1
  thread port_2 = direct_mem_out_2
  thread port_3 = direct_mem_out_3
