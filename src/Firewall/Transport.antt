-- ===== src/Firewall/Transport.antt =====
-- Reads over the two transports of the firewall, `firewall_with_mem::b_transport` and
-- `transport_dbg`, around `execute_read_thread`, which leaves what it read in m_register_read.
pub mod Laws
use sc_co_si_m.Prelude.{ℕ, Bool, false, List, [], ◌∷◌, Option, none, some}
use sc_co_si_m.Firewall.Packet.{Port}
use sc_co_si_m.Firewall.Registers.{
  Status, ok_response, address_error, byte_enable_error, b_transport, ReadSource, memory,
  in_responce, total, droped, fw_rule_hit_counter, stale, execute_read,
}

-- What the read thread reads: the words of the memories, and the signals.
pub record Signals : Type 0 where
  pub mem_read : Port → ℕ → ℕ
  pub in_responce : Port → ℕ
  pub total : Port → ℕ
  pub droped : Port → ℕ
  pub fw_rule_hit_counter : Port → ℕ

-- m_register_read after a round of the read thread, from the address and what it was before.
unfoldable pub fetch : Signals → ℕ → ℕ → ℕ
fetch g address before = elim (execute_read address) [
  | memory p ↦ g.mem_read p address
  | in_responce p ↦ g.in_responce p
  | total p ↦ g.total p
  | droped p ↦ g.droped p
  | fw_rule_hit_counter p ↦ g.fw_rule_hit_counter p
  | stale ↦ before
]

-- A read returns the status, the number of bytes for transport_dbg, and the data, `none` where the
-- payload's data are left as they were; with them m_register_read afterwards.
pub record Reply : Type 0 where
  pub status : Status
  pub transferred : ℕ
  pub bytes : Option ℕ
  pub register_read : ℕ

-- The data are copied after the wait for m_read_ended_event.
unfoldable pub b_transport_read : Signals → ℕ → ℕ → Bool → ℕ → Reply
b_transport_read g data_length address enables before =
    let after = fetch g address before in
    elim (b_transport data_length address enables) [
      | ok_response ↦ record {
        status = ok_response;
        transferred = data_length;
        bytes = some after;
        register_read = after;
      }
      | address_error ↦ record {
        status = address_error;
        transferred = 0;
        bytes = none;
        register_read = before;
      }
      | byte_enable_error ↦ record {
        status = byte_enable_error;
        transferred = 0;
        bytes = none;
        register_read = before;
      }
    ]

-- The data are copied before the wait.
unfoldable pub transport_dbg_read : Signals → ℕ → ℕ → Bool → ℕ → Reply
transport_dbg_read g data_length address enables before =
    let after = fetch g address before in
    elim (b_transport data_length address enables) [
      | ok_response ↦ record {
        status = ok_response;
        transferred = data_length;
        bytes = some before;
        register_read = after;
      }
      | address_error ↦ record {
        status = address_error;
        transferred = 0;
        bytes = none;
        register_read = before;
      }
      | byte_enable_error ↦ record {
        status = byte_enable_error;
        transferred = 0;
        bytes = none;
        register_read = before;
      }
    ]
