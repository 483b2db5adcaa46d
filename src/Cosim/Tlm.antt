-- ===== src/Cosim/Tlm.antt =====
-- What the module uses of TLM 2.0: the generic payload, and a target behind the master socket. The
-- byte enables, which it sets to none, the DMI hint and the delay are left out.
use sc_co_si_m.Prelude.{ℕ}
use sc_co_si_m.Channel.Packet.{Memory}

pub data TlmCommand : Type 0 where
  tlm_read_command tlm_write_command tlm_ignore_command : TlmCommand

pub data TlmResponse : Type 0 where
  tlm_ok_response tlm_incomplete_response tlm_generic_error_response : TlmResponse
  tlm_address_error_response tlm_command_error_response tlm_burst_error_response : TlmResponse
  tlm_byte_enable_error_response : TlmResponse

-- `bytes` is the memory at the data pointer.
pub record TlmPayload : Type 0 where
  pub command : TlmCommand
  pub address : ℕ
  pub bytes : Memory
  pub data_length : ℕ
  pub streaming_width : ℕ
  pub response_status : TlmResponse

-- The target, a module of the user: it may change the payload and its own state. transport_dbg
-- returns the number of bytes.
pub record Target (W : Type 0) : Type 0 where
  pub b_transport : TlmPayload → W → TlmPayload × W
  pub transport_dbg : TlmPayload → W → ℕ × TlmPayload × W
