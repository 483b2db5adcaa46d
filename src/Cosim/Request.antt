-- ===== src/Cosim/Request.antt =====
-- The payload that a request of a virtual driver becomes at the socket.
use sc_co_si_m.Prelude.{ℕ, ◌^◌, ◌<◌, ◌≡◌, refl, arith}
use sc_co_si_m.Channel.Packet.{byte, number_at, new_async_packet}
use sc_co_si_m.Virtual.Packet.{SimpleAsyncPacket, async_read, async_write}
use sc_co_si_m.Cosim.Tlm.{
  TlmCommand, tlm_read_command, tlm_write_command, tlm_incomplete_response, TlmPayload, Target,
}
use sc_co_si_m.Cosim.Sysc.{Simulation, tlm_command, payload_of, transport}
use sc_co_si_m.Cosim.Round.Laws.{transported}

pub word-byte : (v : ℕ) → v < 2 ^ 32 → number_at (byte v) 0 4 ≡ v
unfolding number_at byte
word-byte v h = omega arith

-- The payload of a request for four bytes.
abbrev pub Requests : TlmPayload → Type 0
Requests t = (t.data_length ≡ 4) × (t.response_status ≡ tlm_incomplete_response)

abbrev pub world_of : {W : Type 0} → Simulation W → W
world_of s = s.world

module _ {W : Type 0} (target : Target W) where
  -- The payload of a request.
  abbrev pub request : TlmCommand → SimpleAsyncPacket → TlmPayload
  request command p = record {
    command = command;
    address = p.address;
    bytes = byte p.word;
    data_length = 4;
    streaming_width = 4;
    response_status = tlm_incomplete_response;
  }

  pub transported_write :
      (p : SimpleAsyncPacket) (s : Simulation W)
      → p.command ≡ async_write
      → transported target p s ≡ target.b_transport (request tlm_write_command p) s.world
  unfolding transport payload_of tlm_command new_async_packet
  transported_write p s c = rw c refl

  pub transported_read :
      (p : SimpleAsyncPacket) (s : Simulation W)
      → p.command ≡ async_read
      → transported target p s ≡ target.b_transport (request tlm_read_command p) s.world
  unfolding transport payload_of tlm_command new_async_packet
  transported_read p s c = rw c refl
