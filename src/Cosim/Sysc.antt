-- ===== src/Cosim/Sysc.antt =====
-- asysc_sysc_thread_process of async_sc_cosim_int.cpp: one pass of its loop.
use sc_co_si_m.Prelude.{ℕ, Bool, true, ◌||◌, none, some, ◌==◌, if◌then◌else◌, u32, ◌+◌}
use sc_co_si_m.Channel.Packet.{AsyncPacket, Memory, new_async_packet}
use sc_co_si_m.Channel.Async.{AsyncChannel, nb_get, nb_put}
use sc_co_si_m.Virtual.Packet.{
  async_ignore, async_read, async_write, async_debug_read, async_debug_write, async_exit,
  async_incomplete_response, async_ok_response, async_address_error_response,
  async_generic_error_response,
}
use sc_co_si_m.Cosim.Tlm.{
  TlmCommand, tlm_read_command, tlm_write_command, tlm_ignore_command, TlmResponse, tlm_ok_response,
  tlm_incomplete_response, tlm_generic_error_response, tlm_address_error_response,
  tlm_command_error_response, tlm_burst_error_response, tlm_byte_enable_error_response, TlmPayload,
  Target,
}

-- The switch on the command, which for other commands leaves that of the payload as it was.
unfoldable pub tlm_command : ℕ → TlmCommand → TlmCommand
tlm_command command before =
    if command == async_ignore
    then tlm_ignore_command
    else if command == async_write
    then tlm_write_command
    else if command == async_debug_write
    then tlm_write_command
    else if command == async_read
    then tlm_read_command
    else if command == async_debug_read
    then tlm_read_command
    else before

unfoldable pub status_of : TlmResponse → ℕ
status_of tlm_ok_response = async_ok_response
status_of tlm_incomplete_response = async_incomplete_response
status_of tlm_generic_error_response = async_generic_error_response
status_of tlm_address_error_response = async_address_error_response
status_of tlm_command_error_response = async_generic_error_response
status_of tlm_burst_error_response = async_generic_error_response
status_of tlm_byte_enable_error_response = async_generic_error_response

-- The module with its channel and what is behind its socket. `command` is that of the payload,
-- which is one variable for all passes; `stopped` tells that the loop was left; `s_id` is the
-- counter of the packets' constructor.
pub record Simulation (W : Type 0) : Type 0 where
  pub channel : AsyncChannel AsyncPacket
  pub command : TlmCommand
  pub stopped : Bool
  pub s_id : ℕ
  pub world : W

unfoldable pub payload_of : AsyncPacket → TlmCommand → TlmPayload
unfolding tlm_command
payload_of p before = record {
  command = tlm_command p.command before;
  address = p.address;
  bytes = p.payload;
  data_length = p.data_len;
  streaming_width = p.data_len;
  response_status = tlm_incomplete_response;
}

unfoldable pub answer : AsyncPacket → TlmPayload → AsyncPacket
unfolding status_of
answer p t = record p { status = status_of t.response_status; payload = t.bytes }

module _ {W : Type 0} (target : Target W) where
  -- The packet shares its data with the payload.
  unfoldable pub transport : AsyncPacket → TlmCommand → W → TlmPayload × W
  unfolding payload_of
  transport p before w =
      if p.command == async_debug_read || p.command == async_debug_write
      then (let (n, t, u) = target.transport_dbg (payload_of p before) w in (t, u))
      else target.b_transport (payload_of p before) w

  -- What SystemC does with a packet.
  unfoldable pub serve_packet : AsyncPacket → Simulation W → Simulation W
  unfolding transport answer
  serve_packet p s =
      if p.command == async_exit
      then record s { stopped = true }
      else (let (t, w) = transport p s.command s.world in
          record s { channel = nb_put (answer p t) s.channel; command = t.command; world = w })

  -- One pass, from the event that something was pushed. `zeros` is the cleared buffer; when there
  -- is no packet, the one made here is served.
  unfoldable pub sysc_pass : Simulation W → Simulation W
  unfolding serve_packet
  sysc_pass s =
      let zeros : Memory = λ k. 0 in
      let (got, c) = nb_get s.channel in
      let t = record s { channel = c; s_id = u32 (s.s_id + 1) } in
      elim got [
        | none ↦ serve_packet (new_async_packet s.s_id async_ignore 0 0 zeros) t
        | some p ↦ serve_packet p t
      ]
