-- ===== src/System/Simulated.antt =====
-- A process of the demonstration against the simulated firewall: the virtual driver over shared
-- memory, the channel, the socket, and `firewall_with_mem::b_transport` with the module behind it.
pub mod Laws
use sc_co_si_m.Prelude.{ℕ, false, Option, if◌then◌else◌}
use sc_co_si_m.Firewall.Registers
use sc_co_si_m.Firewall.Registers.{ok_response, address_error, byte_enable_error}
use sc_co_si_m.Firewall.Transport.{fetch}
use sc_co_si_m.Channel.Packet.{memcpy, byte, number_at}
use sc_co_si_m.Virtual.Packet.{SimpleAsyncPacket}
use sc_co_si_m.Virtual.Shm.{ShmOs}
use sc_co_si_m.Cosim.Tlm.{
  tlm_read_command, tlm_write_command, tlm_ignore_command, tlm_ok_response,
  tlm_address_error_response, tlm_byte_enable_error_response, TlmPayload, Target,
}
use sc_co_si_m.Cosim.Sysc.{Simulation}
use sc_co_si_m.Cosim.Round.{round}
use sc_co_si_m.System.Driven.{Bench, pass, write_and_wait, signals}

-- `dbg` stands for transport_dbg, which no request of a driver calls.
module _ (mem : ℕ → ℕ) (dbg : TlmPayload → Bench → ℕ × TlmPayload × Bench) where
  -- The interface sets no byte enables.
  unfoldable pub transported : TlmPayload → Bench → TlmPayload × Bench
  transported t b = elim (Registers.b_transport t.data_length t.address false) [
    | ok_response ↦
        let v = fetch (signals mem b.firewall) t.address b.register_read in
        let ok = record t { response_status = tlm_ok_response } in
        elim t.command [
          | tlm_read_command ↦ (
            record ok { bytes = memcpy 0 (byte v) t.data_length t.bytes },
            pass (record b { register_read = v }),
          )
          | tlm_write_command ↦ (ok, write_and_wait t.address (number_at t.bytes 0 4) b)
          | tlm_ignore_command ↦ (ok, b)
        ]
    | address_error ↦ (record t { response_status = tlm_address_error_response }, b)
    | byte_enable_error ↦ (record t { response_status = tlm_byte_enable_error_response }, b)
  ]

  -- A call that waits for ever shows in `blocked`, and then no other is served.
  unfoldable pub b_transport : TlmPayload → Bench → TlmPayload × Bench
  b_transport t b = if b.blocked then (t, b) else transported t b

  abbrev pub firewall_router : Target Bench
  firewall_router = record { b_transport = b_transport; transport_dbg = dbg }

  -- The operating system with this simulation behind the semaphores.
  abbrev pub demo :
      (SimpleAsyncPacket → Simulation Bench → Simulation Bench)
      → (Simulation Bench → Option (SimpleAsyncPacket × Simulation Bench))
      → ShmOs (Simulation Bench)
  demo post attach = record {
    port = record { exchange = round firewall_router; post = post };
    attach = attach;
  }
