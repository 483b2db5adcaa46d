-- ===== src/Cosim/Os.antt =====
-- async_os_thread of async_sc_cosim_int.cpp: one pass of its loop, which is the same for the three
-- ways to take a request: POSIX shared memory, System V shared memory, and TCP.
use sc_co_si_m.Prelude.{◌+◌, Option, none, some, ◌==◌, if◌then◌else◌, u32}
use sc_co_si_m.Channel.Packet.{AsyncPacket, byte, number_at, new_async_packet}
use sc_co_si_m.Channel.Async.{push, wait_for_put, nb_pull}
use sc_co_si_m.Virtual.Packet.{SimpleAsyncPacket, async_incomplete_response, async_ok_response}
use sc_co_si_m.Cosim.Sysc.{Simulation}

-- What of the pulled packet goes into the response.
unfoldable pub os_response : SimpleAsyncPacket → Option AsyncPacket → SimpleAsyncPacket
os_response p none = record p { status = async_incomplete_response }
os_response p (some a) =
    if a.status == async_ok_response
    then record p { status = a.status; word = number_at a.payload 0 4 }
    else record p { status = a.status }

module _ {W : Type 0} where
  -- From the request to the push: the four bytes of the data go into a packet.
  unfoldable pub os_request : SimpleAsyncPacket → Simulation W → Simulation W
  os_request p s = record s {
    channel = push (new_async_packet s.s_id p.command p.address 4 (byte p.word)) s.channel;
    s_id = u32 (s.s_id + 1);
  }

  -- From wait_for_put to the response; `none` while SystemC has put nothing.
  unfoldable pub os_reply :
      SimpleAsyncPacket → Simulation W → Option (SimpleAsyncPacket × Simulation W)
  unfolding os_response
  os_reply p s = elim (wait_for_put s.channel) [
    | none ↦ none
    | some c ↦ let (got, d) = nb_pull c in some (os_response p got, record s { channel = d })
  ]
