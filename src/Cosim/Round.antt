-- ===== src/Cosim/Round.antt =====
-- A request from its arrival to its response, in the only order that the waiting of the two threads
-- leaves: the outer thread pushes and waits for a put; the SystemC kernel updates the channel; the
-- event, if one is notified, starts a pass of the SystemC thread; then the outer thread goes on.
pub mod Laws
pub mod Tcp
use sc_co_si_m.Prelude.{ℕ, List, [], length, Bool, Option, none, some, ◌&&◌, not, if◌then◌else◌}
use sc_co_si_m.Channel.Async.{update}
use sc_co_si_m.Virtual.Packet.{SimpleAsyncPacket}
use sc_co_si_m.Virtual.Tcp.Stream.{collect, overlay, take}
use sc_co_si_m.Cosim.Tlm.{Target}
use sc_co_si_m.Cosim.Sysc.{Simulation, sysc_pass}
use sc_co_si_m.Cosim.Os.{os_request, os_reply}

module _ {W : Type 0} (target : Target W) where
  -- What the kernel does for the channel: the update, and the pass that its event starts.
  unfoldable pub sysc_turn : Simulation W → Simulation W
  unfolding update
  sysc_turn s =
      let (events, c) = update s.channel in
      let t = record s { channel = c } in
      if events.0 && not s.stopped then sysc_pass target t else t

  -- `none`: the outer thread waits for ever.
  unfoldable pub round :
      SimpleAsyncPacket → Simulation W → Option (SimpleAsyncPacket × Simulation W)
  unfolding os_request os_reply sysc_turn
  round p s = os_reply p (sysc_turn (os_request p s))

  -- A pass of the loop of async_os_thread over POSIX and over System V shared memory: from
  -- sem_wait(sharedsemA) to sem_post(sharedsemB), on the packet in the memory.
  abbrev pub posix_pass :
      SimpleAsyncPacket → Simulation W → Option (SimpleAsyncPacket × Simulation W)
  posix_pass = round

  abbrev pub shm_pass : SimpleAsyncPacket → Simulation W → Option (SimpleAsyncPacket × Simulation W)
  shm_pass = round

  -- A pass over TCP, for a packet's layout in `size` bytes: the pieces that the calls of recv
  -- return are collected onto the packet, which is not initialised, and as many bytes as came are
  -- sent back.
  unfoldable pub tcp_pass :
      ℕ
      → (SimpleAsyncPacket → List ℕ)
      → (List ℕ → SimpleAsyncPacket)
      → List ℕ
      → List (List ℕ)
      → Simulation W
      → Option (List ℕ × Simulation W)
  tcp_pass size bytes packet stack pieces s =
      let got = collect size [] pieces in
      elim (round (packet (overlay got stack)) s) [
        | none ↦ none
        | some (q, t) ↦ some (take (length got) (bytes q), t)
      ]
