-- ===== src/Tests/Cosim.antt =====
-- The channel and the co-simulation at concrete inputs: a target that is a memory, reached over
-- shared memory.
use sc_co_si_m.Prelude.{ℕ, refl, arith, false, none, some, List, [], ◌∷◌, ◌==◌, if◌then◌else◌}
use sc_co_si_m.Driver.Machine.{Device}
use sc_co_si_m.Channel.Packet.{byte, number_at}
use sc_co_si_m.Channel.Async.{new_channel, Action, pushes, gets, puts, pulls, updates, waits_put}
use sc_co_si_m.Channel.Async.Laws.{InOrder, run, fresh, run-InOrder}
use sc_co_si_m.Virtual.Access.{exit_word}
use sc_co_si_m.Virtual.Packet.{SimpleAsyncPacket, write_request}
use sc_co_si_m.Virtual.Refines.{Implements}
use sc_co_si_m.Virtual.Semaphore.{Port, Client, sem_access}
use sc_co_si_m.Virtual.Semaphore.Laws.{Mapped, view_of, CanStart, answers-Implements}
use sc_co_si_m.Virtual.Shm.{ShmOs, mapping}
use sc_co_si_m.Cosim.Tlm.{
  TlmCommand, tlm_read_command, tlm_write_command, tlm_ignore_command, tlm_ok_response, TlmPayload,
  Target,
}
use sc_co_si_m.Cosim.Sysc.{Simulation, status_of}
use sc_co_si_m.Cosim.Round.{round}
use sc_co_si_m.Cosim.Round.Laws.{Idle, Hangs, round_exit}
use sc_co_si_m.Cosim.Request.{world_of}
use sc_co_si_m.Cosim.Answers.{Replies, round-Answers}

-- A memory of words below 2 ^ 32, as a device and as a target.
abbrev pub update_word : ℕ → ℕ → (ℕ → ℕ) → ℕ → ℕ
update_word v a m b = if b == a then v else m b

abbrev pub memory : Device (ℕ → ℕ)
memory = record { ioread32 = λ a m. (number_at (byte (m a)) 0 4, m); iowrite32 = update_word }

abbrev serve_command : TlmCommand → TlmPayload → (ℕ → ℕ) → TlmPayload × (ℕ → ℕ)
serve_command tlm_read_command t m =
    (record t { bytes = byte (m t.address); response_status = tlm_ok_response }, m)
serve_command tlm_write_command t m = (
  record t { response_status = tlm_ok_response },
  update_word (number_at t.bytes 0 4) t.address m,
)
serve_command tlm_ignore_command t m = (t, m)

abbrev pub target : Target (ℕ → ℕ)
target = record {
  b_transport = λ t m. serve_command t.command t m;
  transport_dbg = λ t m. (0, t, m);
}

pub target-Replies : Replies target memory
unfolding number_at status_of
target-Replies = record {
  replies_write = λ t m r c. rw c refl;
  replies_read = λ t m r c. rw c (refl, refl);
}

abbrev pub zeros : ℕ → ℕ
zeros a = 0

abbrev pub simulation : Simulation (ℕ → ℕ)
simulation = record {
  channel = new_channel;
  command = tlm_ignore_command;
  stopped = false;
  s_id = 0;
  world = zeros;
}

pub simulation-Idle : Idle simulation
unfolding new_channel
simulation-Idle = record { none_to_sysc = refl; none_fm_sysc = refl; waits = refl; running = refl }

abbrev pub blank : SimpleAsyncPacket
blank = record { id = 0; command = 0; status = 0; address = 0; word = 0 }

abbrev pub shared_port : Port (Simulation (ℕ → ℕ))
shared_port = record { exchange = round target; post = λ p s. s }

abbrev pub shm_os : ShmOs (Simulation (ℕ → ℕ))
shm_os = record { port = shared_port; attach = λ s. some (blank, s) }

abbrev pub client : Client (Simulation (ℕ → ℕ))
client = record { shptr = none; id_counter = 0; world = simulation }

pub client-CanStart : CanStart Idle world_of (mapping shm_os) client
unfolding mapping
client-CanStart = ((blank, refl), simulation-Idle)

-- The processes reach the memory over shared memory and the co-simulation.
pub shm-Implements :
    Implements
      (sem_access shared_port (mapping shm_os) 0)
      memory
      (Mapped Idle world_of)
      (CanStart Idle world_of (mapping shm_os))
      (view_of Idle world_of)
shm-Implements =
    answers-Implements shared_port Idle world_of memory (round-Answers target memory target-Replies)
      (mapping shm_os) 0 (omega arith)

round_exit_example : Hangs target (write_request 1 exit_word 0x40000000) simulation
unfolding write_request
round_exit_example =
    round_exit target (write_request 1 exit_word 0x40000000) simulation simulation-Idle refl

abbrev actions : List (Action ℕ)
actions = pushes 1 ∷ pushes 2 ∷ updates ∷ gets ∷ puts 3 ∷ waits_put ∷ pulls ∷ []

run-InOrder_example : InOrder (run actions fresh)
run-InOrder_example = run-InOrder actions
