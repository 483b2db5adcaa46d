-- ===== src/Tests/Virtual.antt =====
-- The virtual drivers at concrete inputs.
use sc_co_si_m.Prelude.{ℕ, ◌+◌, ◌^◌, ◌<◌, ◌≡◌, refl, arith, Option, none, some, ◌==◌, if◌then◌else◌}
use sc_co_si_m.Driver.Machine.{Device, IsStorage}
use sc_co_si_m.Driver.Rules.{FwDs, setup_fw}
use sc_co_si_m.Driver.Packets.{AccessDs, access_bram_fw}
use sc_co_si_m.Channel.Packet.{byte, number_at}
use sc_co_si_m.Virtual.Packet.{SimpleAsyncPacket, async_write, response_word}
use sc_co_si_m.Virtual.Packet.{Timespec, diff}
use sc_co_si_m.Virtual.Packet.Laws.{IsTime, nanoseconds, diff_lem}
use sc_co_si_m.Virtual.Refines.{Simulates, Implements}
use sc_co_si_m.Virtual.Semaphore.{Port, Client, sem_access}
use sc_co_si_m.Virtual.Semaphore.Laws.{Answers, Mapped, view_of, CanStart, answers-Implements}
use sc_co_si_m.Virtual.Shm.{ShmOs, mapping}
use sc_co_si_m.Virtual.Calls
use sc_co_si_m.Virtual.Calls.Laws.{CanSend, sc_setup_fw-setup_fw, sc_access_bram_fw-access_bram_fw}
use sc_co_si_m.Cosim.Round.Laws.{Idle}
use sc_co_si_m.Cosim.Request.{world_of}
use sc_co_si_m.Tests.Cosim.{
  memory, update_word, zeros, blank, shared_port, shm_os, client, client-CanStart, shm-Implements,
}

abbrev pub rule : FwDs
rule = record {
  op_code = 0;
  input_port = 2;
  output_port = 1;
  l_addr_reg = 4;
  h_addr_reg = 16;
  rule_reg = 0xE2;
}

pub rule-CanSend : CanSend rule
rule-CanSend = record {
  l_word = omega arith;
  h_word = omega arith;
  rule_word = omega arith;
  l_stays = omega arith;
  h_stays = omega arith;
  rule_stays = omega arith;
}

sc_setup_fw-setup_fw_example :
    Simulates
      (Mapped Idle world_of)
      (view_of Idle world_of)
      (Calls.sc_setup_fw (sem_access shared_port (mapping shm_os) 0) rule client)
      (setup_fw memory 0 rule zeros)
sc_setup_fw-setup_fw_example =
    sc_setup_fw-setup_fw shm-Implements rule client rule-CanSend client-CanStart

abbrev pub request : AccessDs
request = record { op_code = 1; input_port = 2; output_port = 3; addr = 5; word = 0 }

sc_access_bram_fw-access_bram_fw_example :
    Simulates
      (Mapped Idle world_of)
      (view_of Idle world_of)
      (Calls.sc_access_bram_fw (sem_access shared_port (mapping shm_os) 0) 3 request client)
      (access_bram_fw memory 3 0 request zeros)
unfolding Calls.sc_read_value
sc_access_bram_fw-access_bram_fw_example =
    sc_access_bram_fw-access_bram_fw shm-Implements 3 request client (omega arith) client-CanStart

-- A device whose words are kept as they are.
abbrev plain : Device (ℕ → ℕ)
plain = record { ioread32 = λ a m. (m a, m); iowrite32 = update_word }

plain-IsStorage : (A : ℕ → Type 0) → IsStorage plain A
plain-IsStorage A = record {
  read_pure = λ a m i. refl;
  read_written = λ a v m i. ground arith;
  read_other = λ a b v m i j n. ground arith;
}

abbrev plain_serve : SimpleAsyncPacket → (ℕ → ℕ) → Option (SimpleAsyncPacket × (ℕ → ℕ))
plain_serve p m =
    if p.command == async_write
    then some (record p { status = 1 }, plain.iowrite32 p.word p.address m)
    else some (record p { status = 1; word = m p.address }, m)

abbrev Anything : (ℕ → ℕ) → Type 0
Anything m = Unit

abbrev same : (ℕ → ℕ) → ℕ → ℕ
same m = m

plain-Answers : Answers plain_serve Anything same plain
unfolding response_word
plain-Answers = record {
  write_answered = λ p m i c hw ha.
      (record p { status = 1 }, plain.iowrite32 p.word p.address m, rw c refl, tt, refl);
  read_answered =
      λ p m i c hw ha. (record p { status = 1; word = m p.address }, m, rw c refl, tt, refl, refl);
}

abbrev plain_port : Port (ℕ → ℕ)
plain_port = record { exchange = plain_serve; post = λ p m. m }

abbrev plain_os : ShmOs (ℕ → ℕ)
plain_os = record { port = plain_port; attach = λ m. some (blank, m) }

abbrev plain_client : Client (ℕ → ℕ)
plain_client = record { shptr = none; id_counter = 0; world = zeros }

plain-Implements :
    Implements
      (sem_access plain_port (mapping plain_os) 0)
      plain
      (Mapped Anything same)
      (CanStart Anything same (mapping plain_os))
      (view_of Anything same)
plain-Implements =
    answers-Implements plain_port Anything same plain plain-Answers (mapping plain_os) 0
      (omega arith)

plain-CanStart : CanStart Anything same (mapping plain_os) plain_client
unfolding mapping
plain-CanStart = ((blank, refl), tt)

words : (a : ℕ) (m : ℕ → ℕ) → (memory.ioread32 a m).0 < 2 ^ 32
unfolding number_at byte
words a m = omega arith

abbrev start_time : Timespec
start_time = record { tv_sec = 7; tv_nsec = 999999999 }

abbrev end_time : Timespec
end_time = record { tv_sec = 8; tv_nsec = 1 }

diff_lem_example :
    IsTime (diff start_time end_time)
    × (nanoseconds start_time + nanoseconds (diff start_time end_time) ≡ nanoseconds end_time)
diff_lem_example =
    diff_lem start_time end_time (record { sec_fits = omega arith; nsec_fits = omega arith })
      (record { sec_fits = omega arith; nsec_fits = omega arith }) (omega arith)
