-- ===== src/Tests/Simulated.antt =====
-- A process that sets up a rule and reads a word, over shared memory and the co-simulation of a
-- memory.
use sc_co_si_m.Prelude.{ℕ, ◌≡◌, ◌+◌, ◌*◌, ◌%◌, ◌^◌, refl, arith, false, Option, none, some}
use sc_co_si_m.Firewall.Packet.{port_0, port_2}
use sc_co_si_m.Firewall.Output.{bram}
use sc_co_si_m.Firewall.Module.Quiet.{quiet}
use sc_co_si_m.Channel.Async.{new_channel}
use sc_co_si_m.Driver.Machine.{done}
use sc_co_si_m.Driver.Packets.{read_value}
use sc_co_si_m.Virtual.Packet.{SimpleAsyncPacket}
use sc_co_si_m.Cosim.Tlm.{tlm_ignore_command, TlmPayload}
use sc_co_si_m.Cosim.Sysc.{Simulation}
use sc_co_si_m.System.Driven.{Bench, bench}
use sc_co_si_m.System.Driven.Laws.{started}
use sc_co_si_m.System.Simulated.{demo, firewall_router}
use sc_co_si_m.System.Simulated.Laws.{router-Replies, sc_access_bram_fw-delivered}
use sc_co_si_m.Tests.Module.{some_memory, idle_module, some_access, some_access-Route}
use sc_co_si_m.Driver.Rules.{setup_fw}
use sc_co_si_m.Driver.Packets.{access_bram_fw}
use sc_co_si_m.Virtual.Refines.{seen}
use sc_co_si_m.Virtual.Semaphore.Laws.{Answers, Mapped, view_of}
use sc_co_si_m.Virtual.Semaphore.{Client}
use sc_co_si_m.Virtual.Calls
use sc_co_si_m.Virtual.Shm.{ShmOs, sc_setup_fw, sc_access_bram_fw}
use sc_co_si_m.Cosim.Round.Laws.{Idle}
use sc_co_si_m.Cosim.Request.{world_of}
use sc_co_si_m.Cosim.Simulated.{simulated_calls}
use sc_co_si_m.Cosim.Answers.{round-Answers}
use sc_co_si_m.Cosim.Round.{round}
use sc_co_si_m.Tests.Cosim.{blank}
use sc_co_si_m.Tests.Virtual.{rule, rule-CanSend, request}

-- The simulated firewall, on which nothing goes on but the read of the process.
abbrev firewall_simulation : Simulation Bench
firewall_simulation = record {
  channel = new_channel;
  command = tlm_ignore_command;
  stopped = false;
  s_id = 0;
  world = started some_memory port_0 port_2 idle_module some_access 7;
}

firewall_simulation-Idle : Idle firewall_simulation
unfolding new_channel
firewall_simulation-Idle = record {
  none_to_sysc = refl;
  none_fm_sysc = refl;
  waits = refl;
  running = refl;
}

abbrev no_debug : TlmPayload → Bench → ℕ × TlmPayload × Bench
no_debug t b = (0, t, b)

abbrev post_nothing : SimpleAsyncPacket → Simulation Bench → Simulation Bench
post_nothing p s = s

abbrev attach_blank : Simulation Bench → Option (SimpleAsyncPacket × Simulation Bench)
attach_blank s = some (blank, s)

abbrev firewall_os : ShmOs (Simulation Bench)
firewall_os = demo some_memory no_debug post_nothing attach_blank

abbrev firewall_client : Client (Simulation Bench)
firewall_client = record { shptr = none; id_counter = 0; world = firewall_simulation }

simulated_calls_example :
    (seen
        (Mapped Idle world_of)
        (view_of Idle world_of)
        (sc_setup_fw firewall_os rule firewall_client)
      ≡ setup_fw (bench some_memory) 0 rule firewall_simulation.world)
    × (seen
          (Mapped Idle world_of)
          (view_of Idle world_of)
          (sc_access_bram_fw firewall_os 3 request firewall_client)
        ≡ access_bram_fw (bench some_memory) 3 0 request firewall_simulation.world)
unfolding Calls.sc_read_value
simulated_calls_example =
    simulated_calls (firewall_router some_memory no_debug) (bench some_memory)
      (router-Replies some_memory no_debug) post_nothing attach_blank firewall_simulation blank 0
      rule 3 request firewall_simulation-Idle refl rule-CanSend (omega arith)

round-Answers_example :
    Answers (round (firewall_router some_memory no_debug)) Idle world_of (bench some_memory)
round-Answers_example =
    round-Answers (firewall_router some_memory no_debug) (bench some_memory)
      (router-Replies some_memory no_debug)

sc_access_bram_fw-delivered_example :
    (t : Bench) × (seen (Mapped Idle world_of) (view_of Idle world_of) (
        sc_access_bram_fw
          (demo some_memory no_debug post_nothing attach_blank)
          1
          some_access
          (record { shptr = none; id_counter = 0; world = firewall_simulation }))
      ≡ done (record some_access { word = some_memory (bram port_2 + 4 * 5) % 2 ^ 16 }) t)
    × (t.blocked ≡ false)
    × (quiet t.firewall ≡ t.firewall)
unfolding read_value
sc_access_bram_fw-delivered_example =
    sc_access_bram_fw-delivered some_memory no_debug post_nothing attach_blank port_0 port_2
      idle_module some_access 1 7 0 blank firewall_simulation firewall_simulation-Idle refl refl
      some_access-Route (λ e. absurd cc) (refl, refl, omega arith)
      ((λ b. absurd (omega (arith, b))), refl, omega arith) refl (omega arith) (omega arith)
