-- ===== src/Tests/Board.antt =====
-- The ports with the memories behind them at concrete inputs.
use sc_co_si_m.Prelude.{ℕ, ◌≡◌, refl, true, false, some, List, [], ◌∷◌, arith}
use sc_co_si_m.Firewall.Packet.{port_0, port_1, port_2}
use sc_co_si_m.Firewall.Output.{bram, response}
use sc_co_si_m.Firewall.Input.Laws.{stamp}
use sc_co_si_m.Driver.Map.{direct_base, word_at}
use sc_co_si_m.Driver.Packets.{AccessDs, read_value}
use sc_co_si_m.Board.Side
use sc_co_si_m.Board.Side.Laws.{Serves, answers, ended, resting, duration, cycles-Serves}
use sc_co_si_m.Board.Direct
use sc_co_si_m.Board.Direct.Laws
use sc_co_si_m.System.Access.{Route}
use sc_co_si_m.System.Storage.{bus_mem, bus_mem-IsBehind, packets, written_is_read}

-- A write of 9 at the byte offset 8, a read there, and one elsewhere.
abbrev some_packets : List ℕ
some_packets = 0x02020009 ∷ 0x02120000 ∷ 0x03120000 ∷ []

cycles-Serves_example :
    Serves port_2 some_packets
      (bus_mem port_2)
      (Side.cycles port_2 (duration some_packets) (resting (bus_mem port_2) some_packets false))
cycles-Serves_example = cycles-Serves port_2 some_packets (bus_mem port_2) false

abbrev some_write : AccessDs
some_write = record { op_code = 0; input_port = 1; output_port = 3; addr = 5; word = 77 }

abbrev some_read : AccessDs
some_read = record { op_code = 1; input_port = 2; output_port = 3; addr = 5; word = 0 }

abbrev some_write-Route : Route some_write port_0 port_2
some_write-Route = record { enters = refl; leaves = refl; addr_fits = omega arith }

abbrev some_read-Route : Route some_read port_1 port_2
some_read-Route = record { enters = refl; leaves = refl; addr_fits = omega arith }

written_is_read_example :
    let ws =
      packets port_0 port_1 port_2 some_write some_read
        (bus_mem port_2)
        false
        some_write-Route
        some_read-Route
        (omega arith)
        refl
        (bus_mem-IsBehind port_2) in
    let (out, t) = Side.cycles port_2 5 (resting (bus_mem port_2) ws false) in
    let a = word_at (bram port_2) 5 in
    let (acts, u) =
      Direct.cycles port_2 1 (Direct.read_request a 0 (Laws.resting t.memory 1 true)) in
    (answers out ≡ response (stamp port_1 (read_value some_read)) 77 ∷ [])
    × (ended out ≡ 1)
    × (t.fifo ≡ [])
    × (direct_base 3 ≡ some (bram port_2))
    × (u.responce_fifo ≡ 77 ∷ [])
written_is_read_example =
    written_is_read port_0 port_1 port_2 some_write some_read (bus_mem port_2) false
      some_write-Route some_read-Route (omega arith) refl (bus_mem-IsBehind port_2) 1 0 true
