-- ===== src/Tests/Module.antt =====
-- The module of the firewall as a whole at concrete inputs.
use sc_co_si_m.Prelude.{
  ℕ, ◌+◌, ◌*◌, ◌%◌, ◌^◌, ◌≡◌, true, false, none, some, List, [], ◌∷◌, ◌++◌, arith, refl, All,
}
use sc_co_si_m.Firewall.Packet.{port_0, port_1, port_2}
use sc_co_si_m.Firewall.Output.{bram}
use sc_co_si_m.Firewall.Switch.{in_fifo_0, out_fifo_s1_1}
use sc_co_si_m.Firewall.Direct.{
  DirectPort, mem_write, responce_fifo, read_pending, write_ended, addr_to_read, ready,
  request_write, request_read,
}
use sc_co_si_m.Firewall.Direct.Laws.{busy, direct_access}
use sc_co_si_m.Firewall.Direct.Laws
use sc_co_si_m.Firewall.Registers.{b_transport}
use sc_co_si_m.Firewall.Transport.{Signals, b_transport_read, transport_dbg_read}
use sc_co_si_m.Firewall.Transport.Laws.{reads, dbg_one_late}
use sc_co_si_m.Firewall.Module.{Firewall, Event, bus_write, enters, moves, leaves, installs, run}
use sc_co_si_m.Firewall.Module.Checked.{Asks, Admitted, Held, run_checked}
use sc_co_si_m.Firewall.Module.Bounds.{IsBounded, run-IsBounded}
use sc_co_si_m.Firewall.Module.Quiet.{quiet}
use sc_co_si_m.Driver.Packets.{write_value, AccessDs, read_value}
use sc_co_si_m.System.Access.{Route}
use sc_co_si_m.System.Delivery.{answered}
use sc_co_si_m.Driver.Map.{word_at}
use sc_co_si_m.System.AddressMap.{base_of}
use sc_co_si_m.System.Written
use sc_co_si_m.System.Written.{access_bram_fw-stored}
use sc_co_si_m.System.Driven.{Bench, bench}
use sc_co_si_m.System.Driven.Laws.{started, access_bram_fw-delivered}
use sc_co_si_m.Driver.Machine.{done}
use sc_co_si_m.Driver.Packets.{access_bram_fw}

abbrev pub some_memory : ℕ → ℕ
some_memory a = a % 2 ^ 16 + 0x70000

-- Nothing waits, and no rule is set.
abbrev pub idle_module : Firewall
idle_module = record {
  waiting = λ p. [];
  input = λ p. record {
    preval = 0;
    pre_read_r = 0;
    rule = record { read_r = 0; read_l = 0; read_h = 0 };
    count_total = 0;
    rule_hit_counter = 0;
    count_droped = 0;
  };
  links = λ l. [];
  output = λ p. record { preready = false; is_write_op = false };
  responce_fifo = λ p. [];
  init_responce_fifo = λ p. [];
  responce_s = λ p. 0;
  in_responce = λ p. 0;
  registers = λ p. record { rule = 0; lower = 0; upper = 0 };
  installed = λ p. record { precommand = 0; range = record { rule = 0; lower = 0; upper = 0 } };
}

-- A write of 9 at offset 8 of port 2, from port 0, and a rule that is set meanwhile.
abbrev events : List Event
events =
    bus_write 0x80000014 0x02020009
    ∷ enters port_0 true
    ∷ bus_write 0x50000054 0xE2
    ∷ moves in_fifo_0 true
    ∷ installs
    ∷ moves out_fifo_s1_1 true
    ∷ leaves some_memory port_2 false true
    ∷ leaves some_memory port_2 true false
    ∷ []

run_checked_example :
    All (Asks (Admitted events idle_module) (Held events)) (run events idle_module).0
run_checked_example = run_checked events idle_module (λ l. refl)

run-IsBounded_example : IsBounded (run events idle_module).1.links
run-IsBounded_example = run-IsBounded events idle_module (λ l. omega arith)

abbrev pub some_access : AccessDs
some_access = record { op_code = 1; input_port = 1; output_port = 3; addr = 5; word = 0 }

abbrev pub some_access-Route : Route some_access port_0 port_2
some_access-Route = record { enters = refl; leaves = refl; addr_fits = omega arith }

abbrev some_direct : DirectPort
some_direct = record { out_address = 0; out_read = true; preready = false }

direct_access_example :
    let (w, x) = request_write 0x40001008 0x12345 some_direct in
    let (r, y) = request_read 0x40001008 0x12345 some_direct in
    (Laws.rounds some_memory port_1
        ((false, some x) ∷ busy some_memory (some 7 ∷ []) ++ (true, none) ∷ [])
        w
      ≡ (
        w,
        mem_write 0x40001008 (0x12345 % 2 ^ 16)
            ∷ addr_to_read 0x40001008
            ∷ ready true
            ∷ write_ended
            ∷ ready false
            ∷ [],
      ))
    × (Laws.rounds some_memory port_1 ((false, some y) ∷ []) r
        ≡ (r, responce_fifo (some_memory 0x40001008) ∷ read_pending ∷ []))
direct_access_example =
    direct_access some_memory port_1 0x40001008 0x12345 some_direct (some 7 ∷ []) none refl

abbrev some_signals : Signals
some_signals = record {
  mem_read = λ p a. some_memory a;
  in_responce = λ p. 3;
  total = λ p. 4;
  droped = λ p. 5;
  fw_rule_hit_counter = λ p. 6;
}

abbrev some_reads : List (Signals × ℕ)
some_reads = (some_signals, 0x80000024) ∷ (some_signals, 0x8000001C) ∷ []

dbg_one_late_example :
    let (late, last) = reads transport_dbg_read some_reads 1 in
    let (values, end) = reads b_transport_read some_reads 1 in
    (late ++ some last ∷ [] ≡ some 1 ∷ values) × (last ≡ end)
unfolding b_transport
dbg_one_late_example = dbg_one_late some_reads 1 (refl, (refl, tt))

access_bram_fw-delivered_example :
    (t : Bench) × (access_bram_fw
        (bench some_memory)
        1
        0
        some_access
        (started some_memory port_0 port_2 idle_module some_access 7)
      ≡ done (record some_access { word = some_memory (bram port_2 + 4 * 5) % 2 ^ 16 }) t)
    × (t.blocked ≡ false)
    × (t.firewall ≡ answered some_memory port_0 port_2 idle_module some_access)
    × (quiet t.firewall ≡ t.firewall)
unfolding read_value
access_bram_fw-delivered_example =
    access_bram_fw-delivered some_memory port_0 port_2 idle_module some_access 1 0 7
      some_access-Route (λ e. absurd cc) (refl, refl, omega arith)
      ((λ b. absurd (omega (arith, b))), refl, omega arith) refl (omega arith) (omega arith)

abbrev some_write : AccessDs
some_write = record { op_code = 0; input_port = 1; output_port = 3; addr = 5; word = 77 }

access_bram_fw-stored_example :
    let served = Written.rounds some_memory port_0 port_2 idle_module some_write in
    (t : Bench) × (access_bram_fw (bench some_memory) 0 0 some_write (record {
      firewall = quiet idle_module;
      register_read = 7;
      later_rounds = served ∷ [];
      blocked = false;
    })
      ≡ done some_write t)
    × (run
          (bus_write (word_at (base_of port_0) 5) (write_value some_write) ∷ served)
          (quiet idle_module)
        ≡ (Written.actions some_memory port_0 port_2 idle_module some_write, t.firewall))
    × (quiet t.firewall ≡ t.firewall)
    × ((t.firewall.output port_2).preready ≡ false)
    × (t.blocked ≡ false)
unfolding write_value
access_bram_fw-stored_example =
    access_bram_fw-stored some_memory port_0 port_2 idle_module some_write 0 7
      (record { enters = refl; leaves = refl; addr_fits = omega arith }) refl (omega arith)
      (refl, refl, omega arith) ((λ b. absurd (omega (arith, b))), refl, omega arith) refl
