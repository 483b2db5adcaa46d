-- ===== src/Tests/Firewall.antt =====
-- The firewall's theorems at concrete inputs: a rule of port 0 that stops writes to the first 17
-- bytes of port 1, packets that it stops and that it lets pass.
use sc_co_si_m.Prelude.{ℕ, ◌≡◌, ◌↔◌, true, some, List, [], ◌∷◌, arith, refl}
use sc_co_si_m.Firewall.Packet.{port_1, port_2, port_3, read_packet}
use sc_co_si_m.Firewall.Rule.{Rule, fw_hit}
use sc_co_si_m.Firewall.Rule.Laws.{Blocks, fw_hit_iff}
use sc_co_si_m.Firewall.Input.{InPort, Sample, thread}
use sc_co_si_m.Firewall.Input.Laws.{entered, stamp, IsWelcome, thread_enters_iff}
use sc_co_si_m.Firewall.Switch.{hop}
use sc_co_si_m.Firewall.Switch.Laws.{hops, in_fifo, out_fifo, hops-in_fifo}

abbrev some_rule : Rule
some_rule = record { read_r = 0xE2; read_l = 0; read_h = 16 }

-- A write of 5 to byte 8 of port 1, and a read of byte 20 of port 2.
abbrev some_write : ℕ
some_write = 0x02010005

abbrev some_read : ℕ
some_read = 0x05120000

abbrev some_port : InPort
some_port = record {
  preval = some_write;
  pre_read_r = 0xE2;
  rule = some_rule;
  count_total = 3;
  rule_hit_counter = 1;
  count_droped = 1;
}

abbrev sample_of : ℕ → Sample
sample_of w = record {
  rule_range = 0xE2;
  lower_range = 0;
  upper_range = 16;
  waiting = some w;
  responce = 0;
  num_free = 4;
}

fw_hit_iff_example :
    (fw_hit some_rule some_write ≡ true) ↔ Blocks some_rule (read_packet some_write)
fw_hit_iff_example = fw_hit_iff some_rule some_write

thread_enters_iff_example :
    let out = (thread port_1 some_port (sample_of some_read)).1 in
    ((entered out ≡ stamp port_1 some_read ∷ [])
      ↔ IsWelcome some_port (sample_of some_read) some_read)
    × ((entered out ≡ []) ↔ (¬ IsWelcome some_port (sample_of some_read) some_read))
thread_enters_iff_example =
    thread_enters_iff port_1 some_port (sample_of some_read) some_read (refl, refl, omega arith)

abbrev some_samples : List Sample
some_samples = sample_of some_write ∷ sample_of some_write ∷ sample_of some_read ∷ []

hops-in_fifo_example : hops (hop (in_fifo port_3) some_read) ≡ (out_fifo port_2, some_read) ∷ []
hops-in_fifo_example = hops-in_fifo port_3 port_2 some_read refl
