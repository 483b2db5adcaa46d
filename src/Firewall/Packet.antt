-- ===== src/Firewall/Packet.antt =====
-- The 32-bit packet word of example/Firewall_with_mem and its fields, and the four ports.
use sc_co_si_m.Prelude.{ℕ, range}

pub data Port : Type 0 where
  port_0 port_1 port_2 port_3 : Port

-- The number that a packet's two-bit fields use for a port.
abbrev pub number : Port → ℕ
number port_0 = 0
number port_1 = 1
number port_2 = 2
number port_3 = 3

-- `struct pkt`
pub record Pkt : Type 0 where
  pub addr_offset : ℕ
  pub opcode : ℕ
  pub src : ℕ
  pub dest : ℕ
  pub payload : ℕ

-- How the switches of the firewall read a packet out of its word.
abbrev pub read_packet : ℕ → Pkt
read_packet w = record {
  addr_offset = range w 31 22;
  opcode = range w 21 20;
  src = range w 19 18;
  dest = range w 17 16;
  payload = range w 15 0;
}
