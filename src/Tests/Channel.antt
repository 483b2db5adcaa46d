-- ===== src/Tests/Channel.antt =====
-- The packet theorems at a concrete packet with three bytes of data.
use sc_co_si_m.Prelude.{◌+◌, ◌≡◌, arith}
use sc_co_si_m.Channel.Packet.{AsyncPacket, Memory, pack, unpack}
use sc_co_si_m.Channel.Packet.Laws.{IsPacket, unpack-pack}

abbrev some_packet : AsyncPacket
some_packet = record {
  id = 17;
  command = 2;
  status = 1;
  address = 0x80000014;
  delay_ns = 10;
  time_ns = 123456789012;
  strm_wid = 4;
  data_len = 3;
  payload = λ k. 7 + k;
}

abbrev some_packet-IsPacket : IsPacket some_packet
some_packet-IsPacket = record {
  id_word = omega arith;
  command_byte = omega arith;
  status_byte = omega arith;
  address_word = omega arith;
  delay_word = omega arith;
  time_word = omega arith;
  strm_wid_word = omega arith;
  data_len_word = omega arith;
}

abbrev ones : Memory
ones k = 255

abbrev zeros : Memory
zeros k = 0

unpack-pack_example :
    let r = unpack (pack ones some_packet zeros) zeros in
    ((r.id ≡ 17) × (r.command ≡ 2) × (r.status ≡ 1))
    × ((r.address ≡ 0x80000014) × (r.delay_ns ≡ 10) × (r.time_ns ≡ 123456789012))
    × ((r.strm_wid ≡ 4) × (r.data_len ≡ 3))
    × (r.payload 2 ≡ 9)
unpack-pack_example = unpack-pack ones some_packet zeros zeros some_packet-IsPacket 2
