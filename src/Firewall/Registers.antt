-- ===== src/Firewall/Registers.antt =====
-- The bus side of the firewall: `b_transport` admits a transaction, and `execute_write_thread` and
-- `execute_read_thread` find what its address stands for.
pub mod Laws
use sc_co_si_m.Prelude.{ℕ, Bool, true, false, ◌&&◌, ◌||◌, not, ltb, leb, ◌==◌, if◌then◌else◌}
use sc_co_si_m.Firewall.Packet.{Port, port_0, port_1, port_2, port_3, number}
use sc_co_si_m.Firewall.Setup.{Registers}

pub data Status : Type 0 where
  ok_response address_error byte_enable_error : Status

-- The windows of addresses that a transaction may name.
unfoldable pub in_bounds : ℕ → Bool
in_bounds a =
    (leb 0x40000000 a && leb a 0x40004000)
    || (ltb 0x50000000 a && ltb a 0x50000070)
    || (ltb 0x50001000 a && ltb a 0x50001070)
    || (ltb 0x80000000 a && ltb a 0x80004000)

-- The tests at the head of `b_transport`; `enables` is whether the byte enable pointer is set.
unfoldable pub b_transport : ℕ → ℕ → Bool → Status
unfolding in_bounds
b_transport data_length address enables =
    if not (data_length == 4)
    then address_error
    else if not (in_bounds address)
    then address_error
    else if enables
    then byte_enable_error
    else ok_response

-- What a write does: `direct` hands it to the port's direct_mem_out thread, with the address;
-- `packet` puts it into the port's in_k; the next three are the setup registers; `unknown` is the
-- default, which prints a message.
pub data WriteTarget : Type 0 where
  direct packet lower upper rule : Port → WriteTarget
  unknown : WriteTarget

unfoldable pub write_register : ℕ → WriteTarget
write_register a =
    if a == 0x80000014
    then packet port_0
    else if a == 0x80001014
    then packet port_1
    else if a == 0x80002014
    then packet port_2
    else if a == 0x80003014
    then packet port_3
    else if a == 0x50000014
    then lower port_0
    else if a == 0x5000001C
    then lower port_1
    else if a == 0x50000024
    then lower port_2
    else if a == 0x5000002C
    then lower port_3
    else if a == 0x50000034
    then upper port_0
    else if a == 0x5000003C
    then upper port_1
    else if a == 0x50000044
    then upper port_2
    else if a == 0x5000004C
    then upper port_3
    else if a == 0x50000054
    then rule port_0
    else if a == 0x5000005C
    then rule port_1
    else if a == 0x50000064
    then rule port_2
    else if a == 0x5000006C
    then rule port_3
    else unknown

unfoldable pub execute_write : ℕ → WriteTarget
execute_write a =
    if ltb a 0x40001000
    then direct port_0
    else if ltb a 0x40002000
    then direct port_1
    else if ltb a 0x40003000
    then direct port_2
    else if ltb a 0x40004000
    then direct port_3
    else write_register a

-- Whether `execute_write_thread` itself notifies m_write_ended_event, for which `b_transport`
-- waits; for `direct` and `packet` the threads behind them do.
pub ends_here : WriteTarget → Bool
ends_here (lower p) = true
ends_here (upper p) = true
ends_here (rule p) = true
ends_here t = false

-- What the write thread does to the setup registers of the ports, with the word written.
unfoldable pub write_setup : WriteTarget → ℕ → (Port → Registers) → Port → Registers
write_setup (lower p) v r q = if number p == number q then record (r q) { lower = v } else r q
write_setup (upper p) v r q = if number p == number q then record (r q) { upper = v } else r q
write_setup (rule p) v r q = if number p == number q then record (r q) { rule = v } else r q
write_setup t v r q = r q

-- What a read returns: a word of the port's BRAM, the port's in_responce, total, droped or
-- fw_rule_hit_counter; `stale` is the default, which leaves m_register_read as it was.
pub data ReadSource : Type 0 where
  memory in_responce total droped fw_rule_hit_counter : Port → ReadSource
  stale : ReadSource

unfoldable pub read_register : ℕ → ReadSource
read_register a =
    if a == 0x8000001C
    then in_responce port_0
    else if a == 0x8000101C
    then in_responce port_1
    else if a == 0x8000201C
    then in_responce port_2
    else if a == 0x8000301C
    then in_responce port_3
    else if a == 0x80000024
    then total port_0
    else if a == 0x80001024
    then total port_1
    else if a == 0x80002024
    then total port_2
    else if a == 0x80003024
    then total port_3
    else if a == 0x8000002C
    then droped port_0
    else if a == 0x8000102C
    then droped port_1
    else if a == 0x8000202C
    then droped port_2
    else if a == 0x8000302C
    then droped port_3
    else if a == 0x80000034
    then fw_rule_hit_counter port_0
    else if a == 0x80001034
    then fw_rule_hit_counter port_1
    else if a == 0x80002034
    then fw_rule_hit_counter port_2
    else if a == 0x80003034
    then fw_rule_hit_counter port_3
    else stale

unfoldable pub execute_read : ℕ → ReadSource
execute_read a =
    if ltb a 0x40001000
    then memory port_0
    else if ltb a 0x40002000
    then memory port_1
    else if ltb a 0x40003000
    then memory port_2
    else if ltb a 0x40004000
    then memory port_3
    else read_register a
