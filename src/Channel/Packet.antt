-- ===== src/Channel/Packet.antt =====
-- `async_packet` of library/Async_channel/async_packet.h and async_packet.cpp: how a packet is laid
-- out in a buffer. Memory is a function from an offset to a byte; numbers lie in it with the low byte
-- first, as on the platforms of the program.
pub mod Laws
use sc_co_si_m.Prelude.{
  ℕ, zero, suc, ◌+◌, ◌-◌, ◌*◌, ◌/◌, ◌%◌, ◌^◌, Bool, ◌&&◌, ltb, leb, if◌then◌else◌, ◌==◌,
}

-- `data` is what data_ptr points to.
pub record AsyncPacket : Type 0 where
  pub id : ℕ
  pub command : ℕ
  pub status : ℕ
  pub address : ℕ
  pub delay_ns : ℕ
  pub time_ns : ℕ
  pub strm_wid : ℕ
  pub data_len : ℕ
  pub payload : ℕ → ℕ

abbrev pub Memory : Type 0
Memory = ℕ → ℕ

-- memcpy of `n` bytes from the start of `src` to offset `to` of `dst`.
unfoldable pub memcpy : ℕ → Memory → ℕ → Memory → Memory
memcpy to src n dst i = if leb to i && ltb i (to + n) then src (i - to) else dst i

-- The bytes of a number.
unfoldable pub byte : ℕ → Memory
byte v k = v / 256 ^ k % 256

-- The number in `n` bytes from `from` on.
unfoldable pub number_at : Memory → ℕ → ℕ → ℕ
number_at m from zero = 0
number_at m from (suc n) = m from + 256 * number_at m (suc from) n

-- ASYNC_ID_INDEX to ASYNC_DATA_PTR_INDEX
abbrev pub id_index : ℕ
id_index = 0

abbrev pub command_index : ℕ
command_index = id_index + 4

abbrev pub status_index : ℕ
status_index = command_index + 1

abbrev pub address_index : ℕ
address_index = status_index + 1

abbrev pub delay_ns_index : ℕ
delay_ns_index = address_index + 8

abbrev pub time_ns_index : ℕ
time_ns_index = delay_ns_index + 8

abbrev pub data_len_index : ℕ
data_len_index = time_ns_index + 8

abbrev pub strm_wid_index : ℕ
strm_wid_index = data_len_index + 8

abbrev pub data_ptr_index : ℕ
data_ptr_index = strm_wid_index + 2

-- The memory at the packet's field strm_wid, of which 8 bytes are copied: its own 2, the 2 of
-- data_len, which is the next field, and the 4 bytes of padding that stand before the pointer where
-- pointers have 8 bytes.
strm_wid_memory : AsyncPacket → Memory → Memory
strm_wid_memory p padding k =
    if ltb k 2
    then byte p.strm_wid k
    else if ltb k 4
    then byte p.data_len (k - 2)
    else padding (k - 4)

pub pack : Memory → AsyncPacket → Memory → Memory
unfolding strm_wid_memory
pack padding p b0 =
    let b1 = memcpy id_index (byte p.id) 4 b0 in
    let b2 = memcpy command_index (byte p.command) 1 b1 in
    let b3 = memcpy status_index (byte p.status) 1 b2 in
    let b4 = memcpy address_index (byte p.address) 8 b3 in
    let b5 = memcpy delay_ns_index (byte p.delay_ns) 8 b4 in
    let b6 = memcpy time_ns_index (byte p.time_ns) 8 b5 in
    let b7 = memcpy strm_wid_index (strm_wid_memory p padding) 8 b6 in
    let b8 = memcpy data_len_index (byte p.data_len) 2 b7 in
    memcpy data_ptr_index p.payload p.data_len b8

-- What pack and unpack return: the length of the packed packet.
unfoldable pub packed_length : AsyncPacket → ℕ
packed_length p = data_ptr_index + p.data_len

-- Into a packet whose data_ptr points to the memory `held`. The 8 bytes that go to strm_wid reach
-- over data_len, which is copied after it, and the padding.
pub unpack : Memory → Memory → AsyncPacket
unpack b held =
    let len = number_at b data_len_index 2 in
    record {
      id = number_at b id_index 4;
      command = number_at b command_index 1;
      status = number_at b status_index 1;
      address = number_at b address_index 8;
      delay_ns = number_at b delay_ns_index 8;
      time_ns = number_at b time_ns_index 8;
      strm_wid = number_at b strm_wid_index 2;
      data_len = len;
      payload = memcpy 0 (λ k. b (data_ptr_index + k)) len held;
    }

-- Two bytes are copied into an `int` that was not initialised: `stack` is what it held.
pub get_async_data_len : Memory → Memory → ℕ
get_async_data_len stack b = number_at (memcpy 0 (λ k. b (data_len_index + k)) 2 stack) 0 4

-- The constructor, with s_id as it was and its default arguments.
unfoldable pub new_async_packet : ℕ → ℕ → ℕ → ℕ → Memory → AsyncPacket
new_async_packet s_id command address data_len data_ptr = record {
  id = s_id;
  command = command;
  status = 0;
  address = address;
  delay_ns = 0;
  time_ns = 0;
  strm_wid = 0;
  data_len = data_len;
  payload = data_ptr;
}
