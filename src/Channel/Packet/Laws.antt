-- ===== src/Channel/Packet/Laws.antt =====
-- A packet survives its way through a buffer.
use sc_co_si_m.Prelude.{
  ℕ, ◌+◌, ◌-◌, ◌*◌, ◌^◌, ◌<◌, ◌≤◌, ◌≡◌, ◌∙◌, ap, arith, Bool-cases, inl, inr, ltb, if◌then◌else◌,
}
use sc_co_si_m.Channel.Packet.{
  AsyncPacket, Memory, memcpy, byte, number_at, pack, unpack, strm_wid_memory, packed_length,
  get_async_data_len,
}

-- The fields fit their types.
pub record IsPacket (p : AsyncPacket) : Type 0 where
  pub id_word : p.id < 2 ^ 32
  pub command_byte : p.command < 2 ^ 8
  pub status_byte : p.status < 2 ^ 8
  pub address_word : p.address < 2 ^ 64
  pub delay_word : p.delay_ns < 2 ^ 64
  pub time_word : p.time_ns < 2 ^ 64
  pub strm_wid_word : p.strm_wid < 2 ^ 16
  pub data_len_word : p.data_len < 2 ^ 16

bytes_1 : (v : ℕ) → v < 2 ^ 8 → byte v 0 + 256 * 0 ≡ v
unfolding byte
bytes_1 v h = omega arith

bytes_2 : (v : ℕ) → v < 2 ^ 16 → byte v 0 + 256 * (byte v 1 + 256 * 0) ≡ v
unfolding byte
bytes_2 v h = omega arith

bytes_4 :
    (v : ℕ)
    → v < 2 ^ 32
    → byte v 0 + 256 * (byte v 1 + 256 * (byte v 2 + 256 * (byte v 3 + 256 * 0))) ≡ v
unfolding byte
bytes_4 v h = omega arith

bytes_8 :
    (v : ℕ)
    → v < 2 ^ 64
    → byte v 0
        + 256
          * (byte v 1
              + 256
                * (byte v 2
                    + 256
                      * (byte v 3
                          + 256
                            * (byte v 4
                                + 256
                                  * (byte v 5 + 256 * (byte v 6 + 256 * (byte v 7 + 256 * 0)))))))
      ≡ v
unfolding byte
bytes_8 v h = omega arith

memcpy_inside : (src dst : Memory) (n k : ℕ) → k < n → memcpy 0 src n dst k ≡ src k
unfolding memcpy
memcpy_inside src dst n k h =
    let e : k - 0 ≡ k = omega arith in let f = ap src e in ground (arith, f)

memcpy_outside : (src dst : Memory) (n k : ℕ) → n ≤ k → memcpy 0 src n dst k ≡ dst k
unfolding memcpy
memcpy_outside src dst n k h = ground arith

module _ (padding : Memory) (p : AsyncPacket) (b held : Memory) (h : IsPacket p) where
  pack_payload : (k : ℕ) → k < p.data_len → pack padding p b (40 + k) ≡ p.payload k
  unfolding pack memcpy
  pack_payload k h' =
      let e : 40 + k - 40 ≡ k = omega arith in let f = ap p.payload e in ground (arith, f)

  -- A packet whose fields fit their types comes out of a buffer as it was packed, whatever the
  -- buffer, the padding and the receiver's memory held: every field, the data up to data_len, and
  -- behind them what the receiver's memory held.
  pub unpack-pack :
      (k : ℕ)
      → let r = unpack (pack padding p b) held in
        ((r.id ≡ p.id) × (r.command ≡ p.command) × (r.status ≡ p.status))
        × ((r.address ≡ p.address) × (r.delay_ns ≡ p.delay_ns) × (r.time_ns ≡ p.time_ns))
        × ((r.strm_wid ≡ p.strm_wid) × (r.data_len ≡ p.data_len))
        × (r.payload k ≡ (if ltb k p.data_len then p.payload k else held k))
  unfolding unpack pack number_at memcpy strm_wid_memory
  unpack-pack k = (
    (bytes_4 p.id h.id_word, bytes_1 p.command h.command_byte, bytes_1 p.status h.status_byte),
    (
      bytes_8 p.address h.address_word,
      bytes_8 p.delay_ns h.delay_word,
      bytes_8 p.time_ns h.time_word,
    ),
    (bytes_2 p.strm_wid h.strm_wid_word, len),
    elim (Bool-cases (ltb k p.data_len)) [
      | inl e ↦
          (let lt : k < p.data_len = ground arith in
            rw e (memcpy_inside behind held _ k (omega (arith, len, lt)) ∙ pack_payload k lt))
      | inr e ↦
          (let ge : p.data_len ≤ k = ground arith in
            rw e (memcpy_outside behind held _ k (omega (arith, len, ge))))
    ],
  )
    where
      behind : Memory
      behind k = pack padding p b (40 + k)

      len : byte p.data_len 0 + 256 * (byte p.data_len 1 + 256 * 0) ≡ p.data_len
      len = bytes_2 p.data_len h.data_len_word

  -- For a packet whose fields fit their types, get_async_data_len reads the packed data_len into
  -- the low half of its result, and leaves in the upper half what the uninitialised variable held.
  pub get_async_data_len-pack :
      (stack : Memory)
      → get_async_data_len stack (pack padding p b)
        ≡ p.data_len + 2 ^ 16 * (stack 2 + 256 * stack 3)
  unfolding get_async_data_len pack number_at memcpy strm_wid_memory
  get_async_data_len-pack stack = omega (arith, bytes_2 p.data_len h.data_len_word)

  -- Packing a packet with fields that fit and at most 5 bytes of data writes a byte of the
  -- struct's padding at offset 45 of the buffer, beyond the length that pack returns.
  pub pack_overruns : p.data_len ≤ 5 → (packed_length p ≤ 45) × (pack padding p b 45 ≡ padding 3)
  unfolding packed_length pack memcpy strm_wid_memory
  pack_overruns few = ground arith

  -- Beyond offset 45 and the length returned, the buffer stays as it was.
  pub pack_keeps : (i : ℕ) → 46 ≤ i → packed_length p ≤ i → pack padding p b i ≡ b i
  unfolding packed_length pack memcpy strm_wid_memory
  pack_keeps i far past = ground arith
