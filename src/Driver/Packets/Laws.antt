-- ===== src/Driver/Packets/Laws.antt =====
-- The packets that the driver builds, and when its wait for a response ends.
use sc_co_si_m.Prelude.{
  ℕ, zero, suc, ◌/◌, shl32, shr, ◌-◌, ◌*◌, ◌%◌, ◌≤◌, ◌<◌, ◌^◌, ◌≡◌, ◌≢◌, none, some, arith, refl,
  shr-bit_or, bit_or-zero, ◌⊎◌,
}
use sc_co_si_m.Driver.Machine.{Device, done, bug, spin}
use sc_co_si_m.Driver.Map.{access_base, word_at}
use sc_co_si_m.Driver.Packets.{
  AccessDs, write_value, read_value, pending, print_data, poll, access_bram_fw,
}
use sc_co_si_m.Firewall.Packet.{read_packet}

-- What the caller of the driver must give for its packet to say what it means.
pub record IsAddress (r : AccessDs) : Type 0 where
  pub input_from : 1 ≤ r.input_port
  pub input_to : r.input_port ≤ 4
  pub output_from : 1 ≤ r.output_port
  pub output_to : r.output_port ≤ 4
  pub addr_fits : r.addr < 256

-- For ports 1 to 4, an address below 256 and data below 2^16, the switch reads out of the driver's
-- packet for a write what the caller gave: the word address as a byte offset, the ports counted
-- from 0, opcode 0 and the data.
pub read_packet-write_value :
    (r : AccessDs)
    → IsAddress r
    → r.word < 2 ^ 16
    → read_packet (write_value r) ≡ record {
      addr_offset = 4 * r.addr;
      opcode = 0;
      src = r.input_port - 1;
      dest = r.output_port - 1;
      payload = r.word;
    }
unfolding write_value
read_packet-write_value r h w = ground arith

-- The driver does not cut the data to 16 bits: for data from 2^16 and below 2^17, and an output
-- port below 4, the packet names the next port and carries the data less 2^16.
pub write_value_overflows :
    (r : AccessDs)
    → IsAddress r
    → r.output_port ≤ 3
    → 2 ^ 16 ≤ r.word
    → r.word < 2 ^ 17
    → let p = read_packet (write_value r) in
      (p.dest ≡ r.output_port) × (p.payload ≡ r.word - 2 ^ 16)
unfolding write_value
write_value_overflows r h out lo hi = ground arith

-- For ports 1 to 4 and an address below 256, the switch reads out of the driver's packet for a
-- read the byte offset, the ports counted from 0, opcode 1 and no data.
pub read_packet-read_value :
    (r : AccessDs)
    → IsAddress r
    → read_packet (read_value r) ≡ record {
      addr_offset = 4 * r.addr;
      opcode = 1;
      src = r.input_port - 1;
      dest = r.output_port - 1;
      payload = 0;
    }
unfolding read_value
read_packet-read_value r h = ground arith

-- The driver keeps the low 16 bits of the response.
pub print_data_lem : (v : ℕ) → v < 2 ^ 32 → print_data v ≡ v % 2 ^ 16
unfolding print_data
print_data_lem v h =
    let up : shl32 v 16 / 2 ^ 16 ≡ v % 2 ^ 16 = omega arith in
    let down : shr v 16 / 2 ^ 16 ≡ 0 = omega arith in
    rw (shr-bit_or 16 (shl32 v 16) (shr v 16)) (rw (up, down) (bit_or-zero (v % 2 ^ 16)))

module _ {S : Type 0} (d : Device S) where
  -- The device after `n` reads of the register at `a`, and that each of them found no response.
  unfoldable pub later : ℕ → ℕ → S → S
  later a zero s = s
  later a (suc n) s = later a n (d.ioread32 a s).1

  abbrev pub IsQuiet : ℕ → ℕ → S → Type 0
  IsQuiet a zero s = Unit
  IsQuiet a (suc n) s = ((d.ioread32 a s).0 ≡ pending) × IsQuiet a n (d.ioread32 a s).1

  -- The loop ends when the first response is there, on any fuel above the reads that found none.
  poll_answered :
      (fuel n base v : ℕ) (s t : S)
      → n < fuel
      → IsQuiet (word_at base 7) n s
      → d.ioread32 (word_at base 7) (later (word_at base 7) n s) ≡ (v, t)
      → v ≢ pending
      → poll d fuel (some base) s ≡ done v t
  unfolding poll later
  poll_answered zero n base v s t h q e ne = absurd (omega arith)
  poll_answered (suc fuel) zero base v s t h q e ne = rw e (ground arith)
  poll_answered (suc fuel) (suc n) base v s t h q e ne =
      let ih =
        poll_answered fuel n base v (d.ioread32 (word_at base 7) s).1 t (omega arith) q.1 e ne in
      ground (arith, ih)

  poll_no_port : (fuel : ℕ) (s : S) → poll d fuel none s ≡ spin s
  unfolding poll
  poll_no_port zero s = refl
  poll_no_port (suc fuel) s = poll_no_port fuel s

  pub access_bram_fw-write_refused :
      (fuel gid : ℕ) (r : AccessDs) (s : S)
      → gid ≢ 0
      → r.op_code ≡ 0
      → access_bram_fw d fuel gid r s ≡ bug s
  unfolding access_bram_fw
  access_bram_fw-write_refused fuel gid r s g op = ground arith

  pub access_bram_fw-write :
      (fuel base : ℕ) (r : AccessDs) (s : S)
      → r.op_code ≡ 0
      → access_base r.input_port ≡ some base
      → access_bram_fw d fuel 0 r s ≡ done r (d.iowrite32 (write_value r) (word_at base 5) s)
  unfolding access_bram_fw
  access_bram_fw-write fuel base r s op port = ground arith

  -- A read through one of the four ports ends, for any user, as soon as the device has a response
  -- (a 32-bit word other than 0x80000000), however many times the driver finds none before, on any
  -- fuel above that number, and returns the low 16 bits of the response.
  pub access_bram_fw-read :
      (fuel gid n base v : ℕ) (r : AccessDs) (s t : S)
      → r.op_code ≢ 0
      → access_base r.input_port ≡ some base
      → n < fuel
      → IsQuiet (word_at base 7) n (d.iowrite32 (read_value r) (word_at base 5) s)
      → d.ioread32
          (word_at base 7)
          (later (word_at base 7) n (d.iowrite32 (read_value r) (word_at base 5) s))
        ≡ (v, t)
      → v ≢ pending
      → v < 2 ^ 32
      → access_bram_fw d fuel gid r s ≡ done (record r { word = v % 2 ^ 16 }) t
  unfolding access_bram_fw
  access_bram_fw-read fuel gid n base v r s t op port h q e ne w = ground (
    arith,
    poll_answered fuel n base v (d.iowrite32 (read_value r) (word_at base 5) s) t h q e ne,
    print_data_lem v w,
  )

  -- A read through a port that there is not never ends, for any user and on any fuel, and sends
  -- nothing.
  pub access_bram_fw-no_port :
      (fuel gid : ℕ) (r : AccessDs) (s : S)
      → r.op_code ≢ 0
      → (r.input_port ≡ 0) ⊎ (4 < r.input_port)
      → access_bram_fw d fuel gid r s ≡ spin s
  unfolding access_bram_fw access_base
  access_bram_fw-no_port fuel gid r s op port = ground (arith, poll_no_port fuel s)
