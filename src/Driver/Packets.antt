-- ===== src/Driver/Packets.antt =====
-- `accessBramFW` of kernel_mode.c: access to a BRAM through the switch and the firewall, by packets.
pub mod Laws
use sc_co_si_m.Prelude.{
  ℕ, zero, suc, ◌+◌, Option, none, some, ◌&&◌, not, ◌==◌, if◌then◌else◌, u32, sub32, shl32, shr,
  bit_or,
}
use sc_co_si_m.Driver.Machine.{Device, M, Outcome, spin, return, stop, load, store, ◌>>=◌, ◌>>◌}
use sc_co_si_m.Driver.Map.{access_base, word_at}

-- `struct access_ds`
pub record AccessDs : Type 0 where
  pub op_code : ℕ
  pub input_port : ℕ
  pub output_port : ℕ
  pub addr : ℕ
  pub word : ℕ

-- The packet that the driver builds, one addition after the other.
unfoldable pub write_value : AccessDs → ℕ
write_value r =
    let a = shl32 r.addr 24 in
    let b = u32 (a + shl32 (sub32 r.input_port 1) 18) in
    let c = u32 (b + shl32 (sub32 r.output_port 1) 16) in u32 (c + r.word)

unfoldable pub read_value : AccessDs → ℕ
read_value r =
    let a = shl32 r.addr 24 in
    let o = u32 (a + shl32 1 20) in
    let b = u32 (o + shl32 (sub32 r.input_port 1) 18) in
    let c = u32 (b + shl32 (sub32 r.output_port 1) 16) in u32 (c + 0)

abbrev pub pending : ℕ
pending = 0x80000000

-- "chop last 16 bits": the halves change places, and the upper one is kept.
unfoldable pub print_data : ℕ → ℕ
print_data v = shr (bit_or (shl32 v 16) (shr v 16)) 16

module _ {S : Type 0} (d : Device S) where
  -- The `switch` that writes a packet; it has no default.
  unfoldable pub send : ℕ → Option ℕ → M S (Unit {0})
  send v none = return tt
  send v (some base) = store d v (word_at base 5)

  -- The `switch` that reads a response; without a case `test_data` stays as it was.
  unfoldable pub receive : ℕ → Option ℕ → M S ℕ
  receive test_data none = return test_data
  receive test_data (some base) = load d (word_at base 7)

  -- The loop `while (test_data == 0x80000000)`, with fuel.
  unfoldable pub poll : ℕ → Option ℕ → M S ℕ
  unfolding receive
  poll zero base s = spin s
  poll (suc n) base s =
      let again = poll n base in
      (do v ← receive pending base; if v == pending then again else return v) s

  unfoldable pub guard_packet : ℕ → ℕ → M S (Unit {0})
  guard_packet gid op_code = if not (gid == 0) && op_code == 0 then stop else return tt

  -- The result is always 0; what is returned here is the structure.
  unfoldable pub access_bram_fw : ℕ → ℕ → AccessDs → M S AccessDs
  unfolding send guard_packet
  access_bram_fw fuel gid r = do
    guard_packet gid r.op_code
    (if r.op_code == 0 then (do send (write_value r) (access_base r.input_port); return r) else (do
      send (read_value r) (access_base r.input_port)
      v ← poll fuel (access_base r.input_port)
      return (record r { word = print_data v })))
