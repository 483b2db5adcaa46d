-- ===== src/System/Storage.antt =====
-- What the driver writes through the switch, in the memory behind the port that the packet names.
use sc_co_si_m.Prelude.{ℕ, ◌+◌, ◌*◌, ◌^◌, ◌<◌, ◌≡◌, refl, ap, ◌∙◌, Bool, some, List, [], ◌∷◌, arith}
use mathlib.Core.Path.{subst}
use sc_co_si_m.Firewall.Packet.{Port, port_0, port_1, port_2, port_3}
use sc_co_si_m.Firewall.Input.Laws.{stamp}
use sc_co_si_m.Firewall.Output.{bram, response}
use sc_co_si_m.Board.Memory.{Memory, read, write, new_memory}
use sc_co_si_m.Board.Memory.Laws.{IsMemory, read-write, new_memory-IsMemory}
use sc_co_si_m.Board.Side
use sc_co_si_m.Board.Side.Laws.{
  place, carry_out, duration, answers, ended, writes, resting, Serves, cycles-Serves,
}
use sc_co_si_m.Board.Direct
use sc_co_si_m.Board.Direct.Laws
use sc_co_si_m.Board.Direct.Laws.{direct_cycles}
use sc_co_si_m.Driver.Map.{direct_base, word_at}
use sc_co_si_m.Driver.Packets.{AccessDs, write_value, read_value}
use sc_co_si_m.System.AddressMap.{port_number}
use sc_co_si_m.System.Access.{Route, read_request, write_request}

-- The memory behind a port, as main.cpp makes it.
abbrev pub bus_mem : Port → Memory
bus_mem d = new_memory (bram d) (bram d + 0xFFF)

pub record IsBehind (d : Port) (m : Memory) : Type 0 where
  pub is_memory : IsMemory m
  pub from_bram : m.start_addr ≡ bram d
  pub to_bram : m.end_addr ≡ bram d + 0xFFF

bram_fits : (d : Port) → bram d + 0xFFF < 2 ^ 32
unfolding bram
bram_fits port_0 = omega arith
bram_fits port_1 = omega arith
bram_fits port_2 = omega arith
bram_fits port_3 = omega arith

pub bus_mem-IsBehind : (d : Port) → IsBehind d (bus_mem d)
unfolding new_memory
bus_mem-IsBehind d = record {
  is_memory =
      new_memory-IsMemory (bram d) (bram d + 0xFFF) (omega arith) (omega arith) (bram_fits d);
  from_bram = refl;
  to_bram = refl;
}

direct_base-bram : (d : Port) → direct_base (port_number d) ≡ some (bram d)
unfolding direct_base bram
direct_base-bram port_0 = refl
direct_base-bram port_1 = refl
direct_base-bram port_2 = refl
direct_base-bram port_3 = refl

module _ (p q d : Port) (r s : AccessDs) (m : Memory) (o : Bool) (to : Route r p d)
    (back : Route s q d) (small : r.word < 2 ^ 16) (same : s.addr ≡ r.addr)
    (behind : IsBehind d m) where
  -- The two packets as they come out of the switches.
  abbrev pub packets : List ℕ
  packets = stamp p (write_value r) ∷ stamp q (read_value s) ∷ []

  abbrev after : Memory
  after = write (bram d + 4 * r.addr) r.word m

  after-read : read after (bram d + 4 * r.addr) ≡ r.word
  after-read =
      let start = behind.from_bram in
      let end = behind.to_bram in
      let addr = to.addr_fits in
      read-write (bram d + 4 * r.addr) r.word m behind.is_memory (omega arith, omega arith)

  place_of : word_at (bram d) r.addr ≡ bram d + 4 * r.addr
  place_of = let fits = bram_fits d in let addr = to.addr_fits in omega arith

  carried :
      (duration packets ≡ 5)
      × (writes packets ≡ 1)
      × (carry_out d packets m ≡ (response (stamp q (read_value s)) r.word ∷ [], after))
  unfolding duration writes carry_out
  carried =
      let (op, _, at, kept) = write_request r p d to small in
      let (op', _, at', _) = read_request s q d back in
      let there : place d (stamp q (read_value s)) ≡ bram d + 4 * r.addr =
        omega (arith, at', same) in
      rw (op, op', at, kept, at', same, after-read) (refl, refl, refl)

  -- The packets of a driver's write and of a driver's read of the same place, from any two input
  -- ports, come out at the port that they name, which is at rest and idle, in that order. Five
  -- cycles of the port with its memory and its receiver acknowledge the write once, and answer the
  -- read with the word that was written; then the driver's direct base address of this port, and
  -- the word's offset, read the same word by the direct port in one cycle. The word is below 2^16,
  -- the address below 256, and the memory is the one behind the port.
  pub written_is_read :
      (a0 v : ℕ) (r0 : Bool)
      → let (out, t) = Side.cycles d 5 (resting m packets o) in
        let a = word_at (bram d) r.addr in
        let (acts, u) = Direct.cycles d 1 (Direct.read_request a v (Laws.resting t.memory a0 r0)) in
        (answers out ≡ response (stamp q (read_value s)) r.word ∷ [])
        × (ended out ≡ 1)
        × (t.fifo ≡ [])
        × (direct_base (port_number d) ≡ some (bram d))
        × (u.responce_fifo ≡ r.word ∷ [])
  written_is_read a0 v r0 =
      let (long, number, all) = carried in
      let ran : Serves d packets m (Side.cycles d 5 (resting m packets o)) =
        subst (λ n. Serves d packets m (Side.cycles d n (resting m packets o))) long
          (cycles-Serves d packets m o) in
      let t = (Side.cycles d 5 (resting m packets o)).1 in
      let a = word_at (bram d) r.addr in
      let holds : t.memory ≡ after = ran.carried_out ∙ ap (λ c. c.1) all in
      (
        ran.answered ∙ ap (λ c. c.0) all,
        ran.acknowledged_all ∙ number,
        ran.emptied,
        direct_base-bram d,
        ap (λ c. c.1.responce_fifo) ((direct_cycles d a v a0 r0 t.memory).1)
            ∙ ap (λ n. read n a ∷ []) holds
            ∙ ap (λ b. read after b ∷ []) place_of
            ∙ ap (λ b. b ∷ []) after-read,
      )
