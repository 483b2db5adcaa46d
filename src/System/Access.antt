-- ===== src/System/Access.antt =====
-- A packet's whole way: from the driver through an input port, two switches, an output port and the
-- response section, and back.
use sc_co_si_m.Prelude.{
  ℕ, ◌+◌, ◌-◌, ◌*◌, ◌%◌, ◌^◌, ◌<◌, ◌≡◌, ◌≢◌, true, false, Option, none, some, [], ◌∷◌, ap, ◌∙◌,
  arith, refl, range,
}
use sc_co_si_m.Firewall.Packet.{Port, number}
use sc_co_si_m.Firewall.Input.{InPort, Sample, is_read}
use sc_co_si_m.Firewall.Input.Laws.{
  entered, number-lt-four, stamp, stamp_fields, Takes, IsWelcome, thread_enters_iff,
}
use sc_co_si_m.Firewall.Input
use sc_co_si_m.Firewall.Output
use sc_co_si_m.Firewall.Response
use sc_co_si_m.Firewall.Switch.{hop}
use sc_co_si_m.Firewall.Switch.Laws.{hops, in_fifo, out_fifo, hops-in_fifo}
use sc_co_si_m.Firewall.Output.{
  OutPort, responce_fifo, mem_write, out_addr_to_read, ready, write_ended, bram, response,
}
use sc_co_si_m.Firewall.Output.Laws.{response_fields, thread-read, thread-write}
use sc_co_si_m.Firewall.Response.{deliver, section}
use sc_co_si_m.Firewall.Response.Laws.{section-responce}
use sc_co_si_m.Driver.Packets.{AccessDs, write_value, read_value, pending, print_data}
use sc_co_si_m.Driver.Packets.Laws.{
  IsAddress, read_packet-write_value, read_packet-read_value, print_data_lem,
}
use sc_co_si_m.System.AddressMap.{port_number}

-- The port through which the driver sends, and the one whose memory it means.
pub record Route (r : AccessDs) (p d : Port) : Type 0 where
  pub enters : r.input_port ≡ port_number p
  pub leaves : r.output_port ≡ port_number d
  pub addr_fits : r.addr < 256

pub Route-IsAddress : {r : AccessDs} {p d : Port} → Route r p d → IsAddress r
Route-IsAddress {p = p} {d = d} t = omega (arith, number-lt-four p, number-lt-four d, t)

-- Whatever a port stamps on a packet, the opcode, the destination and the offset stay.
stamp_keeps :
    (p : Port) (w : ℕ)
    → (range (stamp p w) 21 20 ≡ range w 21 20)
      × (range (stamp p w) 17 16 ≡ range w 17 16)
      × (range (stamp p w) 31 22 ≡ range w 31 22)
      × (range (stamp p w) 15 0 ≡ range w 15 0)
stamp_keeps p w = let (high, low, _) = stamp_fields p w in omega arith

stamp_read : (p : Port) (w : ℕ) → range w 21 20 ≡ 1 → range (stamp p w) 19 18 ≡ number p
unfolding is_read
stamp_read p w e = let (_, _, source) = stamp_fields p w in ground arith

-- What the hardware reads out of the driver's request.
pub read_request :
    (r : AccessDs) (p d : Port)
    → Route r p d
    → let w = stamp p (read_value r) in
      (range w 21 20 ≡ 1)
      × (range w 17 16 ≡ number d)
      × (range w 31 22 ≡ 4 * r.addr)
      × (range w 19 18 ≡ number p)
read_request r p d t =
    let packet = read_packet-read_value r (Route-IsAddress t) in
    let opcode : range (read_value r) 21 20 ≡ 1 = ap (λ k. k.opcode) packet in
    let dest : range (read_value r) 17 16 ≡ r.output_port - 1 = ap (λ k. k.dest) packet in
    let offset : range (read_value r) 31 22 ≡ 4 * r.addr = ap (λ k. k.addr_offset) packet in
    let (op, to, at, _) = stamp_keeps p (read_value r) in
    (cc, omega (arith, t), cc, stamp_read p (read_value r) opcode)

-- What the driver's packet for a write says, stamped or not.
pub write_request :
    (r : AccessDs) (p d : Port)
    → Route r p d
    → r.word < 2 ^ 16
    → let w = stamp p (write_value r) in
      (range w 21 20 ≡ 0)
      × (range w 17 16 ≡ number d)
      × (range w 31 22 ≡ 4 * r.addr)
      × (range w 15 0 ≡ r.word)
write_request r p d t h =
    let packet = read_packet-write_value r (Route-IsAddress t) h in
    let opcode : range (write_value r) 21 20 ≡ 0 = ap (λ k. k.opcode) packet in
    let dest : range (write_value r) 17 16 ≡ r.output_port - 1 = ap (λ k. k.dest) packet in
    let offset : range (write_value r) 31 22 ≡ 4 * r.addr = ap (λ k. k.addr_offset) packet in
    let kept : range (write_value r) 15 0 ≡ r.word = ap (λ k. k.payload) packet in
    let (op, to, at, payload) = stamp_keeps p (write_value r) in (cc, omega (arith, t), cc, cc)

-- The response to a request, as the driver sees it.
pub settled :
    (w m : ℕ)
    → m < 2 ^ 32
    → (response w m < 2 ^ 32)
      × (range (response w m) 17 16 ≡ range w 19 18)
      × (print_data (response w m % 2 ^ 31) ≡ m % 2 ^ 16)
      × (response w m % 2 ^ 31 ≢ pending)
settled w m h =
    let (_, _, _, to, low, word) = response_fields w m h in
    (
      word,
      to,
      print_data_lem (response w m % 2 ^ 31) (omega arith) ∙ omega (arith, low),
      omega arith,
    )

module _ (mem_read : ℕ → ℕ) (p d : Port) (s : InPort) (x : Sample) (o : OutPort) where
  -- A read from the driver to the memory and back. The driver's packet is for ports that exist and
  -- an address below 256 words, and enters at a port that takes it (its rule is the one latched,
  -- and the packet differs from the one before it) and finds it welcome (no rule stops it, no
  -- result is awaited, there is room). Then one word enters, two switches bring it and nothing
  -- else to the named port; that port, when idle and the memory word is below 2^32, answers from
  -- its memory at byte 4 * addr; the answer is delivered to the port that asked, alone, with one
  -- acknowledgement; and the driver makes of it the low 16 bits of the memory word, and does not
  -- take it for "no response yet".
  read_path :
      (r : AccessDs)
      → Route r p d
      → Takes s x (read_value r)
      → IsWelcome s x (read_value r)
      → o.preready ≡ false
      → mem_read (bram d + 4 * r.addr) < 2 ^ 32
      → let w = stamp p (read_value r) in
        let m = mem_read (bram d + 4 * r.addr) in
        let answer = response w m in
        (entered (Input.thread p s x).1 ≡ w ∷ [])
        × (hops (hop (in_fifo p) w) ≡ (out_fifo d, w) ∷ [])
        × ((Output.thread mem_read d o false (some w)).1 ≡ responce_fifo answer ∷ [])
        × (section d none (some answer) ≡ deliver p (answer % 2 ^ 31) ∷ Response.write_ended ∷ [])
        × (answer % 2 ^ 31 ≢ pending)
        × (print_data (answer % 2 ^ 31) ≡ m % 2 ^ 16)
  read_path r t takes welcome idle small =
      let w = stamp p (read_value r) in
      let m = mem_read (bram d + 4 * r.addr) in
      let (op, to, at, source) = read_request r p d t in
      let (word, back, shown, answered) = settled w m small in
      (
        (thread_enters_iff p s x (read_value r) takes).0.1 welcome,
        hops-in_fifo p d w to,
        rw (thread-read mem_read d o w idle op) (rw at refl),
        section-responce d p (response w m) word (cc (back, source)),
        answered,
        shown,
      )

  -- A write from the driver to the memory, under the same conditions on the packet and the ports,
  -- with data below 2^16: one word enters, comes out at the named port alone, and is carried out
  -- as one write of the caller's data at byte 4 * addr of that port's memory, acknowledged once
  -- when the memory is done.
  write_path :
      (r : AccessDs) (head : Option ℕ)
      → Route r p d
      → r.word < 2 ^ 16
      → Takes s x (write_value r)
      → IsWelcome s x (write_value r)
      → o.preready ≡ false
      → let w = stamp p (write_value r) in
        let (o', out) = Output.thread mem_read d o false (some w) in
        (entered (Input.thread p s x).1 ≡ w ∷ [])
        × (hops (hop (in_fifo p) w) ≡ (out_fifo d, w) ∷ [])
        × (out
            ≡ mem_write (bram d + 4 * r.addr) r.word
              ∷ out_addr_to_read (bram d + 4 * r.addr)
              ∷ ready true
              ∷ [])
        × (Output.thread mem_read d o' true head
            ≡ (record o' { preready = false }, ready false ∷ write_ended ∷ []))
  write_path r head t small takes welcome idle =
      let w = stamp p (write_value r) in
      let (op, to, at, kept) = write_request r p d t small in
      let (out, _, ends) = thread-write mem_read d o w head idle (omega arith) in
      (
        (thread_enters_iff p s x (write_value r) takes).0.1 welcome,
        hops-in_fifo p d w to,
        cc (out, at, kept),
        ends,
      )
