-- ===== src/Firewall/Output/Laws.antt =====
-- What an output port does for a packet.
use sc_co_si_m.Prelude.{
  ℕ, ◌+◌, ◌<◌, ◌^◌, ◌≡◌, ◌≢◌, Bool, true, false, Option, some, [], ◌∷◌, arith, range, refl,
}
use sc_co_si_m.Firewall.Packet.{Port, port_0}
use sc_co_si_m.Firewall.Output.{
  OutPort, mem_write, responce_fifo, out_addr_to_read, ready, write_ended, bram, response, execute,
  interface_out, interface_out_0, interface_out_1, interface_out_2, interface_out_3, thread,
}

-- For a memory word below 2^32, a response goes back where the request came from, with source and
-- destination exchanged, opcode 2, the request's address, the low 16 bits of the memory word for
-- data, and fits 32 bits.
pub response_fields :
    (w m : ℕ)
    → m < 2 ^ 32
    → (range (response w m) 31 22 ≡ range w 31 22)
      × (range (response w m) 21 20 ≡ 2)
      × (range (response w m) 19 18 ≡ range w 17 16)
      × (range (response w m) 17 16 ≡ range w 19 18)
      × (range (response w m) 15 0 ≡ range m 15 0)
      × (response w m < 2 ^ 32)
unfolding response
response_fields w m h = omega arith

module _ (mem_read : ℕ → ℕ) where
  pub thread_lem :
      (p : Port) (s : OutPort) (done : Bool) (head : Option ℕ)
      → thread mem_read p s done head ≡ interface_out mem_read p s done head
  unfolding thread interface_out_0 interface_out_1 interface_out_2 interface_out_3
  thread_lem port_0 s done head = refl
  thread_lem _ s done head = refl

  -- An idle port whose memory is not busy answers a read by the response with what the memory
  -- holds at the packet's offset in the port's BRAM, and is idle again.
  pub thread-read :
      (p : Port) (s : OutPort) (w : ℕ)
      → s.preready ≡ false
      → range w 21 20 ≡ 1
      → thread mem_read p s false (some w) ≡ (
        record s { is_write_op = false },
        responce_fifo (response w (mem_read (bram p + range w 31 22))) ∷ [],
      )
  unfolding interface_out execute
  thread-read p s w idle op = rw (thread_lem p s false (some w)) (ground arith)

  -- An idle port whose memory is not busy carries out any packet that is no read as a write of its
  -- data at its offset in the port's BRAM; a round in which the memory is not done then changes
  -- nothing, whatever packet waits, and one in which it is done acknowledges the write once and
  -- leaves the port idle.
  pub thread-write :
      (p : Port) (s : OutPort) (w : ℕ) (head : Option ℕ)
      → s.preready ≡ false
      → range w 21 20 ≢ 1
      → let (t, out) = thread mem_read p s false (some w) in
        (out
          ≡ mem_write (bram p + range w 31 22) (range w 15 0)
            ∷ out_addr_to_read (bram p + range w 31 22)
            ∷ ready true
            ∷ [])
        × (thread mem_read p t false head ≡ (t, []))
        × (thread mem_read p t true head
            ≡ (record t { preready = false }, ready false ∷ write_ended ∷ []))
  unfolding interface_out execute
  thread-write p s w head idle op =
      let t = (execute mem_read p s w).0 in
      ground
        (arith, thread_lem p s false (some w), thread_lem p t false head, thread_lem p t true head)
