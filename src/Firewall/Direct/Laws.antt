-- ===== src/Firewall/Direct/Laws.antt =====
-- A direct access, from the bus's address to the memory.
use sc_co_si_m.Prelude.{
  ℕ, ◌%◌, ◌^◌, ◌≡◌, Bool, true, false, Option, some, List, [], ◌∷◌, ◌++◌, arith, refl, ◌∙◌, range,
  set_range,
}
use sc_co_si_m.Firewall.Packet.{Port, port_0, port_1, port_2, port_3}
use sc_co_si_m.Firewall.Direct.{
  DirectPort, Action, mem_write, responce_fifo, read_pending, write_ended, addr_to_read, ready,
  request_write, request_read, execute, take_out, direct_mem_out, direct_mem_out_0,
  direct_mem_out_1, direct_mem_out_2, direct_mem_out_3, thread,
}

pub low_half : (v : ℕ) → set_range 0 15 0 (range v 15 0) ≡ v % 2 ^ 16
low_half v = omega arith

module _ (mem_read : ℕ → ℕ) where
  pub thread_lem :
      (p : Port) (s : DirectPort) (done : Bool) (head : Option ℕ)
      → thread mem_read p s done head ≡ direct_mem_out mem_read s done head
  unfolding thread direct_mem_out_0 direct_mem_out_1 direct_mem_out_2 direct_mem_out_3
  thread_lem port_0 s done head = refl
  thread_lem port_1 s done head = refl
  thread_lem port_2 s done head = refl
  thread_lem port_3 s done head = refl

  -- The rounds of a port's thread over what it sees of the memory's signal and of the fifo.
  unfoldable pub rounds : Port → List (Bool × Option ℕ) → DirectPort → DirectPort × List Action
  rounds p [] s = (s, [])
  rounds p ((done, head) ∷ xs) s =
      let (t, out) = thread mem_read p s done head in
      let (u, outs) = rounds p xs t in (u, out ++ outs)

  -- The rounds in which the memory has not done with a write, whatever the fifo holds.
  abbrev pub busy : List (Option ℕ) → List (Bool × Option ℕ)
  busy [] = []
  busy (h ∷ hs) = (false, h) ∷ busy hs

  waits :
      (p : Port) (s : DirectPort) (h : Option ℕ)
      → s.preready ≡ true
      → thread mem_read p s false h ≡ (s, [])
  unfolding direct_mem_out
  waits p s h e = thread_lem p s false h ∙ ground arith

  rounds-busy :
      (p : Port) (hs : List (Option ℕ)) (xs : List (Bool × Option ℕ)) (s : DirectPort)
      → s.preready ≡ true
      → rounds p (busy hs ++ xs) s ≡ rounds p xs s
  unfolding rounds
  rounds-busy p [] xs s e = refl
  rounds-busy p (h ∷ hs) xs s e = rw (waits p s h e) (rounds-busy p hs xs s e)

  -- A direct access at an idle port. A write is made once, of the low 16 bits of the word, and
  -- acknowledged in the round that sees the memory done, however many rounds come between and
  -- whatever waits in the fifo; a read answers with the memory's word at the address, in one
  -- round. In the end the port is as it was when the access was requested.
  pub direct_access :
      (p : Port) (a v : ℕ) (s : DirectPort) (hs : List (Option ℕ)) (head : Option ℕ)
      → s.preready ≡ false
      → let (w, x) = request_write a v s in
        let (r, y) = request_read a v s in
        (rounds p ((false, some x) ∷ busy hs ++ (true, head) ∷ []) w ≡ (
          w,
          mem_write a (v % 2 ^ 16) ∷ addr_to_read a ∷ ready true ∷ write_ended ∷ ready false ∷ [],
        ))
        × (rounds p ((false, some y) ∷ []) r ≡ (r, responce_fifo (mem_read a) ∷ read_pending ∷ []))
  unfolding rounds request_write request_read direct_mem_out take_out execute
  direct_access p a v s hs head idle =
      let (w, x) = request_write a v s in
      let (r, y) = request_read a v s in
      let t = record w { preready = true } in
      let begins : thread mem_read p w false (some v)
          ≡ (t, mem_write a (set_range 0 15 0 (range v 15 0)) ∷ addr_to_read a ∷ ready true ∷ []) =
        thread_lem p w false (some v) ∙ ground arith in
      let ends : thread mem_read p t true head ≡ (w, write_ended ∷ ready false ∷ []) =
        thread_lem p t true head ∙ ground arith in
      let reads : thread mem_read p r false (some v)
          ≡ (r, responce_fifo (mem_read a) ∷ read_pending ∷ []) =
        thread_lem p r false (some v) ∙ ground arith in
      (
        rw (begins, rounds-busy p hs ((true, head) ∷ []) t refl, ends, low_half v) refl,
        rw reads refl,
      )
