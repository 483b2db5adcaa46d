-- ===== src/Virtual/Calls/Laws.antt =====
-- A virtual driver does on a simulated device what the driver does for root on the real one.
use sc_co_si_m.Prelude.{
  ℕ, zero, suc, ◌+◌, ◌*◌, ◌^◌, ◌<◌, ◌≡◌, ◌≢◌, refl, arith, Option, none, some, ◌==◌, u32,
  if◌then◌else◌,
}
use sc_co_si_m.Driver.Machine.{Device, M, IsStorage, done, return, store, load, ◌>>=◌, ◌>>◌}
use sc_co_si_m.Driver.Map.{setup_reg, access_base, direct_base, word_at}
use sc_co_si_m.Driver.Rules.{FwDs, setup_fw, read_fw_regs}
use sc_co_si_m.Driver.Packets.{
  AccessDs, send, receive, poll, guard_packet, access_bram_fw, write_value, read_value, print_data,
}
use sc_co_si_m.Driver.Bram.{
  DirectAccessDs, Code, success, no_bram, at_bram, guard_direct, access_bram,
}
use sc_co_si_m.Virtual.Access.{Access, exit_word}
use sc_co_si_m.Virtual.Refines.{
  seen, EndsReady, Refines, Simulates, Implements, bind-Simulates, bind-Refines, if-Refines,
  return-Refines,
}
use sc_co_si_m.Virtual.Calls.{
  sc_setup_reg, sc_setup_fw, sc_read_fw_regs, sc_send, sc_receive, sc_poll, sc_pending,
  sc_access_bram_fw, sc_write_value, sc_read_value, sc_at_bram, sc_access_bram, sc_print_data,
}

sc_setup_reg-setup_reg :
    (starting port : ℕ)
    → starting < 100
    → sc_setup_reg (starting * 4) port ≡ setup_reg starting port
unfolding sc_setup_reg setup_reg
sc_setup_reg-setup_reg starting port h = omega arith

setup_reg-bound : (starting port : ℕ) → setup_reg starting port < 2 ^ 32
unfolding setup_reg
setup_reg-bound starting port = omega arith

u32-bound : (n : ℕ) → u32 n < 2 ^ 32
u32-bound n = omega arith

byte_address : (base addr : ℕ) → u32 (base + u32 (addr * 4)) ≡ word_at base addr
byte_address base addr = omega arith

-- The packet that a request is sent as.
abbrev pub packet_word : AccessDs → ℕ
packet_word r = if r.op_code == 0 then sc_write_value r else sc_read_value r

write_value-bound : (r : AccessDs) → sc_write_value r < 2 ^ 32
unfolding sc_write_value
write_value-bound r = u32-bound _

read_value-bound : (r : AccessDs) → sc_read_value r < 2 ^ 32
unfolding sc_read_value
read_value-bound r = u32-bound _

-- The values of a rule that can be sent.
pub record CanSend (fw : FwDs) : Type 0 where
  pub l_word : fw.l_addr_reg < 2 ^ 32
  pub h_word : fw.h_addr_reg < 2 ^ 32
  pub rule_word : fw.rule_reg < 2 ^ 32
  pub l_stays : fw.l_addr_reg ≢ exit_word
  pub h_stays : fw.h_addr_reg ≢ exit_word
  pub rule_stays : fw.rule_reg ≢ exit_word

module _ {C W : Type 0} {x : Access C} {d : Device W} {Ready Starts : C → Type 0} {view : C → W}
    (i : Implements x d Ready Starts view) where
  write_register :
      (v starting port : ℕ)
      → v < 2 ^ 32
      → v ≢ exit_word
      → starting < 100
      → Refines Ready view
          (x.sc_iowrite32 v (sc_setup_reg (starting * 4) port))
          (store d v (setup_reg starting port))
  write_register v starting port w n h =
      rw (sc_setup_reg-setup_reg starting port h)
        (i.write_refines v (setup_reg starting port) w n (setup_reg-bound starting port))

  init_then :
      {B : Type 0} (k : M C B) (l : M W B) (c : C)
      → Starts c
      → Refines Ready view k l
      → Simulates Ready view ((x.init_virtual_kernel >> k) c) (l (view c))
  init_then k l c h e =
      bind-Simulates Ready view _ (λ _. l) (x.init_virtual_kernel c) (done tt (view c))
        (i.init_starts c h) (λ _. e) c (view c)

  -- Over accesses that implement those of a device, a virtual driver that can start sets up a rule
  -- as the kernel's driver does for root: the same four writes to the same registers, which leave
  -- the device in the same state, and the driver ready for the next call. The three register
  -- values fit 32 bits, and none is the word that ends the simulation.
  pub sc_setup_fw-setup_fw :
      (fw : FwDs) (c : C)
      → CanSend fw
      → Starts c
      → Simulates Ready view (sc_setup_fw x fw c) (setup_fw d 0 fw (view c))
  unfolding sc_setup_fw setup_fw
  sc_setup_fw-setup_fw fw c s h =
      let port = fw.input_port in
      init_then _ (setup_fw d 0 fw) c h (
        bind-Refines Ready view i.restart_refines λ _.
          bind-Refines Ready view
            (write_register 0 21 port (omega arith) (omega arith) (omega arith))
            λ _.
              bind-Refines Ready view
                (write_register fw.l_addr_reg 5 port s.l_word s.l_stays (omega arith))
                λ _.
                  bind-Refines Ready view
                    (write_register fw.h_addr_reg 13 port s.h_word s.h_stays (omega arith))
                    λ _. write_register fw.rule_reg 21 port s.rule_word s.rule_stays (omega arith))

  read_register :
      (starting port : ℕ)
      → starting < 100
      → Refines Ready view
          (x.sc_ioread32 (sc_setup_reg (starting * 4) port))
          (load d (setup_reg starting port))
  read_register starting port h =
      rw (sc_setup_reg-setup_reg starting port h)
        (i.read_refines (setup_reg starting port) (setup_reg-bound starting port))

  pub sc_read_fw_regs-read_fw_regs :
      (fw : FwDs) → Refines Ready view (sc_read_fw_regs x fw) (read_fw_regs d 0 fw)
  unfolding sc_read_fw_regs read_fw_regs
  sc_read_fw_regs-read_fw_regs fw =
      let port = fw.input_port in
      bind-Refines Ready view (read_register 5 port (omega arith)) λ l.
        bind-Refines Ready view (read_register 13 port (omega arith)) λ h.
          bind-Refines Ready view (read_register 21 port (omega arith))
            λ r. return-Refines Ready view _

  sc_send-send :
      (v : ℕ) (base : Option ℕ)
      → v < 2 ^ 32
      → v ≢ exit_word
      → Refines Ready view (sc_send x v base) (send d v base)
  unfolding sc_send send
  sc_send-send v none w n = return-Refines Ready view tt
  sc_send-send v (some base) w n = i.write_refines v _ w n (u32-bound (base + 20))

  sc_receive-receive :
      (v : ℕ) (base : Option ℕ) → Refines Ready view (sc_receive x v base) (receive d v base)
  unfolding sc_receive receive
  sc_receive-receive v none = return-Refines Ready view v
  sc_receive-receive v (some base) = i.read_refines _ (u32-bound (base + 28))

  sc_poll-poll : (n : ℕ) (base : Option ℕ) → Refines Ready view (sc_poll x n base) (poll d n base)
  unfolding sc_poll poll seen EndsReady
  sc_poll-poll zero base = record { simulates = λ c r. (refl, tt) }
  sc_poll-poll (suc n) base = bind-Refines Ready view (sc_receive-receive sc_pending base) λ v.
      if-Refines Ready view (v == sc_pending) (λ _. sc_poll-poll n base)
        (λ _. return-Refines Ready view v)

  -- `at_bram` of the driver, less the read that checks a write.
  at_bram_unchecked : DirectAccessDs → Option ℕ → M W (Code × DirectAccessDs)
  at_bram_unchecked r none = return (no_bram, r)
  at_bram_unchecked r (some base) =
      if r.op_code == 0
      then (do store d r.word (word_at base r.addr); return (success, r))
      else (do v ← load d (word_at base r.addr); return (success, record r { word = v }))

  at_bram-quiet :
      (A : ℕ → Type 0) (r : DirectAccessDs) (base : ℕ) (s : W)
      → IsStorage d A
      → A (word_at base r.addr)
      → at_bram d 0 r (some base) s ≡ at_bram_unchecked r (some base) s
  unfolding at_bram at_bram_unchecked
  at_bram-quiet A r base s st inside =
      let a = word_at base r.addr in ground (arith, st.read_pure a (d.iowrite32 r.word a s) inside)

  access_unchecked :
      (A : ℕ → Type 0) (r : DirectAccessDs) (b : Option ℕ) (s : W)
      → IsStorage d A
      → ((base : ℕ) → b ≡ some base → A (word_at base r.addr))
      → at_bram d 0 r b s ≡ at_bram_unchecked r b s
  unfolding at_bram at_bram_unchecked
  access_unchecked A r none s st inside = refl
  access_unchecked A r (some base) s st inside = at_bram-quiet A r base s st (inside base refl)

  -- Over accesses that implement those of a device, a virtual driver that can start accesses a
  -- BRAM through the switch as the kernel's driver does for root: the packet, the wait for the
  -- response and the word returned are the same, and so is the device after it, on the same fuel.
  -- The packet sent is not the word that ends the simulation.
  pub sc_access_bram_fw-access_bram_fw :
      (fuel : ℕ) (r : AccessDs) (c : C)
      → packet_word r ≢ exit_word
      → Starts c
      → Simulates Ready view (sc_access_bram_fw x fuel r c) (access_bram_fw d fuel 0 r (view c))
  unfolding sc_access_bram_fw access_bram_fw guard_packet write_value sc_write_value read_value
      sc_read_value print_data sc_print_data
  sc_access_bram_fw-access_bram_fw fuel r c n h =
      let base = access_base r.input_port in
      init_then _ (access_bram_fw d fuel 0 r) c h (
        if-Refines Ready view (r.op_code == 0)
          (λ e.
            bind-Refines Ready view
              (sc_send-send (sc_write_value r) base (write_value-bound r) (rw e at n))
              λ _. return-Refines Ready view r)
          (λ e.
            bind-Refines Ready view
              (sc_send-send (sc_read_value r) base (read_value-bound r) (rw e at n))
              λ _.
                bind-Refines Ready view (sc_poll-poll fuel base) λ v. return-Refines Ready view _))

  at_bram-Refines :
      (r : DirectAccessDs) (base : Option ℕ)
      → r.word < 2 ^ 32
      → r.word ≢ exit_word
      → Refines Ready view (sc_at_bram x r base) (at_bram_unchecked r base)
  unfolding sc_at_bram at_bram_unchecked
  at_bram-Refines r none w n = return-Refines Ready view _
  at_bram-Refines r (some base) w n =
      let a = word_at base r.addr in
      rw (byte_address base r.addr) (
        if-Refines Ready view (r.op_code == 0)
          (λ _.
            bind-Refines Ready view (i.write_refines r.word a w n (u32-bound _))
              λ _. return-Refines Ready view (success, r))
          (λ _.
            bind-Refines Ready view (i.read_refines a (u32-bound _))
              λ v. return-Refines Ready view (success, record r { word = v })))

  -- Over accesses that implement those of a device whose words, where the access goes, are
  -- storage, a virtual driver that can start accesses a BRAM directly as the kernel's driver does
  -- for root. The word written fits 32 bits and is not the one that ends the simulation.
  sc_access_bram-access_bram :
      (A : ℕ → Type 0) (r : DirectAccessDs) (c : C)
      → IsStorage d A
      → ((base : ℕ) → direct_base r.bram_no ≡ some base → A (word_at base r.addr))
      → r.word < 2 ^ 32
      → r.word ≢ exit_word
      → Starts c
      → Simulates Ready view (sc_access_bram x r c) (access_bram d 0 r (view c))
  unfolding sc_access_bram access_bram guard_direct
  sc_access_bram-access_bram A r c st inside w n h =
      rw (access_unchecked A r (direct_base r.bram_no) (view c) st inside) (
        init_then _ (at_bram_unchecked r (direct_base r.bram_no)) c h
          (at_bram-Refines r (direct_base r.bram_no) w n))
