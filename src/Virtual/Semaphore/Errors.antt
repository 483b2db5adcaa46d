-- ===== src/Virtual/Semaphore/Errors.antt =====
-- What the virtual drivers make of a simulation that fails, and of the word that ends it.
use sc_co_si_m.Prelude.{ℕ, suc, ◌^◌, ◌≤◌, ◌<◌, ◌≡◌, ◌≢◌, refl, ap, ◌∙◌, arith, Option, none, some}
use sc_co_si_m.Driver.Machine.{Device, done}
use sc_co_si_m.Driver.Map.{access_base}
use sc_co_si_m.Driver.Rules.{FwDs}
use sc_co_si_m.Driver.Packets.{
  AccessDs, send, receive, poll, guard_packet, access_bram_fw, print_data,
}
use sc_co_si_m.Virtual.Access.{exit_word}
use sc_co_si_m.Virtual.Packet.{
  SimpleAsyncPacket, async_ok_response, write_request, read_request, response_word,
}
use sc_co_si_m.Virtual.Refines.{Implements, Simulates, seen, EndsReady}
use sc_co_si_m.Virtual.Calls.{sc_setup_fw, sc_setup_reg, sc_access_bram_fw}
use sc_co_si_m.Virtual.Calls.Laws.{packet_word, sc_access_bram_fw-access_bram_fw}
use sc_co_si_m.Virtual.Semaphore.{
  Port, Client, sem_iowrite32, sem_ioread32, set_id_counter, init_with, sem_access,
}
use sc_co_si_m.Virtual.Semaphore.Laws.{IsMapped, CanMap, Answers, no_exit, written}

-- A simulation that answers every request with a status other than success.
abbrev pub IsFailing : {W : Type 0} → Port W → Type 0
IsFailing {W} port =
    (p : SimpleAsyncPacket) (w : W)
    → (q : SimpleAsyncPacket) × (t : W) × (port.exchange p w ≡ some (q, t))
      × (q.status ≢ async_ok_response)

at_setup : (starting port : ℕ) → sc_setup_reg starting port < 2 ^ 32
unfolding sc_setup_reg
at_setup starting port = omega arith

-- The device that a failing simulation is like: every read gives -1.
abbrev pub dead : Device (Unit {0})
dead = record { ioread32 = λ a s. (0xFFFFFFFF, tt); iowrite32 = λ v a s. tt }

abbrev pub nothing : {W : Type 0} → Client W → Unit {0}
nothing c = tt

module _ {W : Type 0} (port : Port W) where
  write_at :
      (v a n : ℕ) (w : W) (shptr : Option SimpleAsyncPacket)
      → v ≢ exit_word
      → IsFailing port
      → IsMapped (record { shptr = shptr; id_counter = n; world = w })
      → Simulates IsMapped nothing
          (sem_iowrite32 port v a (record { shptr = shptr; id_counter = n; world = w }))
          (done tt tt)
  unfolding sem_iowrite32 seen EndsReady write_request
  write_at v a n w none nv fails r = elim r [ ]
  write_at v a n w (some old) nv fails r =
      let f = fails (written n v a) w in rw (sem_iowrite32, no_exit v nv, f.2) (refl, tt)

  read_at :
      (garbage a n : ℕ) (w : W) (shptr : Option SimpleAsyncPacket)
      → IsFailing port
      → IsMapped (record { shptr = shptr; id_counter = n; world = w })
      → Simulates IsMapped nothing
          (sem_ioread32 port garbage a (record { shptr = shptr; id_counter = n; world = w }))
          (done 0xFFFFFFFF tt)
  unfolding sem_ioread32 seen EndsReady response_word
  read_at g a n w none fails r = elim r [ ]
  read_at g a n w (some old) fails r =
      let f = fails (read_request n g a) w in
      rw (sem_ioread32, f.2) (ap (λ v. done v tt) (ground (arith, f.3)), tt)

  start_at :
      (mapping : Client W → Option (SimpleAsyncPacket × W)) (c : Client W)
      → CanMap mapping c
      → Simulates IsMapped nothing (init_with mapping c) (done tt tt)
  unfolding init_with seen EndsReady
  start_at mapping c h = rw (init_with, h.1) (refl, tt)

  dead-Implements :
      (mapping : Client W → Option (SimpleAsyncPacket × W)) (garbage : ℕ)
      → IsFailing port
      → Implements (sem_access port mapping garbage) dead IsMapped (CanMap mapping) nothing
  unfolding sem_access set_id_counter seen EndsReady
  dead-Implements mapping garbage fails = record {
    write_refines = λ v a hv nv ha. record {
      simulates = λ c r. write_at v a c.id_counter c.world c.shptr nv fails r;
    };
    read_refines = λ a ha. record {
      simulates = λ c r. read_at garbage a c.id_counter c.world c.shptr fails r;
    };
    restart_refines = record { simulates = λ c r. (refl, r) };
    init_starts = start_at mapping;
  }

  dead_read :
      (n : ℕ) (r : AccessDs)
      → r.op_code ≢ 0
      → 1 ≤ r.input_port
      → r.input_port ≤ 4
      → access_bram_fw dead (suc n) 0 r tt ≡ done (record r { word = 0xFFFF }) tt
  unfolding access_bram_fw send receive poll guard_packet access_base print_data
  dead_read n r op lo hi = ground arith

  -- A read through the switch of a simulation that answers every request with a status other than
  -- success is not seen to fail: for a port of 1 to 4 and a packet other than 0x80000000, a
  -- process that maps the memory gets the word 0xFFFF after one poll.
  sc_access_bram_fw_fails :
      (mapping : Client W → Option (SimpleAsyncPacket × W)) (garbage n : ℕ) (r : AccessDs)
      (c : Client W)
      → IsFailing port
      → CanMap mapping c
      → r.op_code ≢ 0
      → 1 ≤ r.input_port
      → r.input_port ≤ 4
      → packet_word r ≢ exit_word
      → seen IsMapped nothing (sc_access_bram_fw (sem_access port mapping garbage) (suc n) r c)
        ≡ done (record r { word = 0xFFFF }) tt
  sc_access_bram_fw_fails mapping garbage n r c fails start op lo hi ne =
      (sc_access_bram_fw-access_bram_fw (dead-Implements mapping garbage fails) (suc n) r c ne
        start).0
      ∙ dead_read n r op lo hi

  -- A rule with the upper bound 0x80000000, set up by a process that maps the memory of a
  -- simulation that serves a device, reaches the device without that bound: the virtual driver
  -- posts a request that ends the simulation in its place, with no wait for an answer, and goes on
  -- to the rule register. The other two values fit 32 bits and are not that word.
  sc_setup_fw_exits :
      (d : Device W) (mapping : Client W → Option (SimpleAsyncPacket × W)) (garbage : ℕ) (fw : FwDs)
      (c : Client W)
      → Answers port.exchange (λ w. Unit) (λ w. w) d
      → CanMap mapping c
      → fw.l_addr_reg < 2 ^ 32
      → fw.rule_reg < 2 ^ 32
      → fw.l_addr_reg ≢ exit_word
      → fw.rule_reg ≢ exit_word
      → let rule = sc_setup_reg 84 fw.input_port in
        let high = sc_setup_reg 52 fw.input_port in
        let low = sc_setup_reg 20 fw.input_port in
        seen IsMapped
          (λ c. c.world)
          (sc_setup_fw (sem_access port mapping garbage) (record fw { h_addr_reg = exit_word }) c)
        ≡ done tt (
            d.iowrite32 fw.rule_reg rule (
              port.post
                (write_request 3 exit_word high)
                (d.iowrite32 fw.l_addr_reg low (d.iowrite32 0 rule c.world))))
  unfolding sc_setup_fw sem_access sem_iowrite32 set_id_counter init_with seen write_request
  sc_setup_fw_exits d mapping garbage fw c answers start lw rule_fits ln rn =
      let rule = at_setup 84 fw.input_port in
      let w1 = answers.write_answered (write_request 1 0 _) c.world tt refl (omega arith) rule in
      let w2 =
        answers.write_answered (written 2 fw.l_addr_reg _) w1.1 tt refl lw
          (at_setup 20 fw.input_port) in
      let w3 =
        answers.write_answered (written 4 fw.rule_reg _)
          (port.post (write_request 3 exit_word (sc_setup_reg 52 fw.input_port)) w2.1) tt refl
          rule_fits rule in
      rw (sc_setup_fw, init_with, seen, start.1)
        (rw (w1.2, seen, sem_iowrite32, no_exit fw.l_addr_reg ln)
          (rw (w2.2, no_exit fw.rule_reg rn)
            (rw (w3.2, seen)
              (ap (done tt) (
                w3.4
                ∙ ap
                    (λ w.
                      d.iowrite32 fw.rule_reg (sc_setup_reg 84 fw.input_port)
                        (port.post (write_request 3 exit_word (sc_setup_reg 52 fw.input_port)) w))
                    (w2.4
                      ∙ ap (d.iowrite32 fw.l_addr_reg (sc_setup_reg 20 fw.input_port)) w1.4))))))
