-- ===== src/Firewall/Module/Exits.antt =====
-- What an output port does for the words on its link.
use sc_co_si_m.Prelude.{
  ℕ, ◌+◌, ◌≡◌, ◌≢◌, inl, inr, refl, Bool, true, false, List, [], ◌∷◌, All, Bool-cases, arith, range,
  ◌==◌,
}
use sc_co_si_m.Firewall.Packet.{Port, number}
use sc_co_si_m.Firewall.Switch.Laws.{out_fifo}
use sc_co_si_m.Firewall.Output
use sc_co_si_m.Firewall.Output.{OutPort, bram, response, execute, take_out, interface_out}
use sc_co_si_m.Firewall.Output.Laws.{thread_lem}
use sc_co_si_m.Firewall.Module.{nb_read}
use sc_co_si_m.Firewall.Module.Routing.{OnLink, leaving-OnLink}

-- `M d mem`: the memory behind the port `d` may hold `mem`.
module _ (Q : ℕ → Type 0) (M : Port → (ℕ → ℕ) → Type 0) where
  -- What an output port does is what a packet asks for that may leave there.
  abbrev pub IsAsked : Port → Output.Action → Type 0
  IsAsked d (Output.mem_write a v) =
      (w : ℕ) × Q w
      × (range w 17 16 ≡ number d)
      × (range w 21 20 ≢ 1)
      × (a ≡ bram d + range w 31 22)
      × (v ≡ range w 15 0)
  IsAsked d (Output.responce_fifo r) =
      (w : ℕ) × (mem : ℕ → ℕ) × Q w
      × M d mem
      × (range w 17 16 ≡ number d)
      × (range w 21 20 ≡ 1)
      × (r ≡ response w (mem (bram d + range w 31 22)))
  IsAsked d a = Unit

  executed :
      (mem : ℕ → ℕ) (d : Port) (s : OutPort) (w : ℕ)
      → M d mem
      → Q w
      → range w 17 16 ≡ number d
      → All (IsAsked d) (execute mem d s w).1
  unfolding execute
  executed mem d s w k q e = elim (Bool-cases (range w 21 20 == 1)) [
    | inl o ↦ rw o ((w, mem, q, k, e, ground (arith, o), refl), tt)
    | inr o ↦ rw o ((w, q, e, ground (arith, o), refl, omega arith), (tt, (tt, tt)))
  ]

  taken :
      (mem : ℕ → ℕ) (d : Port) (s : OutPort) (ws : List ℕ) (seen : Bool)
      → M d mem
      → All (OnLink Q (out_fifo d)) ws
      → All (IsAsked d) (take_out mem d s (nb_read seen ws)).1
  unfolding take_out
  taken mem d s ws false k h = tt
  taken mem d s [] true k h = tt
  taken mem d s (w ∷ ws) true k h =
      let (q, e) = leaving-OnLink Q d w (h.0) in executed mem d s w k q e

  pub left_out :
      (mem : ℕ → ℕ) (d : Port) (s : OutPort) (done seen : Bool) (ws : List ℕ)
      → M d mem
      → All (OnLink Q (out_fifo d)) ws
      → All (IsAsked d) (Output.thread mem d s done (nb_read seen ws)).1
  unfolding interface_out
  left_out mem d s done seen ws k h =
      rw (thread_lem mem d s done (nb_read seen ws)) (go done s.preready s.is_write_op refl refl)
    where
      go :
          (b c o : Bool)
          → s.preready ≡ c
          → s.is_write_op ≡ o
          → All (IsAsked d) (interface_out mem d s b (nb_read seen ws)).1
      go false false o e i = rw e (taken mem d _ ws seen k h)
      go false true o e i = rw e tt
      go true false o e i = rw e tt
      go true true true e i = rw (e, i) (tt, (tt, tt))
      go true true false e i = rw (e, i) (tt, tt)
