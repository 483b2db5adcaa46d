-- ===== src/Cosim/Round/Tcp.antt =====
-- The TCP server answers as the co-simulation does, whatever pieces a request comes in.
use sc_co_si_m.Prelude.{ℕ, ◌≡◌, refl, sym, ap, ◌∙◌, List, [], length, All, some}
use sc_co_si_m.Virtual.Packet.{SimpleAsyncPacket}
use sc_co_si_m.Virtual.Tcp.Stream.{IsPiece, concat, collect-concat, overlay_all, take_all}
use sc_co_si_m.Cosim.Tlm.{Target}
use sc_co_si_m.Cosim.Sysc.{Simulation}
use sc_co_si_m.Cosim.Round.{round, tcp_pass}

module _ {W : Type 0} (target : Target W) (size : ℕ) (bytes : SimpleAsyncPacket → List ℕ)
    (packet : List ℕ → SimpleAsyncPacket) where
  -- For a layout of `size` bytes that can be read back: a request that comes whole is answered with
  -- the bytes of the packet that the co-simulation answers it with.
  pub tcp_pass-round :
      (p : SimpleAsyncPacket) (stack : List ℕ) (pieces : List (List ℕ)) (s t : Simulation W)
      (q : SimpleAsyncPacket)
      → ((r : SimpleAsyncPacket) → length (bytes r) ≡ size)
      → ((r : SimpleAsyncPacket) → packet (bytes r) ≡ r)
      → length stack ≡ size
      → All IsPiece pieces
      → concat pieces ≡ bytes p
      → round target p s ≡ some (q, t)
      → tcp_pass target size bytes packet stack pieces s ≡ some (bytes q, t)
  unfolding tcp_pass
  tcp_pass-round p stack pieces s t q sizes layout room whole e r =
      let got = collect-concat size [] pieces whole (ap length e ∙ sizes p) ∙ e in
      rw
        (
          tcp_pass,
          got,
          overlay_all (bytes p) stack (sizes p ∙ sym room),
          layout p,
          r,
          got,
          take_all (length (bytes p)) (bytes q) (sizes q ∙ sym (sizes p)),
        )
        refl
