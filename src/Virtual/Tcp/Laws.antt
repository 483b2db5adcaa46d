-- ===== src/Virtual/Tcp/Laws.antt =====
-- What send_data leaves in the structure, in whatever pieces the answer arrives.
use sc_co_si_m.Prelude.{◌≡◌, refl, sym, ap, ◌∙◌, [], some, length, All}
use sc_co_si_m.Virtual.Packet.{SimpleAsyncPacket}
use sc_co_si_m.Virtual.Tcp.Stream.{IsPiece, concat, collect-concat, overlay_all}
use sc_co_si_m.Virtual.Tcp.{Network, send_data}

-- The server answers the packet `p` with `q`, in pieces of a byte or more, over a connection that is
-- made; both packets have the structure's size, and the layout gives `q` back.
pub record Answered {W : Type 0} (net : Network W) (p q : SimpleAsyncPacket) (w t : W)
    : Type 0 where
  pub connects : net.connect w ≡ some w
  pub in_pieces : All IsPiece (net.talk (net.bytes p) w).0
  pub whole : concat (net.talk (net.bytes p) w).0 ≡ net.bytes q
  pub end : (net.talk (net.bytes p) w).1 ≡ t
  pub request_size : length (net.bytes p) ≡ net.size
  pub answer_size : length (net.bytes q) ≡ net.size
  pub read_back : net.packet (net.bytes q) ≡ q

-- The pieces are put together to the whole answer, and the structure holds it afterwards.
send_data-Answered :
    {W : Type 0} (net : Network W) (p q : SimpleAsyncPacket) (w t : W)
    → Answered net p q w t
    → send_data net p w ≡ some (q, t)
unfolding send_data
send_data-Answered net p q w t a =
    let all =
      collect-concat net.size [] (net.talk (net.bytes p) w).0 a.in_pieces
        (ap length a.whole ∙ a.answer_size)
      ∙ a.whole in
    rw
      (
        send_data,
        a.connects,
        all,
        overlay_all (net.bytes q) (net.bytes p) (a.answer_size ∙ sym a.request_size),
        a.read_back,
        a.end,
      )
      refl
