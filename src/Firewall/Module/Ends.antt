-- ===== src/Firewall/Module/Ends.antt =====
-- m_write_ended_event, for which b_transport waits after a write: which rounds notify it.
use sc_co_si_m.Prelude.{
  Bool, true, false, ◌||◌, ◌≡◌, refl, Bool-cases, inl, inr, List, [], ◌∷◌, ◌++◌,
}
use sc_co_si_m.Firewall.Registers.{execute_write, ends_here}
use sc_co_si_m.Firewall.Input
use sc_co_si_m.Firewall.Output
use sc_co_si_m.Firewall.Response
use sc_co_si_m.Firewall.Response.{section}
use sc_co_si_m.Firewall.Module.{
  Firewall, Event, bus_write, enters, moves, leaves, responds, installs, nb_read, sample, if_none,
  leave, step, run,
}

unfoldable pub input_ends : List Input.Action → Bool
input_ends [] = false
input_ends (Input.write_ended ∷ out) = true
input_ends (a ∷ out) = input_ends out

unfoldable pub output_ends : List Output.Action → Bool
output_ends [] = false
output_ends (Output.write_ended ∷ out) = true
output_ends (a ∷ out) = output_ends out

unfoldable pub response_ends : List Response.Action → Bool
response_ends [] = false
response_ends (Response.write_ended ∷ out) = true
response_ends (a ∷ out) = response_ends out

-- Whether a round notifies the event.
unfoldable pub notifies : Event → Firewall → Bool
notifies (bus_write a v) f = ends_here (execute_write a)
notifies (enters p seen) f = input_ends (Input.thread p (f.input p) (sample p seen f)).1
notifies (moves l seen) f = false
notifies (leaves mem p done seen) f = output_ends (leave mem p done seen f).0
notifies (responds p seen_init seen) f =
    let first = nb_read seen_init (f.init_responce_fifo p) in
    response_ends (section p first (nb_read (if_none first seen) (f.responce_fifo p)))
notifies installs f = false

-- Whether some round of a sequence does.
unfoldable pub ended : List Event → Firewall → Bool
ended [] f = false
ended (e ∷ es) f = notifies e f || ended es (step e f).1

pub ended-last :
    (es : List Event) (e : Event) (f : Firewall)
    → notifies e (run es f).1 ≡ true
    → ended (es ++ e ∷ []) f ≡ true
unfolding ended run
ended-last [] e f h = rw h refl
ended-last (x ∷ es) e f h = elim (Bool-cases (notifies x f)) [
  | inl k ↦ rw k refl
  | inr k ↦ rw k (ended-last es e (step x f).1 h)
]
