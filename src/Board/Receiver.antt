-- ===== src/Board/Receiver.antt =====
-- `receiver` of receiver.cpp: it acknowledges what a port of the firewall writes. A round reads the
-- port's ready signal; what it reads of the memory and of the other signals it only prints.
use sc_co_si_m.Prelude.{Bool, true, false, Option, none, some, not, if◌then◌else◌}

-- The variable indone afterwards, and what is written to the done signal, if anything.
unfoldable pub entry : Bool → Bool → Bool × Option Bool
entry ready indone =
    if ready
    then (if not indone then (true, some true) else (indone, none))
    else (false, some false)

-- The same on the signals of the direct port.
unfoldable pub directentry : Bool → Bool → Bool × Option Bool
directentry ready indone =
    if ready
    then (if not indone then (true, some true) else (indone, none))
    else (false, some false)
