-- ===== src/Virtual/Shm/Laws.antt =====
-- The statistics over System V shared memory.
use sc_co_si_m.Prelude.{◌≤◌, ◌≡◌, arith, none}
use sc_co_si_m.Driver.Machine.{bug}
use sc_co_si_m.Driver.Stats.{StatDs}
use sc_co_si_m.Virtual.Semaphore.{Client, sem_access, sem_ioread32}
use sc_co_si_m.Virtual.Calls.{sc_report}
use sc_co_si_m.Virtual.Calls as Calls
use sc_co_si_m.Virtual.Shm.{ShmOs, access, sc_read_stats_per_port}

-- In a process that has not mapped the memory, the statistics of a port of 1 to 4 are not read:
-- the driver over shared memory does not map it then, and stops at the null pointer with nothing
-- changed.
sc_read_stats_per_port_unmapped :
    {W : Type 0} (os : ShmOs W) (r : StatDs) (c : Client W)
    → c.shptr ≡ none
    → 1 ≤ r.port
    → r.port ≤ 4
    → sc_read_stats_per_port os r c ≡ bug c
unfolding sc_read_stats_per_port Calls.sc_read_stats_per_port access sem_access sem_ioread32
    sc_report
sc_read_stats_per_port_unmapped os r c e lo hi = ground arith
