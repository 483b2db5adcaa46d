-- ===== src/Virtual/Packet/Laws.antt =====
-- The time between two moments.
use sc_co_si_m.Prelude.{
  ℕ, ◌+◌, ◌-◌, ◌*◌, ◌%◌, ◌^◌, ◌≤◌, ◌<◌, ◌≡◌, refl, arith, true, false, leb, Bool-cases, inl, inr,
}
use sc_co_si_m.Virtual.Packet.{Timespec, diff, sub64, negative}

-- A moment after the epoch, its nanoseconds less than a second.
pub record IsTime (t : Timespec) : Type 0 where
  pub sec_fits : t.tv_sec < 2 ^ 62
  pub nsec_fits : t.tv_nsec < 1000000000

abbrev pub nanoseconds : Timespec → ℕ
nanoseconds t = 1000000000 * t.tv_sec + t.tv_nsec

sub64-above : (a b : ℕ) → b ≤ a → a < 2 ^ 64 → sub64 a b ≡ a - b
sub64-above a b h k = omega arith

sub64-negative : (a b : ℕ) → a < b → b < 2 ^ 63 → negative (sub64 a b) ≡ true
sub64-negative a b h k = ground arith

sub64-positive : (a b : ℕ) → b ≤ a → a < 2 ^ 63 → negative (sub64 a b) ≡ false
sub64-positive a b h k = ground arith

borrowed :
    (a b : ℕ) → a < b → b < 1000000000 → sub64 ((1000000000 + a) % 2 ^ 64) b ≡ 1000000000 + a - b
borrowed a b h k = omega arith

-- Without a borrow, and with one.
diff_same :
    (s e : Timespec)
    → IsTime s
    → IsTime e
    → s.tv_nsec ≤ e.tv_nsec
    → s.tv_sec ≤ e.tv_sec
    → diff s e ≡ record { tv_sec = e.tv_sec - s.tv_sec; tv_nsec = e.tv_nsec - s.tv_nsec }
unfolding diff
diff_same s e hs he n h =
    rw
      (
        sub64-positive e.tv_nsec s.tv_nsec n (omega arith),
        sub64-above e.tv_nsec s.tv_nsec n (omega arith),
        sub64-above e.tv_sec s.tv_sec h (omega arith),
      )
      refl

diff_borrow :
    (s e : Timespec)
    → IsTime s
    → IsTime e
    → e.tv_nsec < s.tv_nsec
    → s.tv_sec < e.tv_sec
    → diff s e
      ≡ record { tv_sec = e.tv_sec - s.tv_sec - 1; tv_nsec = 1000000000 + e.tv_nsec - s.tv_nsec }
unfolding diff
diff_borrow s e hs he n h =
    rw
      (
        sub64-negative e.tv_nsec s.tv_nsec n (omega arith),
        sub64-above e.tv_sec s.tv_sec (omega arith) (omega arith),
        sub64-above (e.tv_sec - s.tv_sec) 1 (omega arith) (omega arith),
        borrowed e.tv_nsec s.tv_nsec n hs.nsec_fits,
      )
      refl

-- Of two times with nanoseconds below 10^9 and seconds below 2^62, the first not after the second,
-- diff gives the time from one to the other, to the nanosecond, with its nanoseconds below 10^9.
pub diff_lem :
    (start end : Timespec)
    → IsTime start
    → IsTime end
    → nanoseconds start ≤ nanoseconds end
    → IsTime (diff start end) × (nanoseconds start + nanoseconds (diff start end) ≡ nanoseconds end)
diff_lem start end hs he le = elim (Bool-cases (leb start.tv_nsec end.tv_nsec)) [
  | inl e ↦
      rw (diff_same start end hs he (ground arith) (ground arith))
        (record { sec_fits = omega arith; nsec_fits = omega arith }, ground arith)
  | inr e ↦
      rw (diff_borrow start end hs he (ground arith) (ground arith))
        (record { sec_fits = omega arith; nsec_fits = ground arith }, ground arith)
]
