-- ===== src/Ports/Clocks.antt =====
-- examples/posix_clock.hpp and examples/win_clock.hpp: the sample clocks, over the readings of the
-- system's monotonic clock, and the times that the client takes between two of them.
use paho_cpp_static.Prelude.{ℕ, ◌+◌, ◌-◌, ◌*◌, ◌/◌, ◌%◌, ◌^◌, ◌≤◌, ◌<◌, ◌≡◌, arith}
use paho_cpp_static.Client.State.{elapsed_ms}

-- `now_ms` of PosixClock for a reading of CLOCK_MONOTONIC, in 64-bit arithmetic.
unfoldable pub posix_now_ms : ℕ → ℕ → ℕ
posix_now_ms sec nsec = (sec * 1000 % 2 ^ 64 + nsec / 1000000) % 2 ^ 64 % 2 ^ 32

-- `now_ms` of WinClock for the value of GetTickCount64().
unfoldable pub win_now_ms : ℕ → ℕ
win_now_ms ticks = ticks % 2 ^ 32

-- The milliseconds of a reading.
abbrev pub millis : ℕ → ℕ → ℕ
millis sec nsec = sec * 1000 + nsec / 1000000

elapsed_ms_exact :
    (from to : ℕ)
    → from ≤ to
    → to - from < 2 ^ 32
    → elapsed_ms (to % 2 ^ 32) (from % 2 ^ 32) ≡ to - from
unfolding elapsed_ms
elapsed_ms_exact from to order near = omega (arith, order, near)

posix_now_ms_lem : (sec nsec : ℕ) → posix_now_ms sec nsec ≡ millis sec nsec % 2 ^ 32
unfolding posix_now_ms
posix_now_ms_lem sec nsec = omega arith

-- Between two readings that are less than 2^32 ms apart, elapsed_ms of what PosixClock returns for
-- them is the time that has passed, whether the 32-bit count has wrapped or not; the same holds of
-- WinClock.
pub now_ms_elapsed :
    (sec nsec sec' nsec' ticks ticks' : ℕ)
    → millis sec nsec ≤ millis sec' nsec'
    → millis sec' nsec' - millis sec nsec < 2 ^ 32
    → ticks ≤ ticks'
    → ticks' - ticks < 2 ^ 32
    → (elapsed_ms (posix_now_ms sec' nsec') (posix_now_ms sec nsec)
        ≡ millis sec' nsec' - millis sec nsec)
      × (elapsed_ms (win_now_ms ticks') (win_now_ms ticks) ≡ ticks' - ticks)
unfolding win_now_ms
now_ms_elapsed sec nsec sec' nsec' ticks ticks' order near order' near' = (
  rw (posix_now_ms_lem sec nsec, posix_now_ms_lem sec' nsec')
      (elapsed_ms_exact (millis sec nsec) (millis sec' nsec') order near),
  elapsed_ms_exact ticks ticks' order' near',
)
