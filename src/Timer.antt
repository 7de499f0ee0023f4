-- ===== src/Timer.antt =====
-- CoSocket/net/Timer.cpp. The answers of the system calls are arguments.
use co_socket.Prelude.{
  ℕ, ◌*◌, ◌/◌, ◌%◌, ◌+◌, ◌<◌, ◌≡◌, arith, Bool, not, if◌then◌else◌, Option, none, some,
}
use co_socket.Prelude.Int.{ℤ, pos, sub_ℕ, ◌*ℤ◌}
use co_socket.Timestamp.{Timestamp, quot, rem}
use co_socket.Epoller.{EpollKernel}
use co_socket.CoSocket.State.{CoSocket}
use co_socket.CoSocket.Blocking.{Answer, Outcome, returned, waiting, aborts}
use co_socket.CoSocket.Blocking as Calls

pub record Timer : Type 0 where
  pub fd : ℕ

-- The constructor, with the descriptor that it made; `none` is its exit.
pub new_timer : Option ℕ → Option Timer
new_timer none = none
new_timer (some fd) = some (record { fd = fd })

-- The destructor: the descriptor that it closes.
pub closed_at_end : Timer → ℕ
closed_at_end t = t.fd

-- `struct timespec`.
pub record Timespec : Type 0 where
  pub tv_sec : ℤ
  pub tv_nsec : ℤ

pub timer_value : ℤ → Timespec
timer_value ms = record { tv_sec = quot ms 1000; tv_nsec = rem ms 1000 *ℤ pos 1000000 }

-- A call whose result is not looked at.
abbrev discard : {K : Type 0} → Outcome K → Outcome K
discard (returned ret s) = returned (pos 0) s
discard (waiting s) = waiting s
discard aborts = aborts

-- `Wait`; `settime` is whether `timerfd_settime` accepts the value.
pub wait :
    {K : Type 0}
    → EpollKernel K
    → (Timespec → Bool)
    → ℤ
    → Timestamp
    → Answer
    → Answer
    → Timer
    → CoSocket K
    → Outcome K
unfolding timer_value
wait kernel settime ms now first second t s =
    if not (settime (timer_value ms))
    then returned (pos 0) s
    else discard (Calls.read kernel t.fd (sub_ℕ 0 1) now first second s)

-- A wait of `ms` milliseconds, not negative, sets the timer to exactly that time, in a value that the
-- kernel accepts: less than 10 ^ 9 nanoseconds.
pub timer_value_lem :
    (ms : ℕ)
    → (sec nsec : ℕ) × (timer_value (pos ms) ≡ record { tv_sec = pos sec; tv_nsec = pos nsec })
      × (nsec < 1000000000)
      × (sec * 1000 * 1000000 + nsec ≡ ms * 1000000)
unfolding timer_value ◌*ℤ◌
timer_value_lem ms = (ms / 1000, ms % 1000 * 1000000, ground arith, omega arith, omega arith)
