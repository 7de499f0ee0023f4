-- ===== src/CoSocket/Blocking.antt =====
-- CoSocket/net/CoSocket.cpp: `Connect`, `Accept`, `Read` and `Write`, and `SetTimeoutGuard`. Each call
-- makes a system call, and where that would block it waits for an event and makes another. The
-- answers of the system calls are arguments: `first` of the one before the wait, `second` of the one
-- after it. A call that yields ends as `waiting`, and `finish` is what it does when it is resumed.
pub mod Restore
pub mod Faults
pub mod Answers
pub mod Guards
pub mod Steps
use co_socket.Prelude.{
  ℕ, ◌-◌, Bool, true, false, not, ◌&&◌, ◌||◌, Option, none, some, ◌==◌, if◌then◌else◌,
}
use co_socket.Prelude.Int.{ℤ, pos, sub_ℕ, ltb_ℤ}
use co_socket.Timestamp.{Timestamp}
use co_socket.TimeoutSet
use co_socket.Epoller.{EpollKernel}
use co_socket.CoSocket.State.{CoSocket}
use co_socket.CoSocket.Events.{
  Direction, inward, outward, flag, Added, duplicate, aborted, yielded, add_event_and_yield,
  delete_event,
}

-- The answer of a system call: its result, or -1 with `errno`.
pub data Answer : Type 0 where
  result : ℕ → Answer
  error : ℕ → Answer

-- `-n`.
abbrev pub negative : ℕ → ℤ
negative n = sub_ℕ 0 n

-- The result of the second system call, or `-errno`.
abbrev pub to_ret : Answer → ℤ
to_ret (result n) = pos n
to_ret (error e) = negative e

abbrev eintr : ℕ
eintr = 4

-- `EAGAIN`, which is also `EWOULDBLOCK`.
abbrev eagain : ℕ
eagain = 11

abbrev pub etime : ℕ
etime = 62

abbrev econnaborted : ℕ
econnaborted = 103

abbrev eisconn : ℕ
eisconn = 106

abbrev etimedout : ℕ
etimedout = 110

abbrev einprogress : ℕ
einprogress = 115

-- The error codes after which a call waits.
abbrev pub read_waits : ℕ → Bool
read_waits e = e == eagain || e == eintr

abbrev pub accept_waits : ℕ → Bool
accept_waits e = e == eagain || e == econnaborted || e == eintr || e == etimedout

abbrev pub connect_waits : ℕ → Bool
connect_waits e = e == eagain || e == einprogress || e == eintr

-- The error that `getsockopt` read, or its own; both are returned as a negative number.
abbrev pub connect_ret : Answer → ℤ
connect_ret (result n) = negative n
connect_ret (error e) = negative e

pub data Outcome (K : Type 0) : Type 0 where
  returned : ℤ → CoSocket K → Outcome K
  waiting : CoSocket K → Outcome K
  aborts : Outcome K

module _ {K : Type 0} where
  -- The constructor of `SetTimeoutGuard`. Outside a coroutine the yield that follows is an error of
  -- the coroutine library, so that case does not come up.
  pub guard_open : Option ℕ → ℤ → Timestamp → CoSocket K → CoSocket K
  guard_open none timeout now s = s
  guard_open (some co) timeout now s =
      if ltb_ℤ (pos 0) timeout
      then record s { timeouts = TimeoutSet.insert co timeout now s.timeouts }
      else s

  -- Its destructor.
  pub guard_close : Option ℕ → ℤ → CoSocket K → CoSocket K
  guard_close none timeout s = s
  guard_close (some co) timeout s =
      if ltb_ℤ (pos 0) timeout then record s { timeouts = TimeoutSet.delete co s.timeouts } else s

module _ {K : Type 0} (kernel : EpollKernel K) where
  -- The end of a call, from the test of `m_handlingTimeout` on.
  pub finish : Direction → ℕ → ℤ → Option ℕ → ℤ → CoSocket K → Outcome K
  finish d fd timeout co answer s =
      let ret = if s.handling_timeout then negative etime else answer in
      let (deleted, s') = delete_event kernel fd (flag d) s in
      if deleted then returned ret (guard_close co timeout s') else aborts

  -- The result -1 of `AddEventAndYield` is not looked at: the call goes on at once.
  pub go_on : Option ℕ → Direction → ℕ → ℤ → ℤ → Added × CoSocket K → Outcome K
  go_on co d fd timeout answer (duplicate, s) = finish d fd timeout co answer s
  go_on co d fd timeout answer (aborted, s) = aborts
  go_on co d fd timeout answer (yielded, s) = waiting s

  -- The guard of the coroutine `co`, and `AddEventAndYield`.
  pub begin_for : Option ℕ → Direction → ℕ → ℤ → Timestamp → ℤ → CoSocket K → Outcome K
  unfolding go_on
  begin_for co d fd timeout now answer s =
      go_on co d fd timeout answer
        (add_event_and_yield kernel fd (flag d) (guard_open co timeout now s))

  pub begin : Direction → ℕ → ℤ → Timestamp → ℤ → CoSocket K → Outcome K
  begin d fd timeout now answer s = begin_for s.running d fd timeout now answer s

  pub read : ℕ → ℤ → Timestamp → Answer → Answer → CoSocket K → Outcome K
  read fd timeout now (result n) second s = returned (pos n) s
  read fd timeout now (error e) second s =
      if not (read_waits e)
      then returned (negative e) s
      else begin inward fd timeout now (to_ret second) s

  pub accept : ℕ → ℤ → Timestamp → Answer → Answer → CoSocket K → Outcome K
  accept fd timeout now (result n) second s = returned (pos n) s
  accept fd timeout now (error e) second s =
      if not (accept_waits e)
      then returned (negative e) s
      else begin inward fd timeout now (to_ret second) s

  pub write_attempt : ℕ → ℤ → Timestamp → Answer → Answer → CoSocket K → Outcome K
  write_attempt fd timeout now (result n) second s = returned (pos n) s
  write_attempt fd timeout now (error e) second s =
      if not (read_waits e)
      then returned (negative e) s
      else begin outward fd timeout now (to_ret second) s

  -- A call with nothing to write, or with no buffer, makes no system call.
  pub write : ℕ → ℕ → Bool → ℤ → Timestamp → Answer → Answer → CoSocket K → Outcome K
  unfolding write_attempt
  write fd size has_buffer timeout now first second s =
      if size == 0 || not has_buffer
      then returned (pos 0) s
      else write_attempt fd timeout now first second s

  pub connect : ℕ → ℤ → Timestamp → Answer → Answer → CoSocket K → Outcome K
  connect fd timeout now (result n) second s = returned (pos 0) s
  connect fd timeout now (error e) second s =
      if e == eisconn
      then returned (pos 0) s
      else if not (connect_waits e)
      then returned (negative e) s
      else begin outward fd timeout now (connect_ret second) s
