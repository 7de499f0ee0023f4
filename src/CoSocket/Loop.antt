-- ===== src/CoSocket/Loop.antt =====
-- CoSocket/net/CoSocket.cpp: `NewCoroutine`, `Run` and its three passes. The coroutine library is not
-- modelled: `resume` is `coroutine_resume` with what the coroutine does until its next yield or its
-- end, `create` is `coroutine_new`. The passes run on fuel: `none` means that it ran out.
pub mod Passes
pub mod Spawn
pub mod Budget
pub mod Ends
pub mod Round
use co_socket.Prelude.{
  ℕ, zero, suc, ◌+◌, Bool, true, false, Option, none, some, List, [], ◌∷◌, ◌++◌, get_elem?,
}
use co_socket.Prelude.Int.{ℤ, pos, ◌+ℤ◌}
use co_socket.Timestamp.{Timestamp}
use co_socket.TimeoutSet.{get_expired, get_neareast_time_gap}
use co_socket.Epoller.{Polled, poll}
use co_socket.CoSocket.State.{CoSocket}
use co_socket.CoSocket.Events.{event_handler}

module _ {K : Type 0} (resume : ℕ → CoSocket K → CoSocket K) where
  resume_created : Option ℕ × CoSocket K → CoSocket K
  resume_created (none, s) = s
  resume_created (some co, s) = resume co s

  -- `NewCoroutine`: inside a coroutine the function is kept for the event loop.
  pub new_coroutine : (ℕ → CoSocket K → Option ℕ × CoSocket K) → ℕ → CoSocket K → CoSocket K
  unfolding resume_created
  new_coroutine create func s = elim s.running [
    | some _ ↦ record s { co_func_list = s.co_func_list ++ func ∷ [] }
    | none ↦ resume_created (create func s)
  ]

  -- `RunNewCoFunc`, with the position of the iterator: functions that are added meanwhile are run too.
  pub run_new_co_func :
      ℕ → ℕ → (ℕ → CoSocket K → Option ℕ × CoSocket K) → CoSocket K → Option (CoSocket K)
  unfolding new_coroutine
  run_new_co_func zero i create s = none
  run_new_co_func (suc fuel) i create s = elim (get_elem? s.co_func_list i) [
    | none ↦ some (record s { co_func_list = [] })
    | some func ↦ run_new_co_func fuel (i + 1) create (new_coroutine create func s)
  ]

  -- `RunWaitResumeCo`, likewise.
  pub run_wait_resume_co : ℕ → ℕ → CoSocket K → Option (CoSocket K)
  run_wait_resume_co zero i s = none
  run_wait_resume_co (suc fuel) i s = elim (get_elem? s.wait_resume_list i) [
    | none ↦ some (record s { wait_resume_list = [] })
    | some co ↦ run_wait_resume_co fuel (i + 1) (resume co s)
  ]

  -- The loop of `RunTimeoutCo`, at the time `now`.
  pub run_expired : ℕ → Timestamp → CoSocket K → Option (CoSocket K)
  run_expired zero now s = none
  run_expired (suc fuel) now s = elim (get_expired s.timeouts now) [
    | none ↦ some (record s { handling_timeout = false })
    | some co ↦ run_expired fuel now (resume co s)
  ]

  pub run_timeout_co : ℕ → Timestamp → CoSocket K → Option (CoSocket K)
  unfolding run_expired
  run_timeout_co fuel now s = run_expired fuel now (record s { handling_timeout = true })

  infixl 5 ◌>>=◌
  abbrev ◌>>=◌ {ℓ κ} : {A : Type ℓ} {B : Type κ} → Option A → (A → Option B) → Option B
  none >>= f = none
  some a >>= f = f a

  -- One round of `Run`: `before` and `later` are the times that the timestamps of the round read,
  -- `size` the size of the poller's list, and `wait` what `epoll_wait` answers to a timeout. `none` is
  -- also the exit on an error of `epoll_wait`.
  pub run_round :
      (ℕ → CoSocket K → Option ℕ × CoSocket K)
      → ℕ
      → Timestamp
      → Timestamp
      → (ℤ → Polled)
      → ℕ × CoSocket K
      → Option (ℕ × CoSocket K)
  unfolding run_new_co_func run_wait_resume_co run_timeout_co
  run_round create fuel before later wait (size, s) = do
    s1 ← run_new_co_func fuel 0 create s
    s2 ← run_wait_resume_co fuel 0 s1
    (size', s3) ←
        poll (event_handler resume) size (wait (get_neareast_time_gap s2.timeouts before +ℤ pos 10))
          s2
    s4 ← run_timeout_co fuel later s3
    some (size', s4)
