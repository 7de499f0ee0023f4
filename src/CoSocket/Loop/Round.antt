-- ===== src/CoSocket/Loop/Round.antt =====
-- A whole round of `Run`.
use co_socket.Prelude.{ℕ, suc, ◌+◌, ◌<◌, ◌≤◌, ◌≡◌, ◌≢◌, true, false, Option, none, some, arith}
use co_socket.Prelude.Int.{ℤ, pos, ◌+ℤ◌}
use co_socket.Timestamp.{Timestamp}
use co_socket.TimeoutSet.{get_expired, get_neareast_time_gap}
use co_socket.TimeoutSet.Laws.{IsConsistent}
use co_socket.TimeoutSet.Deadlines.{expired_count}
use co_socket.Epoller.{Polled, failed, poll}
use co_socket.CoSocket.State.{CoSocket}
use co_socket.CoSocket.Events.{event_handler}
use co_socket.CoSocket.Loop.{run_new_co_func, run_wait_resume_co, run_timeout_co, run_round}
use co_socket.CoSocket.Loop.Passes.{run_timeout_co_ends}
use co_socket.CoSocket.Loop.Budget.{IsIdle, total, Advances, Advances-trans, poll-Advances}
use co_socket.CoSocket.Loop.Ends.{
  run_new_co_func_ends, run_new_co_func_more, run_wait_resume_co_ends, run_wait_resume_co_more,
  run_expired-Advances, run_expired_more,
}

module _ {K : Type 0} (budget : K → ℕ) (resume : ℕ → CoSocket K → CoSocket K)
    (resumes : (co : ℕ) (t : CoSocket K) → IsIdle t → Advances budget t (resume co t)) where
  abbrev handling : CoSocket K → CoSocket K
  handling s = record s { handling_timeout = true }

  -- `RunTimeoutCo`, where it ends, and with more fuel.
  timeout_pass :
      (fuel : ℕ) (later : Timestamp) (s t : CoSocket K)
      → IsIdle s
      → run_timeout_co resume fuel later s ≡ some t
      → Advances budget s t
  unfolding run_timeout_co
  timeout_pass fuel later s t h e =
      let passed =
        run_expired-Advances budget resume resumes fuel later (handling s) t
          (record { stopped = h.stopped; consistent = h.consistent }) e in
      record { idle = passed.idle; paid = passed.paid }

  timeout_more :
      (fuel more : ℕ) (later : Timestamp) (s t : CoSocket K)
      → fuel ≤ more
      → run_timeout_co resume fuel later s ≡ some t
      → run_timeout_co resume more later s ≡ some t
  unfolding run_timeout_co
  timeout_more fuel more later s t le e =
      run_expired_more budget resume resumes fuel more later (handling s) t le e

  module _ (create : ℕ → CoSocket K → Option ℕ × CoSocket K)
      (creates : (func : ℕ) (t : CoSocket K) → IsIdle t → Advances budget t (create func t).1) where
    -- The passes of a round one after the other.
    run_round_of :
        (fuel : ℕ) (before later : Timestamp) (wait : ℤ → Polled) (size size' : ℕ)
        (s s1 s2 s3 s4 : CoSocket K)
        → run_new_co_func resume fuel 0 create s ≡ some s1
        → run_wait_resume_co resume fuel 0 s1 ≡ some s2
        → poll
            (event_handler resume)
            size
            (wait (get_neareast_time_gap s2.timeouts before +ℤ pos 10))
            s2
          ≡ some (size', s3)
        → run_timeout_co resume fuel later s3 ≡ some s4
        → run_round resume create fuel before later wait (size, s) ≡ some (size', s4)
    unfolding run_round
    run_round_of fuel before later wait size size' s s1 s2 s3 s4 first second third fourth =
        simp (first, second, third, fourth)

    -- A round of `Run` ends, with enough fuel for its passes, if the coroutines that are made and
    -- resumed hand control back, keep the deadlines consistent, and make and notify no more others
    -- than a budget allows, if a coroutine that is resumed by its deadline takes it out and sets none
    -- that has been reached, and if `epoll_wait` does not fail. Afterwards no deadline that was reached
    -- is left, timeouts are not being handled any more, and no coroutine runs; the budget with what is
    -- still to be made and resumed has not grown, so that the next round ends likewise.
    pub run_round_ends :
        (before later : Timestamp) (wait : ℤ → Polled) (size : ℕ) (s : CoSocket K)
        → ((gap : ℤ) → wait gap ≢ failed)
        → ((co : ℕ) (t : CoSocket K)
            → IsConsistent t.timeouts
            → get_expired t.timeouts later ≡ some co
            → IsConsistent (resume co t).timeouts
              × (expired_count later (resume co t).timeouts.timeout_set
                  < expired_count later t.timeouts.timeout_set))
        → IsIdle s
        → (fuel : ℕ) × (size' : ℕ) × (t : CoSocket K) × (run_round resume create fuel before later
              wait
              (size, s)
            ≡ some (size', t))
          × (get_expired t.timeouts later ≡ none)
          × (t.handling_timeout ≡ false)
          × Advances budget s t
    run_round_ends before later wait size s answers expiring h =
        let bound = total budget s in
        let (s1, first, a1) =
          run_new_co_func_ends budget resume resumes create creates bound (suc bound) 0 s h
            (omega arith) (omega arith) (omega arith) in
        let (s2, second, a2) =
          run_wait_resume_co_ends budget resume resumes bound (suc bound) 0 s1 a1.idle a1.paid
            (omega arith) (omega arith) in
        let gap = get_neareast_time_gap s2.timeouts before +ℤ pos 10 in
        let (size', s3, third, a3) =
          poll-Advances budget resume resumes size (wait gap) s2 (answers gap) a2.idle in
        let due = expired_count later s3.timeouts.timeout_set in
        let (t, fourth, none_left, off) =
          run_timeout_co_ends resume (suc due) later s3 expiring a3.idle.consistent (omega arith) in
        let a4 = timeout_pass (suc due) later s3 t a3.idle fourth in
        let fuel = suc (bound + due) in
        (
          fuel,
          size',
          t,
          run_round_of fuel before later wait size size' s s1 s2 s3 t
              (run_new_co_func_more budget resume resumes create creates (suc bound) fuel 0 s s1
                (omega arith) first)
              (run_wait_resume_co_more budget resume resumes (suc bound) fuel 0 s1 s2 (omega arith)
                second)
              third (timeout_more (suc due) fuel later s3 t (omega arith) fourth),
          none_left,
          off,
          Advances-trans budget s s1 t a1
              (Advances-trans budget s1 s2 t a2 (Advances-trans budget s2 s3 t a3 a4)),
        )
