-- ===== src/Tests/Scheduler.antt =====
-- The scheduler at concrete inputs.
use co_socket.Prelude.{
  ℕ, ◌+◌, ◌^◌, ◌<◌, ◌≡◌, inl, refl, true, false, none, some, [], ◌∷◌, ◌++◌, arith, length-append,
}
use co_socket.Prelude.Int.{ℤ, pos, negsuc, ◌+ℤ◌, ◌*ℤ◌}
use co_socket.Timestamp.{Timestamp, add_millisecond, after}
use co_socket.TimeoutSet.{empty, get_expired, insert, set_insert, delete}
use co_socket.TimeoutSet.Laws.{
  IsConsistent, empty-IsConsistent, insert-IsConsistent, delete-IsConsistent,
}
use co_socket.TimeoutSet.Deadlines.{expired_count, expired_count-delete}
use co_socket.CoSocket.State.{CoSocket, new_co_socket}
use co_socket.CoSocket.Events.{inward, flag, yielded, event_handler, add_event_and_yield}
use co_socket.CoSocket.Events.Sync.{IsSynced, slot}
use co_socket.CoSocket.Events.Handler.{then_writer, event_handler-add_event_and_yield}
use co_socket.CoSocket.Blocking.{negative, etime, returned, waiting, begin, finish}
use co_socket.CoSocket.Blocking.Restore.{at_yield, at_resume, Restored, begin-Restored}
use co_socket.CoSocket.Blocking.Faults.{begin_duplicate}
use co_socket.CoSocket.Transfer.{read_full, write_all}
use co_socket.CoSocket.Transfer.Total.{ReadResult, WriteResult, read_full_lem, write_all_lem}
use co_socket.CoSocket.Conditions.{
  condition_key, condition_wait, condition_notify, CoQueue, enque, deque,
}
use co_socket.CoSocket.Conditions.Wakeups.{
  Holds, notify-wait, condition_collision, deque-enque, deque_fifo,
}
use co_socket.CoSocket.Loop.{run_timeout_co, run_wait_resume_co}
use co_socket.CoSocket.Loop.Passes.{
  resume_all, run_timeout_co_ends, run_wait_resume_co_all, run_wait_resume_co_starves,
}
use co_socket.Tests.Poller.{Table, table, closed}

-- Coroutine 1 runs, nobody waits.
abbrev idle : CoSocket Table
idle = record (new_co_socket closed) { running = some 1 }

abbrev now : Timestamp
now = record { tv_sec = pos 3; tv_usec = pos 0 }

idle-IsSynced : IsSynced table idle
idle-IsSynced j h = refl

begin-Restored_example :
    (begin table inward 5 (pos 20) now (pos 4) idle
      ≡ waiting (at_yield table inward 5 1 (pos 20) now idle))
    × Restored table inward 5 1 (pos 20) now idle (negative etime) (
        finish table inward 5
          (pos 20)
          (some 1)
          (pos 4)
          (at_resume table inward 5 1 (pos 20) now idle true))
begin-Restored_example =
    begin-Restored table inward 5 1 (pos 20) now idle refl refl tt refl empty-IsConsistent
      idle-IsSynced (pos 4) true

-- Coroutine 2 waits for input on the descriptor 5, coroutine 1 runs.
abbrev busy : CoSocket Table
busy = record idle { co_id_map = λ fd. record { read_co_id = some 2; write_co_id = some 3 } }

begin_duplicate_example :
    (t : CoSocket Table) × (begin table inward 5 (pos 0) now (negsuc 10) busy
      ≡ returned (negsuc 10) t)
    × (slot inward (t.co_id_map 5) ≡ none)
    × ((resume : ℕ → CoSocket Table → CoSocket Table) → event_handler resume 5 (flag inward) t ≡ t)
begin_duplicate_example =
    begin_duplicate table inward 5 1 2 (pos 0) now (negsuc 10) busy refl refl tt

-- A coroutine that does nothing.
abbrev pause : ℕ → CoSocket Table → CoSocket Table
pause co s = s

event_handler-add_event_and_yield_example :
    let (answer, t) = add_event_and_yield table 5 (flag inward) idle in
    (answer ≡ yielded)
    × (event_handler pause 5 1 t ≡ pause 1 t)
    × (event_handler pause 5 4 t ≡ t)
    × (event_handler pause 5 8 t ≡ then_writer pause 5 inward (pause 1 t))
    × (event_handler pause 5 16 t ≡ then_writer pause 5 inward (pause 1 t))
event_handler-add_event_and_yield_example =
    event_handler-add_event_and_yield table pause 5 1 idle refl tt inward refl refl

read_full_lem_example :
    (ret : ℤ) × (read_full 11 0 10 0 (λ r asked. pos 0) ≡ some ret)
    × ReadResult 10 (λ r asked. pos 0) ret
read_full_lem_example = read_full_lem 10 (λ r asked. pos 0) (λ r asked. ground arith)

write_all_lem_example :
    (ret : ℤ) × (write_all 11 0 10 0 (λ r asked. pos 1) ≡ some ret)
    × WriteResult 10 (λ r asked. pos 1) ret
write_all_lem_example = write_all_lem 10 (λ r asked. pos 1) (λ r asked h. ground arith)

notify-wait_example :
    Holds 1 (condition_notify 7 (condition_wait 7 idle)).wait_resume_list
    × ((condition_notify 7 (condition_wait 7 idle)).condition_map (condition_key 7) ≡ [])
notify-wait_example = notify-wait idle 1 7 1 refl (inl refl)

condition_collision_example :
    (condition_notify (7 + 2 ^ 32) idle ≡ condition_notify 7 idle)
    × (condition_wait (7 + 2 ^ 32) idle ≡ condition_wait 7 idle)
condition_collision_example = condition_collision idle 1 7

abbrev no_items : CoQueue ℕ
no_items = record { condition = 7; queue = [] }

abbrev some_items : CoQueue ℕ
some_items = record { condition = 7; queue = 4 ∷ 5 ∷ [] }

deque-enque_example :
    let (got, q, s) = deque no_items idle in
    let (q', s') = enque 6 q s in
    (got ≡ none)
    × Holds 1 s'.wait_resume_list
    × ((deque q' idle).0 ≡ some 6)
    × ((deque q' idle).1 ≡ no_items)
deque-enque_example = deque-enque no_items idle idle 1 6 refl refl

deque_fifo_example :
    ((deque (enque 6 some_items idle).0 idle).0 ≡ some 4)
    × ((deque (enque 6 some_items idle).0 idle).1.queue ≡ (5 ∷ []) ++ 6 ∷ [])
    × ((deque (enque 6 some_items idle).0 idle).2 ≡ idle)
deque_fifo_example = deque_fifo some_items idle idle 6 4 (5 ∷ []) refl

abbrev notified : CoSocket Table
notified = record idle { wait_resume_list = 2 ∷ 3 ∷ [] }

run_wait_resume_co_all_example :
    run_wait_resume_co pause 3 0 notified
    ≡ some (record (resume_all pause (2 ∷ 3 ∷ []) notified) { wait_resume_list = [] })
run_wait_resume_co_all_example =
    run_wait_resume_co_all pause 3 notified (λ co t. refl) (ground arith)

-- A coroutine that has another resumed.
abbrev hand_over : ℕ → CoSocket Table → CoSocket Table
hand_over co s = record s { wait_resume_list = s.wait_resume_list ++ (co + 1) ∷ [] }

run_wait_resume_co_starves_example : run_wait_resume_co hand_over 100 0 notified ≡ none
run_wait_resume_co_starves_example =
    run_wait_resume_co_starves hand_over 100 0 notified
      (λ co t. length-append t.wait_resume_list ((co + 1) ∷ [])) (ground arith)

-- A coroutine whose call takes its deadline out.
abbrev give_up : ℕ → CoSocket Table → CoSocket Table
give_up co s = record s { timeouts = delete co s.timeouts }

-- Coroutine 2 waits for 10 milliseconds from the time 1.
abbrev overdue : CoSocket Table
overdue = record idle {
  timeouts = insert 2 (pos 10) (record { tv_sec = pos 1; tv_usec = pos 0 }) empty;
}

overdue-IsConsistent : IsConsistent overdue.timeouts
overdue-IsConsistent =
    insert-IsConsistent 2 (pos 10) (record { tv_sec = pos 1; tv_usec = pos 0 }) empty refl
      empty-IsConsistent

overdue_count : expired_count now overdue.timeouts.timeout_set < 5
unfolding insert set_insert add_millisecond after ◌+ℤ◌ ◌*ℤ◌
overdue_count = ground arith

run_timeout_co_ends_example :
    (t : CoSocket Table) × (run_timeout_co give_up 5 now overdue ≡ some t)
    × (get_expired t.timeouts now ≡ none)
    × (t.handling_timeout ≡ false)
run_timeout_co_ends_example =
    run_timeout_co_ends give_up 5 now overdue
      (λ co t c e.
        (delete-IsConsistent co t.timeouts c, expired_count-delete now co t.timeouts c e))
      overdue-IsConsistent overdue_count
