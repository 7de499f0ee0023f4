-- ===== src/Tests/Deadlines.antt =====
-- Times and deadlines at concrete inputs.
use co_socket.Prelude.{ℕ, ◌≡◌, refl, false, not, ◌&&◌, ◌||◌, none, some, List, [], ◌∷◌, arith}
use co_socket.Prelude.Int.{pos, negsuc, ◌≤ℤ◌, ◌+ℤ◌, ◌*ℤ◌}
use co_socket.Timestamp.{Timestamp, before, same, after, minus, add_millisecond}
use co_socket.Timestamp.Order.{before_total, minus-add_millisecond, micros, add_millisecond_carry}
use co_socket.TimeoutSet.{
  TimeoutSet, empty, deadline, insert, set_insert, timeout_lt, delete, get_expired,
  get_neareast_time_gap,
}
use co_socket.TimeoutSet.Laws.{IsConsistent, empty-IsConsistent, insert-IsConsistent, delete-insert}
use co_socket.TimeoutSet.Refinement.{Call, start, stop, view, performed_all}
use co_socket.TimeoutSet.Times.{moment_of, due_all, Answers, performed_all-due_all}
use co_socket.TimeoutSet.Deadlines.{ExpiredAnswer, get_expired_lem, get_neareast_time_gap_inverted}

abbrev time : ℕ → ℕ → Timestamp
time sec usec = record { tv_sec = pos sec; tv_usec = pos usec }

before_total_example :
    (after (time 1 5) (time 2 3) ≡ before (time 2 3) (time 1 5))
    × (before (time 1 5) (time 2 3)
        ≡ not (same (time 1 5) (time 2 3) || after (time 1 5) (time 2 3)))
    × ((before (time 1 5) (time 2 3) && after (time 1 5) (time 2 3)) ≡ false)
    × ((before (time 1 5) (time 2 3) && same (time 1 5) (time 2 3)) ≡ false)
before_total_example = before_total (time 1 5) (time 2 3)

minus-add_millisecond_example :
    minus (add_millisecond (time 7 900) (negsuc 1499)) (time 7 900) ≡ negsuc 1499
minus-add_millisecond_example = minus-add_millisecond (time 7 900) (negsuc 1499)

-- A deadline of 500 ms, set at 1.9 s, against the time 2.1 s.
add_millisecond_carry_example :
    (after (add_millisecond (time 1 900000) (pos 500)) (time 2 100000) ≡ false)
    × (micros (time 2 100000) +ℤ pos 1 ≤ℤ micros (add_millisecond (time 1 900000) (pos 500)))
add_millisecond_carry_example =
    add_millisecond_carry 1 900000 500 100000 (ground arith) (ground arith)

-- The coroutines 1 and 2 wait for 30 and for 20 milliseconds.
abbrev one : TimeoutSet
one = insert 1 (pos 30) (time 1 0) empty

abbrev two : TimeoutSet
two = insert 2 (pos 20) (time 1 0) one

one-IsConsistent : IsConsistent one
one-IsConsistent = insert-IsConsistent 1 (pos 30) (time 1 0) empty refl empty-IsConsistent

two_free : one.timeout_ptr_map 2 ≡ none
unfolding insert set_insert
two_free = refl

two-IsConsistent : IsConsistent two
two-IsConsistent = insert-IsConsistent 2 (pos 20) (time 1 0) one two_free one-IsConsistent

-- Coroutine 1 waits, 2 waits, 1 goes on and waits again.
abbrev calls : List Call
calls =
    start 1 (pos 30) (time 1 0)
    ∷ start 2 (pos 20) (time 1 0)
    ∷ stop 1
    ∷ start 1 (pos 5) (time 1 9)
    ∷ []

performed_all-due_all_example :
    ((j : ℕ) → moment_of (view (performed_all calls empty) j) ≡ due_all calls (λ co. none) j)
    × Answers
        (due_all calls (λ co. none))
        (micros (time 1 25000))
        (get_expired (performed_all calls empty) (time 1 25000))
performed_all-due_all_example =
    performed_all-due_all calls (time 1 25000)
      (
        refl,
        (1, 0, 30, refl, refl, omega arith),
        (refl, (1, 0, 20, refl, refl, omega arith), (refl, (1, 9, 5, refl, refl, omega arith), tt)),
      )
      (1, 25000, refl, omega arith)

delete-insert_example : delete 2 two ≡ one
delete-insert_example = delete-insert 2 (pos 20) (time 1 0) one two_free one-IsConsistent

get_expired-two : get_expired two (time 1 25000) ≡ some 2
unfolding get_expired insert set_insert timeout_lt before add_millisecond ◌+ℤ◌ ◌*ℤ◌ after
get_expired-two = refl

get_expired_lem_example : ExpiredAnswer two (time 1 25000) (get_expired two (time 1 25000))
get_expired_lem_example = get_expired_lem two (time 1 25000) two-IsConsistent

one_alone : one.timeout_set ≡ deadline 1 (pos 30) (time 1 0) ∷ []
unfolding insert set_insert
one_alone = refl

early : micros (time 1 0) ≤ℤ micros (deadline 1 (pos 30) (time 1 0)).timestamp
unfolding add_millisecond ◌+ℤ◌ ◌*ℤ◌
early = ground arith

get_neareast_time_gap_inverted_example :
    (get_neareast_time_gap one (time 1 0) ≡ pos 0)
    × (get_neareast_time_gap one (add_millisecond (add_millisecond (time 1 0) (pos 30)) (pos 8))
        ≡ pos 8)
get_neareast_time_gap_inverted_example =
    get_neareast_time_gap_inverted one (deadline 1 (pos 30) (time 1 0)) [] (time 1 0) 8 one_alone
      early
