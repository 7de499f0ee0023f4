-- ===== src/Tests/Rounds.antt =====
-- A round of the event loop whose coroutines notify one another twice at most.
use co_socket.Prelude.{
  ℕ, zero, suc, ◌+◌, ◌<◌, ◌≡◌, refl, false, Option, none, some, [], ◌∷◌, ◌++◌, arith, length-append,
}
use co_socket.Prelude.Int.{ℤ, pos}
use co_socket.Timestamp.{Timestamp}
use co_socket.TimeoutSet.{empty, get_expired, insert, delete}
use co_socket.TimeoutSet.Laws.{
  IsConsistent, empty-IsConsistent, insert-IsConsistent, delete-IsConsistent,
}
use co_socket.TimeoutSet.Deadlines.{expired_count, expired_count-delete}
use co_socket.Epoller.{Polled, ready}
use co_socket.CoSocket.State.{CoSocket, new_co_socket}
use co_socket.CoSocket.Loop.{run_round}
use co_socket.CoSocket.Loop.Budget.{IsIdle, Advances, Advances-refl}
use co_socket.CoSocket.Loop.Round.{run_round_ends}

abbrev early : Timestamp
early = record { tv_sec = pos 1; tv_usec = pos 0 }

abbrev now : Timestamp
now = record { tv_sec = pos 3; tv_usec = pos 0 }

-- A resumed coroutine gives up its deadline, and has another resumed while the budget lasts.
abbrev spend : ℕ → ℕ → CoSocket ℕ → CoSocket ℕ
spend zero co s = record s { timeouts = delete co s.timeouts }
spend (suc n) co s = record s {
  timeouts = delete co s.timeouts;
  epoller = n;
  wait_resume_list = s.wait_resume_list ++ (co + 1) ∷ [];
}

abbrev work : ℕ → CoSocket ℕ → CoSocket ℕ
work co s = spend s.epoller co s

abbrev make : ℕ → CoSocket ℕ → Option ℕ × CoSocket ℕ
make func s = (some func, s)

abbrev left : ℕ → ℕ
left n = n

spend-Advances :
    (n co : ℕ) (s : CoSocket ℕ) → s.epoller ≡ n → IsIdle s → Advances left s (spend n co s)
spend-Advances zero co s e h = record {
  idle = record {
    stopped = h.stopped;
    consistent = delete-IsConsistent co s.timeouts h.consistent;
  };
  paid = omega arith;
}
spend-Advances (suc n) co s e h = record {
  idle = record {
    stopped = h.stopped;
    consistent = delete-IsConsistent co s.timeouts h.consistent;
  };
  paid = omega (arith, e, length-append s.wait_resume_list ((co + 1) ∷ []));
}

spend_timeouts : (n co : ℕ) (s : CoSocket ℕ) → (spend n co s).timeouts ≡ delete co s.timeouts
spend_timeouts zero co s = refl
spend_timeouts (suc n) co s = refl

work_expiring :
    (co : ℕ) (t : CoSocket ℕ)
    → IsConsistent t.timeouts
    → get_expired t.timeouts now ≡ some co
    → IsConsistent (work co t).timeouts
      × (expired_count now (work co t).timeouts.timeout_set
          < expired_count now t.timeouts.timeout_set)
work_expiring co t c e =
    rw (spend_timeouts t.epoller co t)
      (delete-IsConsistent co t.timeouts c, expired_count-delete now co t.timeouts c e)

-- Coroutine 2 is overdue, 4 is to be resumed, and a function is to be started.
abbrev busy : CoSocket ℕ
busy = record (new_co_socket 2) {
  timeouts = insert 2 (pos 10) early empty;
  wait_resume_list = 4 ∷ [];
  co_func_list = 7 ∷ [];
}

busy-IsIdle : IsIdle busy
busy-IsIdle = record {
  stopped = refl;
  consistent = insert-IsConsistent 2 (pos 10) early empty refl empty-IsConsistent;
}

-- `epoll_wait` answers with an event of a descriptor that nobody waits for.
abbrev polled : ℤ → Polled
polled gap = ready ((5, 1) ∷ [])

run_round_ends_example :
    (fuel : ℕ) × (size : ℕ) × (t : CoSocket ℕ) × (run_round work make fuel early now polled
        (16, busy)
      ≡ some (size, t))
    × (get_expired t.timeouts now ≡ none)
    × (t.handling_timeout ≡ false)
    × Advances left busy t
run_round_ends_example =
    run_round_ends left work (λ co t h. spend-Advances t.epoller co t refl h) make
      (λ func t h. Advances-refl left t h) early now polled 16 busy (λ gap e. cc) work_expiring
      busy-IsIdle
