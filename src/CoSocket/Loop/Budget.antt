-- ===== src/CoSocket/Loop/Budget.antt =====
-- Coroutines that hand control back, and make and notify no more others than a budget allows: what
-- they do in the parts of a round of the event loop.
use co_socket.Prelude.{
  ℕ, ◌+◌, ◌≤◌, ◌≡◌, refl, sym, subst, inl, inr, Bool, true, false, not, ◌&&◌, ◌||◌, Option, none,
  some, List, [], ◌∷◌, arith, length, Bool-cases, if◌then◌else◌,
}
use co_socket.TimeoutSet.Laws.{IsConsistent}
use co_socket.Epoller.{Polled, interrupted, failed, ready, handle_all, poll}
use co_socket.CoSocket.State.{CoSocket, has_read_coroutine, has_write_coroutine}
use co_socket.CoSocket.Events.{
  event_handler, resume_set, has_flag, epollin, epollout, epollerr, epollhup,
}
use co_socket.CoSocket.Loop.{resume_created, new_coroutine}

-- No coroutine runs, and the deadlines are in order.
pub record IsIdle {K : Type 0} (s : CoSocket K) : Type 0 where
  pub stopped : s.running ≡ none
  pub consistent : IsConsistent s.timeouts

-- `budget` says of what is outside the scheduler how many coroutines and notifications are to come.
module _ {K : Type 0} (budget : K → ℕ) where
  abbrev pub total : CoSocket K → ℕ
  total s = length s.co_func_list + length s.wait_resume_list + budget s.epoller

  -- A part of the program's run that ends idle, and pays for what it makes and notifies.
  pub record Advances (s t : CoSocket K) : Type 0 where
    pub idle : IsIdle t
    pub paid : total t ≤ total s

  pub Advances-refl : (s : CoSocket K) → IsIdle s → Advances s s
  Advances-refl s h = record { idle = h; paid = omega arith }

  pub Advances-trans : (s t u : CoSocket K) → Advances s t → Advances t u → Advances s u
  Advances-trans s t u h k = record { idle = k.idle; paid = omega (arith, h.paid, k.paid) }

  module _ (resume : ℕ → CoSocket K → CoSocket K)
      (resumes : (co : ℕ) (t : CoSocket K) → IsIdle t → Advances t (resume co t)) where
    pub if-Advances :
        (b : Bool) (co : Option ℕ) (s : CoSocket K)
        → IsIdle s
        → Advances s (if b then resume_set resume co s else s)
    if-Advances false co s h = Advances-refl s h
    if-Advances true none s h = Advances-refl s h
    if-Advances true (some co) s h = resumes co s h

    event_handler-Advances :
        (fd events : ℕ) (s : CoSocket K) → IsIdle s → Advances s (event_handler resume fd events s)
    unfolding event_handler
    event_handler-Advances fd events s h =
        let w = s.co_id_map fd in
        let error = has_flag events epollerr || has_flag events epollhup in
        elim (Bool-cases (not (has_read_coroutine w) && not (has_write_coroutine w))) [
          | inl nobody ↦ rw nobody (Advances-refl s h)
          | inr somebody ↦
              let reader = if-Advances (error || has_flag events epollin) w.read_co_id s h in
              rw somebody (
                Advances-trans s _ _ reader
                  (if-Advances (error || has_flag events epollout) _ _ reader.idle))
        ]

    handle_all-Advances :
        (events : List (ℕ × ℕ)) (s : CoSocket K)
        → IsIdle s
        → Advances s (handle_all (event_handler resume) events s)
    handle_all-Advances [] s h = Advances-refl s h
    handle_all-Advances ((fd, events) ∷ rest) s h =
        let one = event_handler-Advances fd events s h in
        Advances-trans s _ _ one (handle_all-Advances rest _ one.idle)

    -- `Poll`, where `epoll_wait` does not fail.
    pub poll-Advances :
        (size : ℕ) (answer : Polled) (s : CoSocket K)
        → (answer ≡ failed → ⊥)
        → IsIdle s
        → (size' : ℕ) × (t : CoSocket K) × (poll (event_handler resume) size answer s
            ≡ some (size', t))
          × Advances s t
    unfolding poll
    poll-Advances size interrupted s h idle = (size, s, refl, Advances-refl s idle)
    poll-Advances size failed s h idle = absurd (h refl)
    poll-Advances size (ready events) s h idle = (_, _, refl, handle_all-Advances events s idle)

    module _ (create : ℕ → CoSocket K → Option ℕ × CoSocket K)
        (creates : (func : ℕ) (t : CoSocket K) → IsIdle t → Advances t (create func t).1) where
      created-Advances :
          (s : CoSocket K) (made : Option ℕ × CoSocket K)
          → Advances s made.1
          → Advances s (resume_created resume made)
      unfolding resume_created
      created-Advances s (none, t) h = h
      created-Advances s (some co, t) h = Advances-trans s t _ h (resumes co t h.idle)

      new_coroutine_now :
          (func : ℕ) (s : CoSocket K)
          → s.running ≡ none
          → new_coroutine resume create func s ≡ resume_created resume (create func s)
      unfolding new_coroutine
      new_coroutine_now func s stopped = simp (stopped, new_coroutine)

      pub new_coroutine-Advances :
          (func : ℕ) (s : CoSocket K) → IsIdle s → Advances s (new_coroutine resume create func s)
      new_coroutine-Advances func s h =
          subst (Advances s) (sym (new_coroutine_now func s h.stopped))
            (created-Advances s (create func s) (creates func s h))
