-- ===== src/CoSocket/Loop/Ends.antt =====
-- The passes of the event loop under a budget: each ends, and more fuel changes nothing.
use co_socket.Prelude.{
  ℕ, suc, zero, ◌+◌, ◌≤◌, ◌<◌, ◌≡◌, ◌∙◌, sym, subst, inl, inr, false, Option, none, some, [], arith,
  get_elem?, get_elem?-within, Option-cases,
}
use co_socket.Timestamp.{Timestamp}
use co_socket.TimeoutSet.{get_expired}
use co_socket.CoSocket.State.{CoSocket}
use co_socket.CoSocket.Loop.{new_coroutine, run_new_co_func, run_wait_resume_co, run_expired}
use co_socket.CoSocket.Loop.Budget.{IsIdle, total, Advances, Advances-trans, new_coroutine-Advances}

module _ {K : Type 0} (budget : K → ℕ) (resume : ℕ → CoSocket K → CoSocket K)
    (resumes : (co : ℕ) (t : CoSocket K) → IsIdle t → Advances budget t (resume co t)) where
  wait_over :
      (fuel i : ℕ) (s : CoSocket K)
      → get_elem? s.wait_resume_list i ≡ none
      → run_wait_resume_co resume (suc fuel) i s ≡ some (record s { wait_resume_list = [] })
  unfolding run_wait_resume_co
  wait_over fuel i s e = rw (e, run_wait_resume_co)

  wait_round :
      (fuel i co : ℕ) (s : CoSocket K)
      → get_elem? s.wait_resume_list i ≡ some co
      → run_wait_resume_co resume (suc fuel) i s
        ≡ run_wait_resume_co resume fuel (i + 1) (resume co s)
  unfolding run_wait_resume_co
  wait_round fuel i co s e = rw (e, run_wait_resume_co)

  -- `RunWaitResumeCo` ends within as many rounds as the budget and the lists allow.
  pub run_wait_resume_co_ends :
      (bound fuel i : ℕ) (s : CoSocket K)
      → IsIdle s
      → total budget s ≤ bound
      → i ≤ bound
      → bound < fuel + i
      → (t : CoSocket K) × (run_wait_resume_co resume fuel i s ≡ some t) × Advances budget s t
  run_wait_resume_co_ends bound zero i s h within at enough = absurd (omega arith)
  run_wait_resume_co_ends bound (suc fuel) i s h within at enough =
      elim (Option-cases (get_elem? s.wait_resume_list i)) [
        | inl over ↦ (
          record s { wait_resume_list = [] },
          wait_over fuel i s over,
          record {
            idle = record { stopped = h.stopped; consistent = h.consistent };
            paid = omega arith;
          },
        )
        | inr (co, e) ↦
            let one = resumes co s h in
            let here = get_elem?-within s.wait_resume_list i co e in
            let (t, ends, more) =
              run_wait_resume_co_ends bound fuel (i + 1) (resume co s) one.idle
                (omega (arith, one.paid)) (omega arith) (omega arith) in
            (t, wait_round fuel i co s e ∙ ends, Advances-trans budget s _ t one more)
      ]

  pub run_wait_resume_co_more :
      (fuel more i : ℕ) (s t : CoSocket K)
      → fuel ≤ more
      → run_wait_resume_co resume fuel i s ≡ some t
      → run_wait_resume_co resume more i s ≡ some t
  unfolding run_wait_resume_co
  run_wait_resume_co_more zero more i s t le e = cc
  run_wait_resume_co_more (suc fuel) zero i s t le e = absurd (omega arith)
  run_wait_resume_co_more (suc fuel) (suc more) i s t le e =
      elim (Option-cases (get_elem? s.wait_resume_list i)) [
        | inl over ↦ wait_over more i s over ∙ sym (wait_over fuel i s over) ∙ e
        | inr (co, at) ↦
            wait_round more i co s at
            ∙ run_wait_resume_co_more fuel more (i + 1) (resume co s) t (omega arith)
                (sym (wait_round fuel i co s at) ∙ e)
      ]

  expired_over :
      (fuel : ℕ) (now : Timestamp) (s : CoSocket K)
      → get_expired s.timeouts now ≡ none
      → run_expired resume (suc fuel) now s ≡ some (record s { handling_timeout = false })
  unfolding run_expired
  expired_over fuel now s over = rw (over, run_expired)

  expired_due :
      (fuel : ℕ) (now : Timestamp) (s : CoSocket K) (co : ℕ)
      → get_expired s.timeouts now ≡ some co
      → run_expired resume (suc fuel) now s ≡ run_expired resume fuel now (resume co s)
  unfolding run_expired
  expired_due fuel now s co due = rw (due, run_expired)

  some_inj : (s t : CoSocket K) → some s ≡ some t → s ≡ t
  some_inj s t e = cc

  -- The loop of `RunTimeoutCo`, where it ends.
  pub run_expired-Advances :
      (fuel : ℕ) (now : Timestamp) (s t : CoSocket K)
      → IsIdle s
      → run_expired resume fuel now s ≡ some t
      → Advances budget s t
  unfolding run_expired
  run_expired-Advances zero now s t h e = cc
  run_expired-Advances (suc fuel) now s t h e = elim (Option-cases (get_expired s.timeouts now)) [
    | inl over ↦
        subst (Advances budget s) (some_inj _ t (sym (expired_over fuel now s over) ∙ e)) (record {
          idle = record { stopped = h.stopped; consistent = h.consistent };
          paid = omega arith;
        })
    | inr (co, due) ↦
        let one = resumes co s h in
        Advances-trans budget s _ t one (
          run_expired-Advances fuel now (resume co s) t one.idle
            (sym (expired_due fuel now s co due) ∙ e))
  ]

  pub run_expired_more :
      (fuel more : ℕ) (now : Timestamp) (s t : CoSocket K)
      → fuel ≤ more
      → run_expired resume fuel now s ≡ some t
      → run_expired resume more now s ≡ some t
  unfolding run_expired
  run_expired_more zero more now s t le e = cc
  run_expired_more (suc fuel) zero now s t le e = absurd (omega arith)
  run_expired_more (suc fuel) (suc more) now s t le e =
      elim (Option-cases (get_expired s.timeouts now)) [
        | inl over ↦ expired_over more now s over ∙ sym (expired_over fuel now s over) ∙ e
        | inr (co, due) ↦
            expired_due more now s co due
            ∙ run_expired_more fuel more now (resume co s) t (omega arith)
                (sym (expired_due fuel now s co due) ∙ e)
      ]

  module _ (create : ℕ → CoSocket K → Option ℕ × CoSocket K)
      (creates : (func : ℕ) (t : CoSocket K) → IsIdle t → Advances budget t (create func t).1) where
    new_over :
        (fuel i : ℕ) (s : CoSocket K)
        → get_elem? s.co_func_list i ≡ none
        → run_new_co_func resume (suc fuel) i create s ≡ some (record s { co_func_list = [] })
    unfolding run_new_co_func
    new_over fuel i s e = rw (e, run_new_co_func)

    new_round :
        (fuel i func : ℕ) (s : CoSocket K)
        → get_elem? s.co_func_list i ≡ some func
        → run_new_co_func resume (suc fuel) i create s
          ≡ run_new_co_func resume fuel (i + 1) create (new_coroutine resume create func s)
    unfolding run_new_co_func
    new_round fuel i func s e = rw (e, run_new_co_func)

    -- `RunNewCoFunc` likewise.
    pub run_new_co_func_ends :
        (bound fuel i : ℕ) (s : CoSocket K)
        → IsIdle s
        → total budget s ≤ bound
        → i ≤ bound
        → bound < fuel + i
        → (t : CoSocket K) × (run_new_co_func resume fuel i create s ≡ some t) × Advances budget s t
    run_new_co_func_ends bound zero i s h within at enough = absurd (omega arith)
    run_new_co_func_ends bound (suc fuel) i s h within at enough =
        elim (Option-cases (get_elem? s.co_func_list i)) [
          | inl over ↦ (
            record s { co_func_list = [] },
            new_over fuel i s over,
            record {
              idle = record { stopped = h.stopped; consistent = h.consistent };
              paid = omega arith;
            },
          )
          | inr (func, e) ↦
              let one = new_coroutine-Advances budget resume resumes create creates func s h in
              let here = get_elem?-within s.co_func_list i func e in
              let (t, ends, more) =
                run_new_co_func_ends bound fuel (i + 1) _ one.idle (omega (arith, one.paid))
                  (omega arith) (omega arith) in
              (t, new_round fuel i func s e ∙ ends, Advances-trans budget s _ t one more)
        ]

    pub run_new_co_func_more :
        (fuel more i : ℕ) (s t : CoSocket K)
        → fuel ≤ more
        → run_new_co_func resume fuel i create s ≡ some t
        → run_new_co_func resume more i create s ≡ some t
    unfolding run_new_co_func
    run_new_co_func_more zero more i s t le e = cc
    run_new_co_func_more (suc fuel) zero i s t le e = absurd (omega arith)
    run_new_co_func_more (suc fuel) (suc more) i s t le e =
        elim (Option-cases (get_elem? s.co_func_list i)) [
          | inl over ↦ new_over more i s over ∙ sym (new_over fuel i s over) ∙ e
          | inr (func, at) ↦
              new_round more i func s at
              ∙ run_new_co_func_more fuel more (i + 1) _ t (omega arith)
                  (sym (new_round fuel i func s at) ∙ e)
        ]
