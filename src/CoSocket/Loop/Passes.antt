-- ===== src/CoSocket/Loop/Passes.antt =====
-- The passes of the event loop: when they end, and what they leave.
use co_socket.Prelude.{
  ℕ, zero, suc, ◌+◌, ◌<◌, ◌≡◌, ◌∙◌, refl, sym, ap, inl, inr, true, false, none, some, List, [], ◌∷◌,
  ◌++◌, arith, length, length-append, get_elem?, get_elem?-end, get_elem?-middle, get_elem?-lt,
  append_assoc, subst, Option-cases,
}
use co_socket.Timestamp.{Timestamp}
use co_socket.TimeoutSet.{get_expired}
use co_socket.TimeoutSet.Laws.{IsConsistent}
use co_socket.TimeoutSet.Deadlines.{expired_count}
use co_socket.CoSocket.State.{CoSocket}
use co_socket.CoSocket.Loop.{run_wait_resume_co, run_expired, run_timeout_co}

-- The coroutines of the list in turn.
abbrev pub resume_all : {S : Type 0} → (ℕ → S → S) → List ℕ → S → S
resume_all resume [] s = s
resume_all resume (co ∷ cos) s = resume_all resume cos (resume co s)

module _ {K : Type 0} (resume : ℕ → CoSocket K → CoSocket K) where
  run_expired_ends :
      (fuel : ℕ) (now : Timestamp) (s : CoSocket K)
      → ((co : ℕ) (t : CoSocket K)
          → IsConsistent t.timeouts
          → get_expired t.timeouts now ≡ some co
          → IsConsistent (resume co t).timeouts
            × (expired_count now (resume co t).timeouts.timeout_set
                < expired_count now t.timeouts.timeout_set))
      → IsConsistent s.timeouts
      → expired_count now s.timeouts.timeout_set < fuel
      → (t : CoSocket K) × (run_expired resume fuel now s ≡ some t)
        × (get_expired t.timeouts now ≡ none)
        × (t.handling_timeout ≡ false)
  unfolding run_expired
  run_expired_ends zero now s served consistent enough = absurd (omega arith)
  run_expired_ends (suc fuel) now s served consistent enough =
      elim (Option-cases (get_expired s.timeouts now)) [
        | inl e ↦ (record s { handling_timeout = false }, rw (e, run_expired), e, refl)
        | inr (co, e) ↦
            let (still, less) = served co s consistent e in
            let (t, ends, none_left, off) =
              run_expired_ends fuel now (resume co s) served still (omega arith) in
            (t, rw (e, run_expired) ends, none_left, off)
      ]

  -- `RunTimeoutCo` ends, and afterwards no deadline that was reached is left and timeouts are not
  -- being handled any more, if a coroutine that is resumed by its deadline keeps the deadlines consistent,
  -- takes its own out and sets none that has been reached. It runs at most one round for each deadline reached.
  pub run_timeout_co_ends :
      (fuel : ℕ) (now : Timestamp) (s : CoSocket K)
      → ((co : ℕ) (t : CoSocket K)
          → IsConsistent t.timeouts
          → get_expired t.timeouts now ≡ some co
          → IsConsistent (resume co t).timeouts
            × (expired_count now (resume co t).timeouts.timeout_set
                < expired_count now t.timeouts.timeout_set))
      → IsConsistent s.timeouts
      → expired_count now s.timeouts.timeout_set < fuel
      → (t : CoSocket K) × (run_timeout_co resume fuel now s ≡ some t)
        × (get_expired t.timeouts now ≡ none)
        × (t.handling_timeout ≡ false)
  unfolding run_timeout_co
  run_timeout_co_ends fuel now s served consistent enough =
      run_expired_ends fuel now (record s { handling_timeout = true }) served consistent enough

  run_wait_resume_co_from :
      (fuel : ℕ) (served left : List ℕ) (s : CoSocket K)
      → ((co : ℕ) (t : CoSocket K) → (resume co t).wait_resume_list ≡ t.wait_resume_list)
      → s.wait_resume_list ≡ served ++ left
      → length left < fuel
      → run_wait_resume_co resume fuel (length served) s
        ≡ some (record (resume_all resume left s) { wait_resume_list = [] })
  unfolding run_wait_resume_co
  run_wait_resume_co_from zero served left s quiet e enough = absurd (omega arith)
  run_wait_resume_co_from (suc fuel) served [] s quiet e enough =
      rw (ap (λ xs. get_elem? xs (length served)) e ∙ get_elem?-end served, run_wait_resume_co)
  run_wait_resume_co_from (suc fuel) served (co ∷ left) s quiet e enough =
      rw
        (
          ap (λ xs. get_elem? xs (length served)) e ∙ get_elem?-middle served co left,
          run_wait_resume_co,
        )
        (subst
          (λ i.
            run_wait_resume_co resume fuel i (resume co s)
            ≡ some (record (resume_all resume left (resume co s)) { wait_resume_list = [] }))
          (length-append served (co ∷ []) ∙ omega arith)
          (run_wait_resume_co_from fuel (served ++ co ∷ []) left (resume co s) quiet
            (quiet co s ∙ e ∙ sym (append_assoc served (co ∷ []) left)) (omega arith)))

  -- `RunWaitResumeCo` resumes the coroutines that were notified, each once and in the order of their
  -- notifications, and leaves an empty list, if none of them notifies another meanwhile.
  pub run_wait_resume_co_all :
      (fuel : ℕ) (s : CoSocket K)
      → ((co : ℕ) (t : CoSocket K) → (resume co t).wait_resume_list ≡ t.wait_resume_list)
      → length s.wait_resume_list < fuel
      → run_wait_resume_co resume fuel 0 s
        ≡ some (record (resume_all resume s.wait_resume_list s) { wait_resume_list = [] })
  run_wait_resume_co_all fuel s quiet enough =
      run_wait_resume_co_from fuel [] s.wait_resume_list s quiet refl enough

  -- The pass also resumes what is notified during it. Where each resumed coroutine notifies another,
  -- as two coroutines that hand a condition back and forth do, it does not end, and the event loop
  -- polls no descriptor any more.
  pub run_wait_resume_co_starves :
      (fuel i : ℕ) (s : CoSocket K)
      → ((co : ℕ) (t : CoSocket K)
          → length (resume co t).wait_resume_list ≡ length t.wait_resume_list + 1)
      → i < length s.wait_resume_list
      → run_wait_resume_co resume fuel i s ≡ none
  unfolding run_wait_resume_co
  run_wait_resume_co_starves zero i s notifies here = refl
  run_wait_resume_co_starves (suc fuel) i s notifies here =
      let (co, e) = get_elem?-lt s.wait_resume_list i here in
      rw (e, run_wait_resume_co)
        (run_wait_resume_co_starves fuel (i + 1) (resume co s) notifies
          (omega (arith, notifies co s)))
