-- ===== src/CoSocket/Blocking/Steps/Begins.antt =====
-- The start of a call.
use native.Mathlib.Decide.{ℕ_discrete}
use co_socket.Prelude.{
  ℕ, ◌≡◌, ◌≢◌, ◌⊎◌, refl, sym, ap, subst, ◌∙◌, true, false, none, some, Option-cases, inl, inr,
}
use co_socket.Prelude.Int.{ℤ, pos, ltb_ℤ}
use co_socket.Timestamp.{Timestamp}
use co_socket.TimeoutSet.Laws.{IsConsistent}
use co_socket.Epoller.{EpollKernel}
use co_socket.CoSocket.State.{CoSocket, assign}
use co_socket.CoSocket.Events.Sync.{
  slot, watched, IsSynced, add_event_free, add_event_taken, watched-IsSynced,
}
use co_socket.CoSocket.Blocking.{returned, waiting, guard_open, finish, go_on, begin_for, begin}
use co_socket.CoSocket.Blocking.Restore.{guard_open_kept, finish-returned}
use co_socket.CoSocket.Blocking.Guards.{
  guard_open-IsConsistent, guard_open-others, guard_open-untimed, guard_open-timed,
}
use co_socket.CoSocket.Blocking.Steps.{Wait, System}
use co_socket.CoSocket.Blocking.Steps.Watchers.{
  assign_own, assign_others, none_not_some, some_inj, Awaited, set_slot, clear-Awaited,
  enter-Awaited,
}
use co_socket.CoSocket.Blocking.Steps.Ends.{
  HasNone, Timed, waiting-same, returned_not_waiting, IsSound, end-IsSound,
}

module _ {K : Type 0} (kernel : EpollKernel K) where
  module _ (w : Wait) (co : ℕ) (now : Timestamp) (r : System K)
      (running : r.scheduler.running ≡ some co) (idle : r.waits co ≡ none)
      (open_fd : kernel.CanPoll r.scheduler.epoller w.fd) (h : IsSound kernel r) where
    abbrev guarded : CoSocket K
    guarded = guard_open (some co) w.timeout now r.scheduler

    kept : guarded ≡ record r.scheduler { timeouts = guarded.timeouts }
    kept = guard_open_kept (some co) w.timeout now r.scheduler

    open_guarded : kernel.CanPoll guarded.epoller w.fd
    open_guarded =
        subst (λ x. kernel.CanPoll x w.fd) (sym (ap (λ (t : CoSocket K). t.epoller) kept)) open_fd

    guarded-IsSynced : IsSynced kernel guarded
    guarded-IsSynced = subst (IsSynced kernel) (sym kept) h.synced

    free : r.scheduler.timeouts.timeout_ptr_map co ≡ none
    free = h.owned co (subst HasNone (sym idle) tt)

    guarded-IsConsistent : IsConsistent guarded.timeouts
    guarded-IsConsistent = guard_open-IsConsistent co w.timeout now r.scheduler free h.consistent

    guarded_others :
        (j : ℕ) → co ≢ j → HasNone (r.waits j) → guarded.timeouts.timeout_ptr_map j ≡ none
    guarded_others j n none_there =
        guard_open-others co w.timeout now r.scheduler j n ∙ h.owned j none_there

    guarded_own : ltb_ℤ (pos 0) w.timeout ≡ false → guarded.timeouts.timeout_ptr_map co ≡ none
    guarded_own = guard_open-untimed co w.timeout now r.scheduler free

    guarded-Awaited : Awaited r.waits guarded.co_id_map
    guarded-Awaited = subst (λ (x : CoSocket K). Awaited r.waits x.co_id_map) (sym kept) h.awaited

    still_running : guarded.running ≡ some co
    still_running = ap (λ (t : CoSocket K). t.running) kept ∙ running

    guarded_timed :
        (j : ℕ) (v : Wait)
        → co ≢ j
        → r.waits j ≡ some v
        → ltb_ℤ (pos 0) v.timeout ≡ true
        → guarded.timeouts.timeout_ptr_map j ≢ none
    guarded_timed j v n waits_j positive unset =
        h.timed j v waits_j positive
          (sym (guard_open-others co w.timeout now r.scheduler j n) ∙ unset)

    own_timed :
        (v : Wait)
        → w ≡ v
        → ltb_ℤ (pos 0) v.timeout ≡ true
        → guarded.timeouts.timeout_ptr_map co ≢ none
    own_timed v same positive unset =
        let positive' = subst (λ (u : Wait). ltb_ℤ (pos 0) u.timeout ≡ true) (sym same) positive in
        none_not_some _
          (sym unset ∙ guard_open-timed co w.timeout now r.scheduler free h.consistent positive')

    waiting-Timed : Timed (assign r.waits co (some w)) guarded.timeouts
    waiting-Timed j v waits_j positive = elim (ℕ_discrete co j) [
      | yes same ↦
          let now_waits =
            sym (assign_own r.waits co (some w)) ∙ ap (assign r.waits co (some w)) same ∙ waits_j in
          subst (λ k. guarded.timeouts.timeout_ptr_map k ≢ none) same
            (own_timed v (some_inj w v now_waits) positive)
      | no n ↦ guarded_timed j v n (sym (assign_others r.waits co j (some w) n) ∙ waits_j) positive
    ]

    -- The start of a call: it yields, or it goes on to its end.
    begin_cases :
        (begin kernel w.direction w.fd w.timeout now w.answer r.scheduler
          ≡ waiting (watched kernel w.direction w.fd guarded guarded.running none))
        ⊎ (begin kernel w.direction w.fd w.timeout now w.answer r.scheduler
            ≡ finish kernel w.direction w.fd w.timeout (some co) w.answer guarded)
    unfolding begin begin_for
    begin_cases =
        let starts =
          ap (λ c. begin_for kernel c w.direction w.fd w.timeout now w.answer r.scheduler)
            running in
        let goes = go_on kernel (some co) w.direction w.fd w.timeout w.answer in
        elim (Option-cases (slot w.direction (guarded.co_id_map w.fd))) [
          | inl unwatched ↦ inl (
              starts
              ∙ ap goes (add_event_free kernel w.direction w.fd guarded unwatched open_guarded))
          | inr (other, taken) ↦
              inr (starts ∙ ap goes (add_event_taken kernel w.direction w.fd guarded other taken))
        ]

    waiting-IsSound : IsSound kernel (record {
      scheduler = watched kernel w.direction w.fd guarded guarded.running none;
      waits = assign r.waits co (some w);
    })
    waiting-IsSound = record {
      synced =
          watched-IsSynced kernel w.direction w.fd guarded guarded.running none open_guarded
            guarded-IsSynced;
      consistent = guarded-IsConsistent;
      owned = λ j none_there. elim (ℕ_discrete co j) [
        | yes same ↦
            subst
              (λ k.
                HasNone (assign r.waits co (some w) k) → guarded.timeouts.timeout_ptr_map k ≡ none)
              same (λ x. guarded_own (subst HasNone (assign_own r.waits co (some w)) x)) none_there
        | no n ↦
            guarded_others j n (subst HasNone (assign_others r.waits co j (some w) n) none_there)
      ];
      timed = waiting-Timed;
      awaited =
          subst
            (λ x.
              Awaited (assign r.waits co (some w)) (set_slot guarded.co_id_map w.direction w.fd x))
            (sym still_running)
            (enter-Awaited r.waits guarded.co_id_map w.direction w.fd guarded-Awaited co w idle refl
              refl);
    }

    -- The call yields.
    pub yields-IsSound :
        (t : CoSocket K)
        → begin kernel w.direction w.fd w.timeout now w.answer r.scheduler ≡ waiting t
        → IsSound kernel (record { scheduler = t; waits = assign r.waits co (some w) })
    yields-IsSound t e = elim begin_cases [
      | inl yielded ↦
          subst (λ x. IsSound kernel (record { scheduler = x; waits = assign r.waits co (some w) }))
            (waiting-same _ t (sym yielded ∙ e)) waiting-IsSound
      | inr ended ↦ absurd (
          returned_not_waiting _ _ t (
            sym (finish-returned kernel w.direction w.fd co w.timeout guarded w.answer open_guarded)
            ∙ sym ended
            ∙ e))
    ]

    -- The call returns at once.
    pub refused-IsSound :
        (ret : ℤ) (t : CoSocket K)
        → begin kernel w.direction w.fd w.timeout now w.answer r.scheduler ≡ returned ret t
        → IsSound kernel (record { scheduler = t; waits = r.waits })
    refused-IsSound ret t e = elim begin_cases [
      | inl yielded ↦ absurd (returned_not_waiting ret t _ (sym e ∙ yielded))
      | inr ended ↦
          end-IsSound kernel w co ret guarded t r.waits open_guarded guarded-IsSynced
            guarded-IsConsistent guarded_others guarded_own idle guarded_timed
            (clear-Awaited r.waits guarded.co_id_map w.direction w.fd guarded-Awaited)
            (sym ended ∙ e)
    ]
