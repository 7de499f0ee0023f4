-- ===== src/CoSocket/Blocking/Steps/Ends.antt =====
-- The end of a call, and what holds of the scheduler.
use native.Mathlib.Decide.{ℕ_discrete}
use co_socket.Prelude.{ℕ, ◌≡◌, ◌≢◌, sym, ap, subst, ◌∙◌, true, false, Option, none, some}
use co_socket.Prelude.Int.{ℤ, pos, ltb_ℤ}
use co_socket.TimeoutSet.{TimeoutSet}
use co_socket.TimeoutSet.Laws.{IsConsistent}
use co_socket.Epoller.{EpollKernel}
use co_socket.CoSocket.State.{CoSocket}
use co_socket.CoSocket.Events.Sync.{watched, IsSynced, watched-IsSynced}
use co_socket.CoSocket.Blocking.{returned, waiting, guard_close, finish}
use co_socket.CoSocket.Blocking.Restore.{guard_close_kept, finish-returned}
use co_socket.CoSocket.Blocking.Guards.{
  guard_close-IsConsistent, guard_close-others, guard_close-own,
}
use co_socket.CoSocket.Blocking.Steps.{Wait, System}
use co_socket.CoSocket.Blocking.Steps.Watchers.{Awaited, set_slot, none_not_some}

-- A coroutine that waits without a timeout, or that does not wait, has no deadline.
abbrev pub HasNone : Option Wait → Type 0
HasNone none = Unit
HasNone (some w) = ltb_ℤ (pos 0) w.timeout ≡ false

abbrev pub Owned : (ℕ → Option Wait) → TimeoutSet → Type 0
Owned waits ts = (co : ℕ) → HasNone (waits co) → ts.timeout_ptr_map co ≡ none

-- A coroutine that waits with a timeout has a deadline.
abbrev pub Timed : (ℕ → Option Wait) → TimeoutSet → Type 0
Timed waits ts =
    (co : ℕ) (w : Wait)
    → waits co ≡ some w
    → ltb_ℤ (pos 0) w.timeout ≡ true
    → ts.timeout_ptr_map co ≢ none

module _ {K : Type 0} where
  returned-same : (ret other : ℤ) (s t : CoSocket K) → returned ret s ≡ returned other t → s ≡ t
  returned-same ret other s t e = cc

  pub waiting-same : (s t : CoSocket K) → waiting s ≡ waiting t → s ≡ t
  waiting-same s t e = cc

  pub returned_not_waiting : (ret : ℤ) (s t : CoSocket K) → returned ret s ≡ waiting t → ⊥
  returned_not_waiting ret s t e = cc

module _ {K : Type 0} (kernel : EpollKernel K) where
  pub record IsSound (r : System K) : Type 0 where
    pub synced : IsSynced kernel r.scheduler
    pub consistent : IsConsistent r.scheduler.timeouts
    pub owned : Owned r.waits r.scheduler.timeouts
    pub timed : Timed r.waits r.scheduler.timeouts
    pub awaited : Awaited r.waits r.scheduler.co_id_map

  -- The end of a call: what held of the other coroutines still does, and its own has no deadline.
  pub end-IsSound :
      (w : Wait) (co : ℕ) (ret : ℤ) (s t : CoSocket K) (waits : ℕ → Option Wait)
      → kernel.CanPoll s.epoller w.fd
      → IsSynced kernel s
      → IsConsistent s.timeouts
      → ((j : ℕ) → co ≢ j → HasNone (waits j) → s.timeouts.timeout_ptr_map j ≡ none)
      → (ltb_ℤ (pos 0) w.timeout ≡ false → s.timeouts.timeout_ptr_map co ≡ none)
      → waits co ≡ none
      → ((j : ℕ) (v : Wait)
          → co ≢ j
          → waits j ≡ some v
          → ltb_ℤ (pos 0) v.timeout ≡ true
          → s.timeouts.timeout_ptr_map j ≢ none)
      → Awaited waits (set_slot s.co_id_map w.direction w.fd none)
      → finish kernel w.direction w.fd w.timeout (some co) w.answer s ≡ returned ret t
      → IsSound (record { scheduler = t; waits = waits })
  end-IsSound w co ret s t waits open_fd synced consistent others own idle timed awaited e =
      let out = watched kernel w.direction w.fd s none s.running in
      let u = guard_close (some co) w.timeout out in
      let returns = finish-returned kernel w.direction w.fd co w.timeout s w.answer open_fd in
      subst (λ x. IsSound (record { scheduler = x; waits = waits }))
        (returned-same _ ret u t (sym returns ∙ e))
        (record {
          synced =
              subst (IsSynced kernel) (sym (guard_close_kept (some co) w.timeout out))
                (watched-IsSynced kernel w.direction w.fd s none s.running open_fd synced);
          consistent = guard_close-IsConsistent co w.timeout out consistent;
          owned = λ j h. elim (ℕ_discrete co j) [
            | yes same ↦
                subst (λ k. u.timeouts.timeout_ptr_map k ≡ none) same
                  (guard_close-own co w.timeout out own)
            | no n ↦ guard_close-others co w.timeout out j n ∙ others j n h
          ];
          timed = λ j v waits_j positive unset.
              let n : co ≢ j = λ same. none_not_some v (sym idle ∙ ap waits same ∙ waits_j) in
              timed j v n waits_j positive (sym (guard_close-others co w.timeout out j n) ∙ unset);
          awaited =
              subst (λ (x : CoSocket K). Awaited waits x.co_id_map)
                (sym (guard_close_kept (some co) w.timeout out)) awaited;
        })
