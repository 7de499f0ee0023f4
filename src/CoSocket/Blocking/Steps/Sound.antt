-- ===== src/CoSocket/Blocking/Steps/Sound.antt =====
-- What holds of the scheduler between any two steps.
use co_socket.Prelude.{ℕ, ◌≡◌, refl, sym, subst, ◌∙◌, none}
use co_socket.TimeoutSet.Laws.{IsConsistent, empty-IsConsistent}
use co_socket.Epoller.{EpollKernel}
use co_socket.Epoller.Laws.{interest}
use co_socket.CoSocket.State.{FdWatcher, CoSocket, assign}
use co_socket.CoSocket.Events.{inward, outward}
use co_socket.CoSocket.Events.Sync.{asked_for}
use co_socket.CoSocket.Blocking.Steps.{
  System, at_start, ◌⟶◌, yields, refused, resumes, elsewhere, Reach, begun, next,
}
use co_socket.CoSocket.Blocking.Steps.Ends.{HasNone, Owned, Timed, IsSound, end-IsSound}
use co_socket.CoSocket.Blocking.Steps.Watchers.{
  assign_own, assign_others, none_not_some, Awaited, leave-Awaited,
}
use co_socket.CoSocket.Blocking.Steps.Begins.{yields-IsSound, refused-IsSound}

module _ {K : Type 0} (kernel : EpollKernel K) where
  elsewhere-IsSound :
      (r : System K) (t : CoSocket K)
      → t.co_id_map ≡ r.scheduler.co_id_map
      → t.timeouts ≡ r.scheduler.timeouts
      → t.epoller ≡ r.scheduler.epoller
      → IsSound kernel r
      → IsSound kernel (record { scheduler = t; waits = r.waits })
  elsewhere-IsSound r t watchers deadlines poller h = record {
    synced =
        subst
          (λ x.
            (j : ℕ)
            → kernel.CanPoll x j
            → kernel.registered x j ≡ interest (asked_for (t.co_id_map j)))
          (sym poller)
          (subst
            (λ (m : ℕ → FdWatcher).
              (j : ℕ)
              → kernel.CanPoll r.scheduler.epoller j
              → kernel.registered r.scheduler.epoller j ≡ interest (asked_for (m j)))
            (sym watchers) h.synced);
    consistent = subst IsConsistent (sym deadlines) h.consistent;
    owned = subst (Owned r.waits) (sym deadlines) h.owned;
    timed = subst (Timed r.waits) (sym deadlines) h.timed;
    awaited = subst (Awaited r.waits) (sym watchers) h.awaited;
  }

  step-IsSound : (r t : System K) → ◌⟶◌ kernel r t → IsSound kernel r → IsSound kernel t
  step-IsSound r _ (yields co w now {t = t} running idle open_fd e) h =
      yields-IsSound kernel w co now r running idle open_fd h t e
  step-IsSound r _ (refused co w now ret {t = t} running idle open_fd e) h =
      refused-IsSound kernel w co now r running idle open_fd h ret t e
  step-IsSound r _ (resumes co w ret {t = t} running waits open_fd e) h =
      end-IsSound kernel w co ret r.scheduler t (assign r.waits co none) open_fd h.synced
        h.consistent (λ j n x. h.owned j (subst HasNone (assign_others r.waits co j none n) x))
        (λ untimed. h.owned co (subst HasNone (sym waits) untimed)) (assign_own r.waits co none)
        (λ j v n waits_j. h.timed j v (sym (assign_others r.waits co j none n) ∙ waits_j))
        (leave-Awaited r.waits r.scheduler.co_id_map w.direction w.fd h.awaited co w waits refl
          refl)
        e
  step-IsSound r _ (elsewhere {t = t} watchers deadlines poller) h =
      elsewhere-IsSound r t watchers deadlines poller h

  start-Awaited : (k : K) → Awaited (λ co. none) (at_start k).scheduler.co_id_map
  start-Awaited k fd inward co e = cc
  start-Awaited k fd outward co e = cc

  module _ (k : K) (fresh : (fd : ℕ) → kernel.CanPoll k fd → kernel.registered k fd ≡ none) where
    start-IsSound : IsSound kernel (at_start k)
    start-IsSound = record {
      synced = fresh;
      consistent = empty-IsConsistent;
      owned = λ co h. refl;
      timed = λ co w waits_co. absurd (none_not_some w waits_co);
      awaited = start-Awaited k;
    }

    -- Between any two steps of a scheduler that began with a new poller, in whatever order the
    -- coroutines run, call, are refused and are resumed: the poller's interest in each descriptor
    -- that can be polled is input exactly if its watcher has a coroutine that reads, and output
    -- exactly if it has one that writes, the two indexes of the deadlines agree, and a coroutine
    -- that does not wait, or waits without a timeout, has no deadline, and one that waits with a
    -- timeout has one. A coroutine that a watcher has in a direction waits for that direction of
    -- that descriptor.
    pub Reach-IsSound : (r : System K) → Reach kernel k r → IsSound kernel r
    Reach-IsSound _ begun = start-IsSound
    Reach-IsSound t (next {r = r} reach step) = step-IsSound r t step (Reach-IsSound r reach)
