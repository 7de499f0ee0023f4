-- ===== src/CoSocket/Blocking/Faults.antt =====
-- Two coroutines that wait for the same direction of one descriptor.
use co_socket.Prelude.{ℕ, ◌≡◌, ◌∙◌, refl, sym, ap, subst, none, some, if◌then◌else◌, ==_refl}
use co_socket.Prelude.Int.{ℤ}
use co_socket.Timestamp.{Timestamp}
use co_socket.Epoller.{EpollKernel}
use co_socket.CoSocket.State.{FdWatcher, CoSocket}
use co_socket.CoSocket.Events.{Direction, inward, outward, flag, event_handler}
use co_socket.CoSocket.Events.Sync.{slot, with_slot, watched, add_event_taken}
use co_socket.CoSocket.Events.Handler.{event_handler_free}
use co_socket.CoSocket.Blocking.{
  negative, etime, returned, guard_open, guard_close, go_on, begin_for, begin,
}
use co_socket.CoSocket.Blocking.Restore.{guard_open_kept, guard_close_kept, finish-returned}

slot-with_slot : (d : Direction) (w : FdWatcher) → slot d (with_slot d none w) ≡ none
slot-with_slot inward w = refl
slot-with_slot outward w = refl

-- The code means to refuse a second coroutine. But the call does not look at that refusal: it goes on
-- at once, and at its end takes out the watcher of the coroutine that waited first. The descriptor's
-- event then wakes nobody.
pub begin_duplicate :
    {K : Type 0} (kernel : EpollKernel K) (d : Direction) (fd co other : ℕ) (timeout : ℤ)
    (now : Timestamp) (answer : ℤ) (s : CoSocket K)
    → s.running ≡ some co
    → slot d (s.co_id_map fd) ≡ some other
    → kernel.CanPoll s.epoller fd
    → (t : CoSocket K) × (begin kernel d fd timeout now answer s
        ≡ returned (if s.handling_timeout then negative etime else answer) t)
      × (slot d (t.co_id_map fd) ≡ none)
      × ((resume : ℕ → CoSocket K → CoSocket K) → event_handler resume fd (flag d) t ≡ t)
unfolding begin begin_for
begin_duplicate {K} kernel d fd co other timeout now answer s running taken open_fd = (
  t,
  ap (λ c. begin_for kernel c d fd timeout now answer s) running
      ∙ ap (go_on kernel (some co) d fd timeout answer)
          (add_event_taken kernel d fd g other taken_g)
      ∙ finish-returned kernel d fd co timeout g answer open_g
      ∙ ap (λ b. returned (if b then negative etime else answer) t)
          (ap (λ (x : CoSocket K). x.handling_timeout) kept),
  lost,
  λ resume. event_handler_free resume fd t d lost,
)
  where
    g : CoSocket K
    g = guard_open (some co) timeout now s

    kept : g ≡ record s { timeouts = g.timeouts }
    kept = guard_open_kept (some co) timeout now s

    taken_g : slot d (g.co_id_map fd) ≡ some other
    taken_g = ap (λ (x : CoSocket K). slot d (x.co_id_map fd)) kept ∙ taken

    open_g : kernel.CanPoll g.epoller fd
    open_g =
        subst (λ x. kernel.CanPoll x fd) (sym (ap (λ (x : CoSocket K). x.epoller) kept)) open_fd

    t : CoSocket K
    t = guard_close (some co) timeout (watched kernel d fd g none g.running)

    lost : slot d (t.co_id_map fd) ≡ none
    lost =
        ap (λ (x : CoSocket K). slot d (x.co_id_map fd))
          (guard_close_kept (some co) timeout (watched kernel d fd g none g.running))
        ∙ rw (==_refl fd) (slot-with_slot d (g.co_id_map fd))
