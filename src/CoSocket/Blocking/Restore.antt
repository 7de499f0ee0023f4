-- ===== src/CoSocket/Blocking/Restore.antt =====
-- What a call that waits leaves behind.
use co_socket.Prelude.{
  ℕ, ◌≡◌, ◌∙◌, refl, sym, ap, subst, fun_ext, Bool, Option, none, some, ◌==◌, if◌then◌else◌, arith,
  Bool-cases, inl, inr, ==_refl,
}
use co_socket.Prelude.Int.{ℤ, pos, ltb_ℤ}
use co_socket.Timestamp.{Timestamp}
use co_socket.TimeoutSet
use co_socket.TimeoutSet.Laws.{IsConsistent, delete-insert}
use co_socket.Epoller.{EpollKernel}
use co_socket.Epoller.Laws.{update-CanPoll}
use co_socket.CoSocket.State.{FdWatcher, CoSocket, assign}
use co_socket.CoSocket.Events.{Direction, inward, outward}
use co_socket.CoSocket.Events.Sync.{
  slot, with_slot, watched, IsSynced, add_event_free, delete_event_lem, watched-IsSynced,
}
use co_socket.CoSocket.Blocking.{
  negative, etime, Outcome, returned, waiting, aborts, guard_open, guard_close, finish, go_on,
  begin_for, begin,
}

with_slot_back :
    (d : Direction) (co : Option ℕ) (w : FdWatcher)
    → slot d w ≡ none
    → with_slot d none (with_slot d co w) ≡ w
with_slot_back inward co w h = ground arith
with_slot_back outward co w h = ground arith

pub guard_open_kept :
    {K : Type 0} (co : Option ℕ) (timeout : ℤ) (now : Timestamp) (s : CoSocket K)
    → guard_open co timeout now s ≡ record s { timeouts = (guard_open co timeout now s).timeouts }
unfolding guard_open
guard_open_kept none timeout now s = refl
guard_open_kept (some co) timeout now s = ground arith

pub guard_close_kept :
    {K : Type 0} (co : Option ℕ) (timeout : ℤ) (s : CoSocket K)
    → guard_close co timeout s ≡ record s { timeouts = (guard_close co timeout s).timeouts }
unfolding guard_close
guard_close_kept none timeout s = refl
guard_close_kept (some co) timeout s = ground arith

-- The guard's destructor undoes its constructor, if the coroutine had no deadline before.
guard_close-guard_open :
    {K : Type 0} (co : ℕ) (timeout : ℤ) (now : Timestamp) (s t : CoSocket K)
    → s.timeouts.timeout_ptr_map co ≡ none
    → IsConsistent s.timeouts
    → t.timeouts ≡ (guard_open (some co) timeout now s).timeouts
    → (guard_close (some co) timeout t).timeouts ≡ s.timeouts
unfolding guard_open guard_close
guard_close-guard_open co timeout now s t h c e = elim (Bool-cases (ltb_ℤ (pos 0) timeout)) [
  | inl timed ↦
      rw timed
        (ap (TimeoutSet.delete co) (e ∙ rw timed) ∙ delete-insert co timeout now s.timeouts h c)
  | inr untimed ↦ rw untimed (e ∙ rw untimed)
]

assign_back :
    (m : ℕ → FdWatcher) (k : ℕ) (v w : FdWatcher) → w ≡ m k → assign (assign m k v) k w ≡ m
assign_back m k v w h =
    fun_ext
      λ j. elim (Bool-cases (k == j)) [ inl e ↦ rw e (h ∙ ap m (ground arith)) | inr n ↦ rw n ]

module _ {K : Type 0} (kernel : EpollKernel K) (d : Direction) (fd co : ℕ) (timeout : ℤ) where
  open kernel use {CanPoll}

  -- When it is resumed a call answers -ETIME if a deadline is being handled and the second system
  -- call's answer otherwise, and takes its watcher and its deadline out.
  pub finish-returned :
      (s : CoSocket K) (answer : ℤ)
      → CanPoll s.epoller fd
      → finish kernel d fd timeout (some co) answer s
        ≡ returned
            (if s.handling_timeout then negative etime else answer)
            (guard_close (some co) timeout (watched kernel d fd s none s.running))
  unfolding finish
  finish-returned s answer open_fd = rw (delete_event_lem kernel d fd s open_fd)

module _ {K : Type 0} (kernel : EpollKernel K) (d : Direction) (fd co : ℕ) (timeout : ℤ)
    (now : Timestamp) (s : CoSocket K) where
  open kernel use {CanPoll}

  -- The state at the yield of a call that waits.
  abbrev pub at_yield : CoSocket K
  at_yield = watched kernel d fd (guard_open (some co) timeout now s) (some co) none

  begin-waiting :
      (answer : ℤ)
      → s.running ≡ some co
      → slot d (s.co_id_map fd) ≡ none
      → CanPoll s.epoller fd
      → begin kernel d fd timeout now answer s ≡ waiting at_yield
  unfolding begin begin_for
  begin-waiting answer running free open_fd =
      let g = guard_open (some co) timeout now s in
      let kept = guard_open_kept (some co) timeout now s in
      let free' : slot d (g.co_id_map fd) ≡ none =
        ap (λ (t : CoSocket K). slot d (t.co_id_map fd)) kept ∙ free in
      let open' : CanPoll g.epoller fd =
        subst (λ x. CanPoll x fd) (sym (ap (λ (t : CoSocket K). t.epoller) kept)) open_fd in
      let running' : g.running ≡ some co = ap (λ (t : CoSocket K). t.running) kept ∙ running in
      let added = add_event_free kernel d fd g free' open' in
      ap (λ co. begin_for kernel co d fd timeout now answer s) running
      ∙ ap (go_on kernel (some co) d fd timeout answer) added
      ∙ ap (λ r. waiting (watched kernel d fd g r none)) running'

  -- What the whole call leaves: the answer, and the state as it was before the call.
  abbrev pub Restored : ℤ → Outcome K → Type 0
  Restored ret (returned r t) =
      (r ≡ ret)
      × (t.co_id_map ≡ s.co_id_map)
      × (t.timeouts ≡ s.timeouts)
      × (t.running ≡ s.running)
      × IsSynced kernel t
  Restored ret (waiting t) = ⊥
  Restored ret aborts = ⊥

  -- The state in which the scheduler resumes the call, if no other coroutine changed anything.
  abbrev pub at_resume : Bool → CoSocket K
  at_resume late = record at_yield { running = some co; handling_timeout = late }

  at_yield_slot :
      slot d (s.co_id_map fd) ≡ none
      → (late : Bool) → with_slot d none ((at_resume late).co_id_map fd) ≡ s.co_id_map fd
  at_yield_slot free late =
      let kept = guard_open_kept (some co) timeout now s in
      let w = ap (λ (t : CoSocket K). t.co_id_map fd) kept in
      rw (==_refl fd)
        (ap (λ x. with_slot d none (with_slot d (some co) x)) w ∙ with_slot_back d (some co) _ free)

  at_resume_map :
      slot d (s.co_id_map fd) ≡ none
      → (late : Bool)
      → (watched kernel d fd (at_resume late) none (some co)).co_id_map ≡ s.co_id_map
  at_resume_map free late =
      let kept = ap (λ (t : CoSocket K). t.co_id_map) (guard_open_kept (some co) timeout now s) in
      assign_back (guard_open (some co) timeout now s).co_id_map fd _ _
        (at_yield_slot free late ∙ ap (λ (m : ℕ → FdWatcher). m fd) (sym kept))
      ∙ kept

  -- A call that waits on a free direction of a descriptor yields, and when it is resumed, by its event
  -- or by its deadline (`late`), it answers -ETIME or the second system call's answer; the watchers,
  -- the deadlines are then as before the call, and the poller's interest in step with the watchers, if
  -- no other coroutine changed them meanwhile.
  pub begin-Restored :
      s.running ≡ some co
      → slot d (s.co_id_map fd) ≡ none
      → CanPoll s.epoller fd
      → s.timeouts.timeout_ptr_map co ≡ none
      → IsConsistent s.timeouts
      → IsSynced kernel s
      → (answer : ℤ) (late : Bool)
      → (begin kernel d fd timeout now answer s ≡ waiting at_yield)
        × Restored
            (if late then negative etime else answer)
            (finish kernel d fd timeout (some co) answer (at_resume late))
  begin-Restored running free open_fd no_deadline consistent in_step answer late =
      (begin-waiting answer running free open_fd, resumed)
    where
      g : CoSocket K
      g = guard_open (some co) timeout now s

      kept : g ≡ record s { timeouts = g.timeouts }
      kept = guard_open_kept (some co) timeout now s

      open_g : CanPoll g.epoller fd
      open_g = subst (λ x. CanPoll x fd) (sym (ap (λ (t : CoSocket K). t.epoller) kept)) open_fd

      open_resumed : CanPoll (at_resume late).epoller fd
      open_resumed = (update-CanPoll kernel fd _ g.epoller fd).1 open_g

      synced : IsSynced kernel (at_resume late)
      synced =
          watched-IsSynced kernel d fd g (some co) none open_g
            (subst (IsSynced kernel) (sym kept) in_step)

      resumed :
          Restored
            (if late then negative etime else answer)
            (finish kernel d fd timeout (some co) answer (at_resume late))
      resumed =
          let t = watched kernel d fd (at_resume late) none (some co) in
          let closed = guard_close_kept (some co) timeout t in
          rw (finish-returned kernel d fd co timeout (at_resume late) answer open_resumed) (
            refl,
            ap (λ (x : CoSocket K). x.co_id_map) closed ∙ at_resume_map free late,
            guard_close-guard_open co timeout now s t no_deadline consistent refl,
            ap (λ (x : CoSocket K). x.running) closed ∙ sym running,
            subst (IsSynced kernel) (sym closed)
                (watched-IsSynced kernel d fd (at_resume late) none (some co) open_resumed synced),
          )
