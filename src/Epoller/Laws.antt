-- ===== src/Epoller/Laws.antt =====
-- What `Update` makes of the interest in a descriptor.
use co_socket.Prelude.{
  ℕ, ◌≡◌, ◌≢◌, ◌↔◌, refl, inl, inr, Option, none, some, ◌==◌, if◌then◌else◌, Bool-cases,
  Option-cases, arith,
}
use co_socket.Epoller.{EpollKernel, enoent, eexist, add, del, mod_events, update}

-- The interest that a set of events stands for: none if it is empty.
abbrev pub interest : ℕ → Option ℕ
interest events = if events == 0 then none else some events

module _ {K : Type 0} (kernel : EpollKernel K) (fd events : ℕ) (k : K) where
  open kernel use {
    registered, CanPoll, add_new, add_old, mod_old, del_old, del_none, others, still_open,
  }

  -- On a descriptor that can be polled `Update` succeeds and leaves the kernel with exactly the given
  -- interest in it, also where the descriptor was registered before, or was not and is taken out.
  pub update_lem :
      CanPoll k fd
      → ((update kernel fd events k).0 ≡ 0)
        × (registered (update kernel fd events k).1 fd ≡ interest events)
  unfolding update
  update_lem h = elim (Bool-cases (events == 0)) [
    | inl z ↦ rw z (elim (Option-cases (registered k fd)) [
      | inl e ↦ rw (del_none k fd events h e) (refl, e)
      | inr (old, e) ↦ ground (arith, del_old k fd events old h e)
    ])
    | inr nz ↦ rw nz (elim (Option-cases (registered k fd)) [
      | inl e ↦ ground (arith, add_new k fd events h e)
      | inr (old, e) ↦ rw (add_old k fd events old h e) (mod_old k fd events old h e)
    ])
  ]

  -- The interest in the other descriptors stays.
  pub update_others :
      (other : ℕ) → other ≢ fd → registered (update kernel fd events k).1 other ≡ registered k other
  unfolding update
  update_others other h = ground (
    arith,
    others add fd events other k h,
    others del fd events other k h,
    others mod_events fd events other (kernel.control add fd events k).1 h,
  )

  pub update-CanPoll : (other : ℕ) → CanPoll (update kernel fd events k).1 other ↔ CanPoll k other
  unfolding update
  update-CanPoll other = elim (Bool-cases (events == 0)) [
    | inl z ↦ rw z (elim (Bool-cases ((kernel.control del fd events k).0 == enoent)) [
      | inl e ↦ rw e (still_open del fd events other k)
      | inr e ↦ rw e (still_open del fd events other k)
    ])
    | inr nz ↦ rw nz (elim (Bool-cases ((kernel.control add fd events k).0 == eexist)) [
      | inl e ↦
          let once = still_open add fd events other k in
          let twice = still_open mod_events fd events other (kernel.control add fd events k).1 in
          rw e ((λ h. once.0 (twice.0 h)), (λ h. twice.1 (once.1 h)))
      | inr e ↦ rw e (still_open add fd events other k)
    ])
  ]
