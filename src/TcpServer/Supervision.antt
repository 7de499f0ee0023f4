-- ===== src/TcpServer/Supervision.antt =====
-- The count of the running workers.
use co_socket.Prelude.{
  ℕ, zero, suc, ◌+◌, ◌≡◌, ◌≢◌, refl, ap, ◌∙◌, Bool, false, not, Bool-cases, inl, inr, some, List,
  [], ◌∷◌, ◌++◌, arith, length, length-append,
}
use co_socket.Prelude.Int.{ℤ, pos, negsuc, ◌≤ℤ◌, pos_part, ◌+ℤ◌, ◌-ℤ◌, ltb_ℤ}
use co_socket.TcpServer.{
  TcpServer, Forked, in_worker, in_master, fork_failed, fork_loop, fork_slaves, after_wait, missing,
  is_empty, monitor_round,
}

-- How many of the forks made a worker, as the master sees them.
abbrev pub started : ℕ → ℕ → (ℕ → Forked) → ℕ
started zero i forks = 0
started (suc n) i forks =
    let rest = started n (i + 1) forks in
    elim (forks i) [ in_worker ↦ rest | in_master pid ↦ suc rest | fork_failed ↦ rest ]

-- The master does not see itself in the worker.
abbrev pub IsMaster : (ℕ → Forked) → Type 0
IsMaster forks = (i : ℕ) → forks i ≢ in_worker

abbrev Counted : ℕ → ℕ → (ℕ → Forked) → List ℕ → Type 0
Counted n i forks ids =
    (ids' : List ℕ) × (fork_loop n i forks ids ≡ some ids')
    × (length ids' ≡ length ids + started n i forks)

-- One fork with its answer, and the rest of the loop.
fork_round :
    (n i : ℕ) (forks : ℕ → Forked) (ids : List ℕ) (answer : Forked)
    → forks i ≡ answer
    → answer ≢ in_worker
    → ((more : List ℕ) → Counted n (i + 1) forks more)
    → Counted (suc n) i forks ids
unfolding fork_loop
fork_round n i forks ids in_worker e master rest = absurd (master refl)
fork_round n i forks ids (in_master pid) e master rest =
    let (ids', runs, counts) = rest (ids ++ pid ∷ []) in
    (
      ids',
      rw (e, fork_loop) runs,
      rw (e, started) (omega (arith, counts, length-append ids (pid ∷ []))),
    )
fork_round n i forks ids fork_failed e master rest =
    let (ids', runs, counts) = rest ids in (ids', rw (e, fork_loop) runs, rw (e, started) counts)

fork_loop_counts :
    (n i : ℕ) (forks : ℕ → Forked) (ids : List ℕ) → IsMaster forks → Counted n i forks ids
unfolding fork_loop
fork_loop_counts zero i forks ids h = (ids, refl, omega arith)
fork_loop_counts (suc n) i forks ids h =
    fork_round n i forks ids (forks i) refl (h i) λ more. fork_loop_counts n (i + 1) forks more h

-- `ForkSlaves` returns in the master and counts the workers that were started, but also the entries
-- of the list that it was given: a caller that passes a list that is not empty has workers counted
-- that do not run.
pub fork_slaves_counts :
    (num : ℤ) (forks : ℕ → Forked) (ids : List ℕ) (s : TcpServer)
    → IsMaster forks
    → (ok : Bool) × (t : TcpServer) × (fork_slaves num forks ids s ≡ some (ok, t))
      × (t.num_slave_running
          ≡ s.num_slave_running +ℤ pos (length ids + started (pos_part num) 0 forks))
      × (t.num_slave_expected ≡ s.num_slave_expected)
unfolding fork_slaves
fork_slaves_counts num forks ids s h =
    let (ids', runs, counts) = fork_loop_counts (pos_part num) 0 forks ids h in
    (
      not (is_empty ids'),
      record s { num_slave_running = s.num_slave_running +ℤ pos (length ids') },
      rw (runs, fork_slaves),
      ap (λ n. s.num_slave_running +ℤ pos n) counts,
      refl,
    )

-- The workers that have ended, by the answer of `waitpid`.
abbrev pub ended : ℤ → ℕ
ended (pos zero) = 0
ended (pos (suc pid)) = 1
ended (negsuc n) = 0

after_wait_counts :
    (waited : ℤ) (live : ℕ) (s : TcpServer)
    → pos 0 ≤ℤ waited
    → s.num_slave_running ≡ pos live
    → (after_wait waited s).num_slave_running ≡ pos live -ℤ pos (ended waited)
unfolding after_wait ◌-ℤ◌
after_wait_counts (pos zero) live s k e = ground arith
after_wait_counts (pos (suc pid)) live s k e = ground arith
after_wait_counts (negsuc n) live s k e = absurd (omega arith)

after_wait_expected :
    (waited : ℤ) (s : TcpServer) → (after_wait waited s).num_slave_expected ≡ s.num_slave_expected
unfolding after_wait
after_wait_expected (pos zero) s = refl
after_wait_expected (pos (suc pid)) s = refl
after_wait_expected (negsuc n) s = refl

none_missing : (n : ℤ) → ltb_ℤ (pos 0) n ≡ false → pos_part n ≡ 0
none_missing n h = ground arith

pos_sum : (a b : ℕ) → pos a +ℤ pos b ≡ pos (a + b)
unfolding ◌+ℤ◌
pos_sum a b = ground arith

-- A round of `MonitorSlavesLoop` keeps the count of the running workers right: what ran, and what it
-- started, without a worker that has ended, if `waitpid` meets no error. How many are expected stays.
pub monitor_round_counts :
    (forks : ℕ → Forked) (waited : ℤ) (live : ℕ) (s : TcpServer)
    → IsMaster forks
    → pos 0 ≤ℤ waited
    → s.num_slave_running ≡ pos live
    → (t : TcpServer) × (monitor_round forks waited s ≡ some t)
      × (t.num_slave_running
          ≡ pos (live + started (pos_part (missing s)) 0 forks) -ℤ pos (ended waited))
      × (t.num_slave_expected ≡ s.num_slave_expected)
unfolding monitor_round
monitor_round_counts forks waited live s master fine running =
    elim (Bool-cases (ltb_ℤ (pos 0) (missing s))) [
      | inl some_missing ↦
          let (ok, t, runs, counts, same) = fork_slaves_counts (missing s) forks [] s master in
          let begun = started (pos_part (missing s)) 0 forks in
          let no_more : 0 + begun ≡ begun = omega arith in
          let now =
            counts
            ∙ ap (λ n. s.num_slave_running +ℤ pos n) no_more
            ∙ ap (λ r. r +ℤ pos (started (pos_part (missing s)) 0 forks)) running
            ∙ pos_sum live (started (pos_part (missing s)) 0 forks) in
          (
            after_wait waited t,
            rw (some_missing, runs, monitor_round),
            after_wait_counts waited _ t fine now,
            after_wait_expected waited t ∙ same,
          )
      | inr enough ↦
          let nothing = none_missing (missing s) enough in
          (
            after_wait waited s,
            rw (enough, monitor_round),
            after_wait_counts waited live s fine running
                ∙ rw nothing (ap (λ n. pos n -ℤ pos (ended waited)) (omega arith)),
            after_wait_expected waited s,
          )
    ]
