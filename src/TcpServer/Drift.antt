-- ===== src/TcpServer/Drift.antt =====
-- The count of the running workers while none runs.
use co_socket.Prelude.{
  ℕ, zero, suc, ◌+◌, ◌≡◌, refl, sym, ap, ◌∙◌, Bool-cases, inl, inr, Option, none, some, [], arith,
}
use co_socket.Prelude.Int.{ℤ, pos, negsuc, pos_part, ◌+ℤ◌, ◌-ℤ◌, ltb_ℤ, int_laws}
use co_socket.TcpServer.{TcpServer, fork_failed, after_wait, missing, monitor_round}
use co_socket.TcpServer.Supervision.{started, fork_slaves_counts}

-- The loop for so many rounds in which no worker runs: `waitpid` answers -1, and each `fork` fails.
pub failing_rounds : ℕ → TcpServer → Option TcpServer
failing_rounds zero s = some s
failing_rounds (suc n) s = elim (monitor_round (λ i. fork_failed) (negsuc 0) s) [
  | none ↦ none
  | some t ↦ failing_rounds n t
]

started_none : (n i : ℕ) → started n i (λ j. fork_failed) ≡ 0
started_none zero i = refl
started_none (suc n) i = started_none n (i + 1)

after_error :
    (t : TcpServer) (r : ℤ)
    → t.num_slave_running ≡ r +ℤ pos 0
    → (after_wait (negsuc 0) t).num_slave_running ≡ r -ℤ pos 1
unfolding after_wait ◌+ℤ◌ ◌-ℤ◌
after_error t r e = rw e (ground arith)

abbrev Lowered : TcpServer → ℕ → Option TcpServer → Type 0
Lowered s k r =
    (t : TcpServer) × (r ≡ some t)
    × (t.num_slave_running ≡ s.num_slave_running -ℤ pos k)
    × (t.num_slave_expected ≡ s.num_slave_expected)

failing_round : (s : TcpServer) → Lowered s 1 (monitor_round (λ i. fork_failed) (negsuc 0) s)
unfolding monitor_round
failing_round s = elim (Bool-cases (ltb_ℤ (pos 0) (missing s))) [
  | inl some_missing ↦
      let (ok, t, runs, counts, same) =
        fork_slaves_counts (missing s) (λ i. fork_failed) [] s (λ i. λ e. cc) in
      let nothing : 0 + started (pos_part (missing s)) 0 (λ i. fork_failed) ≡ 0 =
        omega (arith, started_none (pos_part (missing s)) 0) in
      (
        after_wait (negsuc 0) t,
        rw (some_missing, runs, monitor_round),
        after_error t s.num_slave_running (counts ∙ ap (λ n. s.num_slave_running +ℤ pos n) nothing),
        unfold after_wait in same,
      )
  | inr enough ↦ (
    after_wait (negsuc 0) s,
    rw (enough, monitor_round),
    unfold after_wait in refl,
    unfold after_wait in refl,
  )
]

minus_steps : (a : ℤ) (k : ℕ) → a -ℤ pos 1 -ℤ pos k ≡ a -ℤ pos (suc k)
minus_steps a k = omega int_laws

missing_grows : (e a : ℤ) (k : ℕ) → e -ℤ (a -ℤ pos k) ≡ e -ℤ a +ℤ pos k
missing_grows e a k = omega int_laws

minus_zero : (a : ℤ) → a -ℤ pos 0 ≡ a
minus_zero a = omega int_laws

failing_rounds_lower : (k : ℕ) (s : TcpServer) → Lowered s k (failing_rounds k s)
unfolding failing_rounds
failing_rounds_lower zero s = (s, refl, sym (minus_zero s.num_slave_running), refl)
failing_rounds_lower (suc k) s =
    let (t, runs, less, same) = failing_round s in
    let (u, rest, lower, same') = failing_rounds_lower k t in
    (
      u,
      rw (runs, failing_rounds) rest,
      lower ∙ ap (λ r. r -ℤ pos k) less ∙ minus_steps s.num_slave_running k,
      same' ∙ same,
    )

-- While no worker runs and no worker can be started, `waitpid` answers -1, which is counted as the end
-- of a worker: after `k` such rounds the master misses `k` workers more than it has to start.
pub failing_rounds_drift :
    (k : ℕ) (s : TcpServer)
    → (t : TcpServer) × (failing_rounds k s ≡ some t) × (missing t ≡ missing s +ℤ pos k)
failing_rounds_drift k s =
    let (t, runs, less, same) = failing_rounds_lower k s in
    (t, runs, rw (less, same) (missing_grows s.num_slave_expected s.num_slave_running k))
