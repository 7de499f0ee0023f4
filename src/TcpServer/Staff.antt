-- ===== src/TcpServer/Staff.antt =====
-- The rounds of `TcpServer::MonitorSlavesLoop`, one after the other.
use co_socket.Prelude.{
  ℕ, zero, suc, ◌+◌, ◌-◌, ◌≤◌, ◌≡◌, refl, sym, subst, none, ap, ◌∙◌, some, List, [], ◌∷◌, arith,
  Bool, true, if◌then◌else◌,
}
use co_socket.Prelude.Int.{ℤ, pos, negsuc, pos_part, ◌≤ℤ◌, ◌-ℤ◌, ◌+ℤ◌, ltb_ℤ}
use co_socket.TcpServer.{
  TcpServer, Forked, in_master, missing, monitor_round, monitor_slaves_loop, listen_all,
  listen_and_fork,
}
use co_socket.TcpServer.Supervision.{
  started, fork_slaves_counts, IsMaster, ended, monitor_round_counts,
}

-- Every `fork` makes a worker.
abbrev pub IsForking : (ℕ → Forked) → Type 0
IsForking forks = (i : ℕ) → (pid : ℕ) × (forks i ≡ in_master pid)

-- No round meets an error.
abbrev pub IsFine : List ((ℕ → Forked) × ℤ) → Type 0
IsFine [] = Unit
IsFine ((forks, waited) ∷ rounds) = IsForking forks × (pos 0 ≤ℤ waited) × IsFine rounds

-- The workers that live after some rounds, of `live` before them: in each the forks make some, and
-- one has ended if `waitpid` answers its number.
abbrev pub living : List ((ℕ → Forked) × ℤ) → ℕ → TcpServer → ℕ
living [] live s = live
living ((forks, waited) ∷ rounds) live s =
    let now = live + started (pos_part (missing s)) 0 forks - ended waited in
    elim (monitor_round forks waited s) [ none ↦ now | some t ↦ living rounds now t ]

-- Of the workers as many live as are counted, and all or all but one of the expected ones.
abbrev pub IsStaffed : ℕ → ℕ → TcpServer → Type 0
IsStaffed e live s =
    (s.num_slave_expected ≡ pos e) × (s.num_slave_running ≡ pos live) × (live ≤ e) × (e ≤ live + 1)

forking-IsMaster : (forks : ℕ → Forked) → IsForking forks → IsMaster forks
forking-IsMaster forks h i e = let (pid, answer) = h i in cc

started_all : (n i : ℕ) (forks : ℕ → Forked) → IsForking forks → started n i forks ≡ n
started_all zero i forks h = refl
started_all (suc n) i forks h =
    let (pid, answer) = h i in
    let rest = started_all n (i + 1) forks h in rw (answer, started) (omega (arith, rest))

missing_part : (e live : ℕ) → pos_part (pos e -ℤ pos live) ≡ e - live
unfolding ◌-ℤ◌
missing_part e live = ground arith

one_below :
    (waited : ℤ) (e : ℕ)
    → 1 ≤ e
    → (pos e -ℤ pos (ended waited) ≡ pos (e - ended waited))
      × (e - ended waited ≤ e)
      × (e ≤ e - ended waited + 1)
unfolding ◌-ℤ◌
one_below (pos zero) e h = (ground arith, omega arith, omega arith)
one_below (pos (suc pid)) e h = (ground arith, omega arith, omega arith)
one_below (negsuc n) e h = (ground arith, omega arith, omega arith)

round-IsStaffed :
    (forks : ℕ → Forked) (waited : ℤ) (e live : ℕ) (s : TcpServer)
    → IsForking forks
    → pos 0 ≤ℤ waited
    → 1 ≤ e
    → IsStaffed e live s
    → (t : TcpServer) × (monitor_round forks waited s ≡ some t)
      × IsStaffed e (live + started (pos_part (missing s)) 0 forks - ended waited) t
round-IsStaffed forks waited e live s forking fine some_expected (expected, running, most, least) =
    let (t, runs, counts, same) =
      monitor_round_counts forks waited live s (forking-IsMaster forks forking) fine running in
    let lacking : pos_part (missing s) ≡ e - live = rw (expected, running) (missing_part e live) in
    let begun = started_all (pos_part (missing s)) 0 forks forking in
    let full : live + started (pos_part (missing s)) 0 forks ≡ e = omega (arith, lacking, begun) in
    (
      t,
      runs,
      rw full (
        same ∙ expected,
        counts ∙ ap (λ n. pos n -ℤ pos (ended waited)) full ∙ (one_below waited e some_expected).0,
        (one_below waited e some_expected).1,
        (one_below waited e some_expected).2,
      ),
    )

living_round :
    (forks : ℕ → Forked) (waited : ℤ) (rounds : List ((ℕ → Forked) × ℤ)) (live : ℕ)
    (s t : TcpServer)
    → monitor_round forks waited s ≡ some t
    → living ((forks, waited) ∷ rounds) live s
      ≡ living rounds (live + started (pos_part (missing s)) 0 forks - ended waited) t
living_round forks waited rounds live s t runs =
    ap
      (λ o. elim o [
        | none ↦ live + started (pos_part (missing s)) 0 forks - ended waited
        | some r ↦ living rounds (live + started (pos_part (missing s)) 0 forks - ended waited) r
      ])
      runs

monitor_slaves_loop-IsStaffed :
    (rounds : List ((ℕ → Forked) × ℤ)) (e live : ℕ) (s : TcpServer)
    → IsFine rounds
    → 1 ≤ e
    → IsStaffed e live s
    → (t : TcpServer) × (monitor_slaves_loop rounds s ≡ some t)
      × IsStaffed e (living rounds live s) t
unfolding monitor_slaves_loop
monitor_slaves_loop-IsStaffed [] e live s fine h staffed = (s, refl, staffed)
monitor_slaves_loop-IsStaffed ((forks, waited) ∷ rounds) e live s (forking, ok, fine) h staffed =
    let (t, runs, kept) = round-IsStaffed forks waited e live s forking ok h staffed in
    let (u, ends, kept') = monitor_slaves_loop-IsStaffed rounds e _ t fine h kept in
    (
      u,
      rw (runs, monitor_slaves_loop) ends,
      subst (λ n. IsStaffed e n u) (sym (living_round forks waited rounds live s t runs)) kept',
    )

listen_all-true :
    (listens : ℕ → Bool) (fds : List ℕ)
    → ((fd : ℕ) → listens fd ≡ true)
    → listen_all listens fds ≡ true
unfolding listen_all
listen_all-true listens [] h = refl
listen_all-true listens (fd ∷ fds) h = rw (h fd, listen_all) (listen_all-true listens fds h)

-- The number of the workers that `ListenAndFork` is asked for, where less than one counts for one.
abbrev pub wanted : ℤ → ℕ
wanted num = pos_part (if ltb_ℤ num (pos 1) then pos 1 else num)

all_started :
    (running : ℤ) (n begun : ℕ) → running ≡ pos 0 → begun ≡ n → running +ℤ pos (0 + begun) ≡ pos n
unfolding ◌+ℤ◌
all_started running n begun h k = rw (h, k) (ground arith)

wanted_pos : (num : ℤ) → (if ltb_ℤ num (pos 1) then pos 1 else num) ≡ pos (wanted num)
wanted_pos num = ground arith

wanted_some : (num : ℤ) → 1 ≤ wanted num
wanted_some num = ground arith

-- A server that counts no running workers, whose sockets listen and whose forks make workers, is
-- fully staffed after `ListenAndFork` with an empty list of processes: as many workers are expected
-- as were asked for, at least one. After any number of rounds of `MonitorSlavesLoop` without an error
-- all or all but one of these live, and they are counted as running.
pub monitor_slaves_loop-listen_and_fork :
    (listens : ℕ → Bool) (forks : ℕ → Forked) (num : ℤ) (s : TcpServer)
    (rounds : List ((ℕ → Forked) × ℤ))
    → ((fd : ℕ) → listens fd ≡ true)
    → IsForking forks
    → IsFine rounds
    → s.num_slave_running ≡ pos 0
    → (ok : Bool) × (t : TcpServer) × (u : TcpServer) × (listen_and_fork listens forks num [] s
        ≡ some (ok, t))
      × (t.num_slave_running ≡ pos (wanted num))
      × (monitor_slaves_loop rounds t ≡ some u)
      × IsStaffed (wanted num) (living rounds (started (wanted num) 0 forks) t) u
unfolding listen_and_fork
monitor_slaves_loop-listen_and_fork listens forks num s rounds hears forking fine none_yet =
    let asked = if ltb_ℤ num (pos 1) then pos 1 else num in
    let (ok, t, runs, counts, same) =
      fork_slaves_counts asked forks [] (record s { num_slave_expected = asked })
        (forking-IsMaster forks forking) in
    let begun = started_all (wanted num) 0 forks forking in
    let full = counts ∙ all_started s.num_slave_running (wanted num) _ none_yet begun in
    let (u, ends, kept) =
      monitor_slaves_loop-IsStaffed rounds (wanted num) (started (wanted num) 0 forks) t fine
        (wanted_some num)
        (
          same ∙ wanted_pos num,
          full ∙ ap pos (sym begun),
          omega (arith, begun),
          omega (arith, begun),
        ) in
    (
      ok,
      t,
      u,
      rw (listen_all-true listens s.listen_fd hears, listen_and_fork) runs,
      full,
      ends,
      kept,
    )
