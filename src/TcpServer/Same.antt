-- ===== src/TcpServer/Same.antt =====
-- The sockets and the handler, which the supervision of the workers leaves alone.
use co_socket.Prelude.{
  ℕ, zero, suc, ◌≡◌, refl, subst, ◌∙◌, Bool, Option, none, some, List, [], ◌∷◌, Option-cases,
  Bool-cases, inl, inr, if◌then◌else◌,
}
use co_socket.Prelude.Int.{ℤ, pos, negsuc, pos_part, ltb_ℤ}
use co_socket.TcpServer.{
  TcpServer, Forked, fork_loop, fork_slaves, listen_all, after_wait, missing, monitor_round,
  listen_and_fork, monitor_slaves_loop,
}

-- The same sockets and the same handler.
abbrev pub Same : TcpServer → TcpServer → Type 0
Same s t = (t.listen_fd ≡ s.listen_fd) × (t.ports ≡ s.ports) × (t.has_handler ≡ s.has_handler)

pub Same-trans : (s t u : TcpServer) → Same s t → Same t u → Same s u
Same-trans s t u (a, b, c) (d, e, f) = (d ∙ a, e ∙ b, f ∙ c)

-- A result, where there is one, has the same sockets.
abbrev Keeps : TcpServer → Option (Bool × TcpServer) → Type 0
Keeps s none = Unit
Keeps s (some (ok, t)) = Same s t

abbrev KeepsIn : TcpServer → Option TcpServer → Type 0
KeepsIn s none = Unit
KeepsIn s (some t) = Same s t

fork_slaves-Keeps :
    (num : ℤ) (forks : ℕ → Forked) (ids : List ℕ) (s : TcpServer)
    → Keeps s (fork_slaves num forks ids s)
unfolding fork_slaves
fork_slaves-Keeps num forks ids s = elim (Option-cases (fork_loop (pos_part num) 0 forks ids)) [
  | inl ends ↦ rw (ends, fork_slaves) tt
  | inr (ids', goes) ↦ rw (goes, fork_slaves) (refl, refl, refl)
]

after_wait-Same : (waited : ℤ) (s : TcpServer) → Same s (after_wait waited s)
unfolding after_wait
after_wait-Same (pos zero) s = (refl, refl, refl)
after_wait-Same (pos (suc pid)) s = (refl, refl, refl)
after_wait-Same (negsuc n) s = (refl, refl, refl)

onwards : (s t : TcpServer) (r : Option TcpServer) → Same s t → KeepsIn t r → KeepsIn s r
onwards s t none h k = tt
onwards s t (some u) h k = Same-trans s t u h k

waited-KeepsIn :
    (waited : ℤ) (s : TcpServer) (r : Option (Bool × TcpServer))
    → Keeps s r
    → KeepsIn s
        (elim r as (λ x. Option TcpServer) [ none ↦ none | some x ↦ some (after_wait waited x.1) ])
waited-KeepsIn waited s none h = tt
waited-KeepsIn waited s (some (ok, t)) h =
    Same-trans s t (after_wait waited t) h (after_wait-Same waited t)

monitor_round-KeepsIn :
    (forks : ℕ → Forked) (waited : ℤ) (s : TcpServer) → KeepsIn s (monitor_round forks waited s)
unfolding monitor_round
monitor_round-KeepsIn forks waited s = elim (Bool-cases (ltb_ℤ (pos 0) (missing s))) [
  | inl some_missing ↦ rw some_missing (
      waited-KeepsIn waited s (fork_slaves (missing s) forks [] s)
        (fork_slaves-Keeps (missing s) forks [] s))
  | inr enough ↦ rw enough (after_wait-Same waited s)
]

then-KeepsIn :
    (s : TcpServer) (go : TcpServer → Option TcpServer) (r : Option TcpServer)
    → KeepsIn s r
    → ((t : TcpServer) → KeepsIn t (go t))
    → KeepsIn s (elim r as (λ x. Option TcpServer) [ none ↦ none | some x ↦ go x ])
then-KeepsIn s go none h k = tt
then-KeepsIn s go (some t) h k = onwards s t (go t) h (k t)

monitor_slaves_loop-KeepsIn :
    (rounds : List ((ℕ → Forked) × ℤ)) (s : TcpServer) → KeepsIn s (monitor_slaves_loop rounds s)
unfolding monitor_slaves_loop
monitor_slaves_loop-KeepsIn [] s = (refl, refl, refl)
monitor_slaves_loop-KeepsIn ((forks, waited) ∷ rounds) s =
    then-KeepsIn s (monitor_slaves_loop rounds) (monitor_round forks waited s)
      (monitor_round-KeepsIn forks waited s) (monitor_slaves_loop-KeepsIn rounds)

pub monitor_slaves_loop-Same :
    (rounds : List ((ℕ → Forked) × ℤ)) (s t : TcpServer)
    → monitor_slaves_loop rounds s ≡ some t
    → Same s t
monitor_slaves_loop-Same rounds s t e = subst (KeepsIn s) e (monitor_slaves_loop-KeepsIn rounds s)

pub listen_and_fork-Same :
    (listens : ℕ → Bool) (forks : ℕ → Forked) (num : ℤ) (ids : List ℕ) (s t : TcpServer) (ok : Bool)
    → listen_and_fork listens forks num ids s ≡ some (ok, t)
    → Same s t
unfolding listen_and_fork
listen_and_fork-Same listens forks num ids s t ok e =
    let asked = if ltb_ℤ num (pos 1) then pos 1 else num in
    subst (Keeps s) e (elim (Bool-cases (listen_all listens s.listen_fd)) [
      | inl all ↦
          rw all (fork_slaves-Keeps asked forks ids (record s { num_slave_expected = asked }))
      | inr some_fail ↦ rw some_fail (refl, refl, refl)
    ])
