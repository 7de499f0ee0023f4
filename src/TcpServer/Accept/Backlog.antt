-- ===== src/TcpServer/Accept/Backlog.antt =====
-- What `DoAccept` makes of the connections that wait, and of an error that stays.
use Prim.Native.Nat.{bit_or}
use co_socket.Prelude.{
  ℕ, zero, suc, ◌+◌, ◌≡◌, ◌≤◌, ◌<◌, refl, ap, ◌∙◌, true, false, Option, none, some, List, [], ◌∷◌,
  ◌++◌, append-nil, append_assoc, arith,
}
use co_socket.Prelude.Int.{ℤ, pos, sub_ℕ}
use co_socket.Timestamp.{Timestamp}
use co_socket.Epoller.{EpollKernel}
use co_socket.CoSocket.State.{CoSocket}
use co_socket.CoSocket.Blocking.{Answer, result, error, Outcome, accept_waits}
use co_socket.Tcp.Connector.{TcpConnector, new_connector}
use co_socket.CoSocket.Blocking.Answers.{accept_result, accept_refused}
use co_socket.CoSocket.Loop.Spawn.{new_coroutine_kept}
use co_socket.TcpServer.{TcpServer}
use co_socket.TcpServer.Accept.{Worker, spawn_on_new_request, after_accept, do_accept}

-- The flags that are set for the connections of `n` rounds from round `i` on: those that they had,
-- with the bit 2048 of `O_NONBLOCK`.
abbrev pub flagged : (ℕ → ℕ) → (ℕ → ℕ) → ℕ → ℕ → List (ℕ × ℕ)
flagged get_flags fds zero i = []
flagged get_flags fds (suc n) i =
    (fds i, bit_or (get_flags (fds i)) 2048) ∷ flagged get_flags fds n (i + 1)

-- The functions that are started for them.
abbrev pub spawned : (TcpConnector → ℕ → ℕ) → ℕ → (ℕ → ℕ) → ℕ → ℕ → List ℕ
spawned bind_request port fds zero i = []
spawned bind_request port fds (suc n) i =
    bind_request (new_connector (fds i)) port ∷ spawned bind_request port fds n (i + 1)

-- What the worker is after it took `n` connections.
abbrev pub took :
    {K : Type 0} → (ℕ → ℕ) → (TcpConnector → ℕ → ℕ) → ℕ → (ℕ → ℕ) → ℕ → ℕ → Worker K → Worker K
took get_flags bind_request port fds n i w = record w {
  flags_set = w.flags_set ++ flagged get_flags fds n i;
  scheduler = record w.scheduler {
    co_func_list = w.scheduler.co_func_list ++ spawned bind_request port fds n i;
  };
}

module _ {K : Type 0} (resume : ℕ → CoSocket K → CoSocket K)
    (create : ℕ → CoSocket K → Option ℕ × CoSocket K) (kernel : EpollKernel K)
    (first second : ℕ → Answer) (get_flags : ℕ → ℕ) (bind_request : TcpConnector → ℕ → ℕ)
    (now : Timestamp) (fd port : ℕ) (server : TcpServer) where
  abbrev run : ℕ → ℕ → Worker K → Option (Outcome K × Worker K)
  run fuel i w =
      do_accept resume create kernel fuel i first second get_flags bind_request now fd port server w

  round_refused :
      (e fuel i : ℕ) (w : Worker K)
      → first i ≡ error (suc e)
      → accept_waits (suc e) ≡ false
      → run (suc fuel) i w ≡ run fuel (i + 1) w
  unfolding do_accept after_accept
  round_refused e fuel i w same known = rw (
    accept_refused kernel fd (sub_ℕ 0 1) now (first i) (second i) w.scheduler e same known,
    do_accept,
  )

  -- An error that `Accept` does not wait for and that stays, such as `EMFILE`, is asked for over and
  -- over: `DoAccept` never yields, and the worker does nothing else.
  pub do_accept_spins :
      (e fuel i : ℕ) (w : Worker K)
      → ((j : ℕ) → first j ≡ error (suc e))
      → accept_waits (suc e) ≡ false
      → do_accept resume create kernel fuel i first second get_flags bind_request now fd port server
          w
        ≡ none
  unfolding do_accept
  do_accept_spins e zero i w stays known = refl
  do_accept_spins e (suc fuel) i w stays known =
      round_refused e fuel i w (stays i) known ∙ do_accept_spins e fuel (i + 1) w stays known

  abbrev after : ℤ → Worker K → Worker K
  after ret w = after_accept resume create get_flags bind_request port server ret w

  after_accept_taken :
      (n co : ℕ) (w : Worker K)
      → server.has_handler ≡ true
      → w.scheduler.running ≡ some co
      → after (pos n) w ≡ took get_flags bind_request port (λ _. n) 1 0 w
  unfolding after_accept spawn_on_new_request
  after_accept_taken n co w handled running =
      rw (handled, after_accept)
        (ap
          (λ s. record w {
            flags_set = w.flags_set ++ (n, bit_or (get_flags n) 2048) ∷ [];
            scheduler = s;
          })
          (new_coroutine_kept resume create _ co w.scheduler running))

  round_taken :
      (n fuel i co : ℕ) (w : Worker K)
      → first i ≡ result n
      → server.has_handler ≡ true
      → w.scheduler.running ≡ some co
      → run (suc fuel) i w ≡ run fuel (i + 1) (took get_flags bind_request port (λ _. n) 1 0 w)
  unfolding do_accept
  round_taken n fuel i co w same handled running =
      rw
        (accept_result kernel fd (sub_ℕ 0 1) now (first i) (second i) w.scheduler n same, do_accept)
        (ap (run fuel (i + 1)) (after_accept_taken n co w handled running))

  took_none : (fds : ℕ → ℕ) (i : ℕ) (w : Worker K) → w ≡ took get_flags bind_request port fds 0 i w
  took_none fds i w =
      ap {A = List (ℕ × ℕ) × List ℕ}
        (λ r. record w { flags_set = r.0; scheduler = record w.scheduler { co_func_list = r.1 } })
        (cc (append-nil w.flags_set, append-nil w.scheduler.co_func_list))

  took_next :
      (fds : ℕ → ℕ) (n i : ℕ) (w : Worker K)
      → took get_flags bind_request port fds n
          (i + 1)
          (took get_flags bind_request port (λ _. fds i) 1 0 w)
        ≡ took get_flags bind_request port fds (suc n) i w
  took_next fds n i w =
      ap {A = List (ℕ × ℕ) × List ℕ}
        (λ r. record w { flags_set = r.0; scheduler = record w.scheduler { co_func_list = r.1 } })
        (cc (append_assoc w.flags_set _ _, append_assoc w.scheduler.co_func_list _ _))

  -- The connections that wait are each taken once, in their order: in each round the flags of the
  -- socket are set to those that it had with the bit 2048 of `O_NONBLOCK`, and the coroutine of the
  -- handler is started for it with the port, and then `Accept` is called again.
  pub do_accept_takes :
      (fds : ℕ → ℕ) (n fuel i co : ℕ) (w : Worker K)
      → ((j : ℕ) → i ≤ j → j < i + n → first j ≡ result (fds j))
      → server.has_handler ≡ true
      → w.scheduler.running ≡ some co
      → do_accept resume create kernel
          (n + fuel)
          i
          first
          second
          get_flags
          bind_request
          now
          fd
          port
          server
          w
        ≡ do_accept resume create kernel fuel
            (i + n)
            first
            second
            get_flags
            bind_request
            now
            fd
            port
            server
            (took get_flags bind_request port fds n i w)
  do_accept_takes fds zero fuel i co w waits handled running =
      ap (λ k. run k i w) (omega arith)
      ∙ ap (λ k. run fuel k w) (omega arith)
      ∙ ap (run fuel (i + 0)) (took_none fds i w)
  do_accept_takes fds (suc n) fuel i co w waits handled running =
      ap (λ k. run k i w) (omega arith)
      ∙ round_taken (fds i) (n + fuel) i co w (waits i (omega arith) (omega arith)) handled running
      ∙ do_accept_takes fds n fuel (i + 1) co (took get_flags bind_request port (λ _. fds i) 1 0 w)
          (λ j low high. waits j (omega arith) (omega arith)) handled running
      ∙ ap
          (λ k. run fuel k (
            took get_flags bind_request port fds n (i + 1)
              (took get_flags bind_request port (λ _. fds i) 1 0 w)))
          (omega arith)
      ∙ ap (run fuel (i + suc n)) (took_next fds n i w)
