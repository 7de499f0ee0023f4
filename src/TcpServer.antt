-- ===== src/TcpServer.antt =====
-- CoSocket/net/TcpServer.cpp: the listening sockets, the supervision of the worker processes. The
-- answers of the system calls are arguments. The counts of the workers are `int` in the source and
-- integers here, without its overflow.
pub mod Supervision
pub mod Staff
pub mod Drift
pub mod Same
pub mod Sockets
pub mod Accept
use co_socket.Prelude.{
  ℕ, zero, suc, ◌+◌, Bool, true, false, not, Option, none, some, List, [], ◌∷◌, ◌++◌, ltb, ◌==◌,
  if◌then◌else◌, length,
}
use co_socket.Prelude.Int.{ℤ, pos, negsuc, pos_part, neg_part, sub_ℕ, ◌+ℤ◌, ◌-ℤ◌, ltb_ℤ}

pub record TcpServer : Type 0 where
  pub listen_fd : List ℕ
  pub ports : List ℕ
  pub num_slave_expected : ℤ
  pub num_slave_running : ℤ
  pub has_handler : Bool

-- The constructor.
abbrev pub new_server : TcpServer
new_server = record {
  listen_fd = [];
  ports = [];
  num_slave_expected = pos 0;
  num_slave_running = pos 0;
  has_handler = false;
}

-- `Bind`: `listen_fd` is the socket that was made, `bound` whether `bind` accepted its address.
unfoldable pub bind : ℕ → Bool → ℕ → TcpServer → Bool × TcpServer
bind fd bound port s =
    if not bound
    then (false, s)
    else (true, record s { ports = s.ports ++ port ∷ []; listen_fd = s.listen_fd ++ fd ∷ [] })

-- The destructor: the sockets that it closes.
pub closed_at_end : TcpServer → List ℕ
closed_at_end s = s.listen_fd

-- `SetRequestHandler`, with a function that is not empty.
unfoldable pub set_request_handler : TcpServer → TcpServer
set_request_handler s = record s { has_handler = true }

-- `Listen`, with what `listen` answers for each socket.
pub listen_all : (ℕ → Bool) → List ℕ → Bool
listen_all listens [] = true
listen_all listens (fd ∷ fds) =
    let rest = listen_all listens fds in if not (listens fd) then false else rest

-- What `fork` returns: in the worker, in the master with the worker's process, or its failure.
pub data Forked : Type 0 where
  in_worker : Forked
  in_master : ℕ → Forked
  fork_failed : Forked

-- The loop of `ForkSlaves`, with the rounds left and the index of the round. `none` is the end of a
-- worker: its event loop does not return.
pub fork_loop : ℕ → ℕ → (ℕ → Forked) → List ℕ → Option (List ℕ)
fork_loop zero i forks ids = some ids
fork_loop (suc n) i forks ids = elim (forks i) [
  | in_worker ↦ none
  | in_master pid ↦ fork_loop n (i + 1) forks (ids ++ pid ∷ [])
  | fork_failed ↦ fork_loop n (i + 1) forks ids
]

abbrev pub is_empty : List ℕ → Bool
is_empty [] = true
is_empty (x ∷ xs) = false

-- `ForkSlaves`; the list of the processes is the callee's own copy.
pub fork_slaves : ℤ → (ℕ → Forked) → List ℕ → TcpServer → Option (Bool × TcpServer)
unfolding fork_loop
fork_slaves num forks ids s = elim (fork_loop (pos_part num) 0 forks ids) [
  | none ↦ none
  | some ids' ↦ some (
    not (is_empty ids'),
    record s { num_slave_running = s.num_slave_running +ℤ pos (length ids') },
  )
]

-- `ListenAndFork`.
pub listen_and_fork : (ℕ → Bool) → (ℕ → Forked) → ℤ → List ℕ → TcpServer → Option (Bool × TcpServer)
listen_and_fork listens forks num ids s =
    let num' = if ltb_ℤ num (pos 1) then pos 1 else num in
    if not (listen_all listens s.listen_fd)
    then some (false, s)
    else fork_slaves num' forks ids (record s { num_slave_expected = num' })

-- `if (waitpid(-1, 0, WNOHANG))`, where -1 is an error, 0 that no worker has ended.
pub after_wait : ℤ → TcpServer → TcpServer
after_wait (pos zero) s = s
after_wait (pos (suc pid)) s = record s { num_slave_running = s.num_slave_running -ℤ pos 1 }
after_wait (negsuc n) s = record s { num_slave_running = s.num_slave_running -ℤ pos 1 }

-- The start of a round: how many workers are missing.
abbrev pub missing : TcpServer → ℤ
missing s = s.num_slave_expected -ℤ s.num_slave_running

-- One round of `MonitorSlavesLoop`.
pub monitor_round : (ℕ → Forked) → ℤ → TcpServer → Option TcpServer
unfolding after_wait
monitor_round forks waited s =
    if ltb_ℤ (pos 0) (missing s)
    then elim (fork_slaves (missing s) forks [] s) [
      | none ↦ none
      | some (started, s') ↦ some (after_wait waited s')
    ]
    else some (after_wait waited s)

-- `MonitorSlavesLoop`, for the rounds of which the answers of `fork` and `waitpid` are given.
pub monitor_slaves_loop : List ((ℕ → Forked) × ℤ) → TcpServer → Option TcpServer
monitor_slaves_loop [] s = some s
monitor_slaves_loop ((forks, waited) ∷ rounds) s = elim (monitor_round forks waited s) [
  | none ↦ none
  | some s' ↦ monitor_slaves_loop rounds s'
]

-- The coroutines that `SlaveRun` starts: one for each socket, with the port of the same index.
unfoldable pub slave_run : List ℕ → List ℕ → List (ℕ × ℕ)
slave_run [] ports = []
slave_run (fd ∷ fds) [] = []
slave_run (fd ∷ fds) (port ∷ ports) = (fd, port) ∷ slave_run fds ports
