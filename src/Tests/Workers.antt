-- ===== src/Tests/Workers.antt =====
-- The server's master, its sockets and the timer at concrete inputs.
use co_socket.Prelude.{
  ℕ, zero, suc, ◌+◌, ◌*◌, ◌<◌, ◌≡◌, refl, Bool, true, false, some, List, [], ◌∷◌, ◌++◌, length,
  arith, if◌then◌else◌,
}
use co_socket.Prelude.Int.{ℤ, pos, ◌+ℤ◌, ◌-ℤ◌, pos_part}
use co_socket.TcpServer.{
  TcpServer, new_server, bind, set_request_handler, Forked, in_master, fork_failed, fork_slaves,
  missing, monitor_round, listen_and_fork, slave_run,
}
use co_socket.TcpServer.Supervision.{
  started, IsMaster, ended, fork_slaves_counts, monitor_round_counts,
}
use co_socket.TcpServer.Staff.{IsForking, IsStaffed, living}
use co_socket.TcpServer.Drift.{failing_rounds, failing_rounds_drift}
use co_socket.TcpServer.Sockets.{bind-slave_run}
use co_socket.Examples.Servers.{World, bind_all, serve}
use co_socket.Examples.Servers.Running.{IsKind, serve_lem}
use co_socket.Timer.{timer_value, timer_value_lem}

-- Every second fork fails.
abbrev forks : ℕ → Forked
forks zero = in_master 100
forks (suc i) = fork_failed

forks-IsMaster : IsMaster forks
forks-IsMaster zero e = cc
forks-IsMaster (suc i) e = cc

abbrev server : TcpServer
server = record new_server { num_slave_expected = pos 3; num_slave_running = pos 1 }

fork_slaves_counts_example :
    (ok : Bool) × (t : TcpServer) × (fork_slaves (pos 2) forks (7 ∷ []) server ≡ some (ok, t))
    × (t.num_slave_running ≡ pos 1 +ℤ pos (1 + started 2 0 forks))
    × (t.num_slave_expected ≡ pos 3)
fork_slaves_counts_example = fork_slaves_counts (pos 2) forks (7 ∷ []) server forks-IsMaster

monitor_round_counts_example :
    (t : TcpServer) × (monitor_round forks (pos 100) server ≡ some t)
    × (t.num_slave_running
        ≡ pos (1 + started (pos_part (missing server)) 0 forks) -ℤ pos (ended (pos 100)))
    × (t.num_slave_expected ≡ server.num_slave_expected)
monitor_round_counts_example =
    monitor_round_counts forks (pos 100) 1 server forks-IsMaster (ground arith) refl

abbrev all_forks : ℕ → Forked
all_forks i = in_master (100 + i)

all_forks-IsForking : IsForking all_forks
all_forks-IsForking i = (100 + i, refl)

abbrev rounds : List ((ℕ → Forked) × ℤ)
rounds = (all_forks, pos 101) ∷ (all_forks, pos 0) ∷ []

-- A worker ends in the first round, and the second starts another.
abbrev world : World
world = record { listens = λ fd. true; forks = all_forks; rounds = rounds }

world-IsKind : IsKind world
world-IsKind = record {
  hears = λ fd. refl;
  forking = all_forks-IsForking;
  fine = (all_forks-IsForking, ground arith, (all_forks-IsForking, ground arith, tt));
}

-- Of two addresses the second is taken.
serve_lem_example :
    (ok : Bool) × (t : TcpServer) × (u : TcpServer) × (listen_and_fork world.listens world.forks
        (pos 2)
        []
        (set_request_handler (bind_all ((6, true, 80) ∷ (7, false, 81) ∷ []) new_server))
      ≡ some (ok, t))
    × (serve ((6, true, 80) ∷ (7, false, 81) ∷ []) (pos 2) world ≡ some u)
    × IsStaffed 2 (living world.rounds (started 2 0 world.forks) t) u
    × (slave_run u.listen_fd u.ports ≡ (6, 80) ∷ [])
    × (u.has_handler ≡ true)
serve_lem_example = serve_lem ((6, true, 80) ∷ (7, false, 81) ∷ []) (pos 2) world world-IsKind

failing_rounds_drift_example :
    (t : TcpServer) × (failing_rounds 5 server ≡ some t) × (missing t ≡ missing server +ℤ pos 5)
failing_rounds_drift_example = failing_rounds_drift 5 server

bind-slave_run_example :
    let (ok, t) = bind 6 true 80 new_server in
    (length t.listen_fd ≡ length t.ports)
    × (slave_run t.listen_fd t.ports
        ≡ (if ok then slave_run [] [] ++ (6, 80) ∷ [] else slave_run [] []))
bind-slave_run_example = bind-slave_run 6 true 80 new_server refl

timer_value_lem_example :
    (sec nsec : ℕ) × (timer_value (pos 1500) ≡ record { tv_sec = pos sec; tv_nsec = pos nsec })
    × (nsec < 1000000000)
    × (sec * 1000 * 1000000 + nsec ≡ 1500 * 1000000)
timer_value_lem_example = timer_value_lem 1500
