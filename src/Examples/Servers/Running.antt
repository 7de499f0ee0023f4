-- ===== src/Examples/Servers/Running.antt =====
-- The servers of the examples, from their sockets to their workers.
use co_socket.Prelude.{
  ℕ, ◌≡◌, refl, sym, ap, ◌∙◌, Bool, true, false, some, List, [], ◌∷◌, ◌++◌, append_assoc,
  append-nil, length,
}
use co_socket.Prelude.Int.{ℤ}
use co_socket.TcpServer.{
  TcpServer, new_server, bind, set_request_handler, listen_and_fork, slave_run,
}
use co_socket.TcpServer.Supervision.{started}
use co_socket.TcpServer.Sockets.{bind-slave_run}
use co_socket.TcpServer.Same.{Same-trans, listen_and_fork-Same, monitor_slaves_loop-Same}
use co_socket.TcpServer.Staff.{
  IsForking, IsFine, IsStaffed, living, wanted, monitor_slaves_loop-listen_and_fork,
}
use co_socket.Examples.Servers.{bind_all, World, forked, serve}

-- The sockets whose addresses were accepted, with their ports.
abbrev pub accepted : List (ℕ × Bool × ℕ) → List (ℕ × ℕ)
accepted [] = []
accepted ((fd, true, port) ∷ rest) = (fd, port) ∷ accepted rest
accepted ((fd, false, port) ∷ rest) = accepted rest

bind_all-slave_run :
    (binds : List (ℕ × Bool × ℕ)) (s : TcpServer)
    → length s.listen_fd ≡ length s.ports
    → let t = bind_all binds s in
      (slave_run t.listen_fd t.ports ≡ slave_run s.listen_fd s.ports ++ accepted binds)
      × (t.num_slave_running ≡ s.num_slave_running)
unfolding bind_all bind
bind_all-slave_run [] s h = (sym (append-nil _), refl)
bind_all-slave_run ((fd, true, port) ∷ rest) s h =
    let (fits, one) = bind-slave_run fd true port s h in
    let (all, same) = bind_all-slave_run rest (bind fd true port s).1 fits in
    (
      all
          ∙ ap (λ xs. xs ++ accepted rest) one
          ∙ append_assoc (slave_run s.listen_fd s.ports) ((fd, port) ∷ []) (accepted rest),
      same,
    )
bind_all-slave_run ((fd, false, port) ∷ rest) s h = bind_all-slave_run rest s h

-- A world without errors after the sockets were made.
pub record IsKind (w : World) : Type 0 where
  pub hears : (fd : ℕ) → w.listens fd ≡ true
  pub forking : IsForking w.forks
  pub fine : IsFine w.rounds

-- The main functions of the servers, with any calls of `Bind` and any number of workers: if all
-- sockets listen, each `fork` makes a worker and `waitpid` meets no error, the master goes on
-- through all rounds, and then the workers that the forks of `ListenAndFork` and of all rounds made,
-- less those whose end `waitpid` answered, are as many as are counted, and all or all but one of
-- those that were asked for, at least one. And each worker accepts on the sockets whose `Bind`
-- succeeded, on each with its port and in the order of the calls, with the handler set.
pub serve_lem :
    (binds : List (ℕ × Bool × ℕ)) (num : ℤ) (w : World)
    → IsKind w
    → (ok : Bool) × (t : TcpServer) × (u : TcpServer) × (listen_and_fork w.listens w.forks num []
          (set_request_handler (bind_all binds new_server))
        ≡ some (ok, t))
      × (serve binds num w ≡ some u)
      × IsStaffed (wanted num) (living w.rounds (started (wanted num) 0 w.forks) t) u
      × (slave_run u.listen_fd u.ports ≡ accepted binds)
      × (u.has_handler ≡ true)
unfolding serve set_request_handler slave_run
serve_lem binds num w kind =
    let s = set_request_handler (bind_all binds new_server) in
    let (sockets, none_yet) = bind_all-slave_run binds new_server refl in
    let (ok, t, u, starts, full, runs, staffed) =
      monitor_slaves_loop-listen_and_fork w.listens w.forks num s w.rounds kind.hears kind.forking
        kind.fine none_yet in
    let (fds, ports, handler) =
      Same-trans s t u (listen_and_fork-Same w.listens w.forks num [] s t ok starts)
        (monitor_slaves_loop-Same w.rounds t u runs) in
    (
      ok,
      t,
      u,
      starts,
      ap (forked w) starts ∙ runs,
      staffed,
      ap (slave_run u.listen_fd) ports ∙ ap (λ xs. slave_run xs s.ports) fds ∙ sockets,
      handler,
    )
