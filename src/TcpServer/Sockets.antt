-- ===== src/TcpServer/Sockets.antt =====
-- The sockets with their ports.
use co_socket.Prelude.{
  ℕ, ◌≡◌, refl, ap, Bool, true, false, List, [], ◌∷◌, ◌++◌, arith, if◌then◌else◌, length,
  length-append,
}
use co_socket.TcpServer.{TcpServer, bind, slave_run}

slave_run-append :
    (fds ports : List ℕ) (fd port : ℕ)
    → length fds ≡ length ports
    → slave_run (fds ++ fd ∷ []) (ports ++ port ∷ []) ≡ slave_run fds ports ++ (fd, port) ∷ []
unfolding slave_run
slave_run-append [] [] fd port h = refl
slave_run-append [] (p ∷ ports) fd port h = absurd (omega arith)
slave_run-append (f ∷ fds) [] fd port h = absurd (omega arith)
slave_run-append (f ∷ fds) (p ∷ ports) fd port h =
    ap (◌∷◌ (f, p)) (slave_run-append fds ports fd port (omega arith))

-- Each socket has its port: `Bind` adds both or neither.
pub bind-slave_run :
    (fd : ℕ) (bound : Bool) (port : ℕ) (s : TcpServer)
    → length s.listen_fd ≡ length s.ports
    → let (ok, t) = bind fd bound port s in
      (length t.listen_fd ≡ length t.ports)
      × (slave_run t.listen_fd t.ports ≡ (
          if ok
          then slave_run s.listen_fd s.ports ++ (fd, port) ∷ []
          else slave_run s.listen_fd s.ports))
unfolding bind slave_run
bind-slave_run fd false port s h = (h, refl)
bind-slave_run fd true port s h = (
  omega (arith, length-append s.listen_fd (fd ∷ []), length-append s.ports (port ∷ [])),
  slave_run-append s.listen_fd s.ports fd port h,
)
