-- ===== src/Examples/Servers.antt =====
-- CoSocket/example: the main functions of the servers. The answers of the system calls and the rounds
-- of `MonitorSlavesLoop`, which does not end, are arguments.
pub mod Running
use co_socket.Prelude.{
  ℕ, ◌%◌, ◌^◌, Bool, true, false, Option, none, some, List, [], ◌∷◌, ◌==◌, if◌then◌else◌,
}
use co_socket.Prelude.Int.{ℤ, pos}
use co_socket.TcpServer.{
  TcpServer, Forked, new_server, bind, set_request_handler, listen_and_fork, monitor_slaves_loop,
}

-- The calls of `Bind`: the socket that is made, whether its address is accepted, and the port. Their
-- results are not looked at.
pub bind_all : List (ℕ × Bool × ℕ) → TcpServer → TcpServer
bind_all [] s = s
bind_all ((fd, bound, port) ∷ rest) s = bind_all rest (bind fd bound port s).1

-- What happens outside: which sockets listen, what `fork` answers to `ListenAndFork`, and the rounds
-- of `MonitorSlavesLoop`.
pub record World : Type 0 where
  pub listens : ℕ → Bool
  pub forks : ℕ → Forked
  pub rounds : List ((ℕ → Forked) × ℤ)

pub forked : World → Option (Bool × TcpServer) → Option TcpServer
forked w none = none
forked w (some (ok, s)) = monitor_slaves_loop w.rounds s

-- The calls that all the main functions make, with the number of workers. `none` is the end of a
-- worker.
pub serve : List (ℕ × Bool × ℕ) → ℤ → World → Option TcpServer
unfolding bind_all forked
serve binds num w =
    forked w
      (listen_and_fork w.listens w.forks num [] (set_request_handler (bind_all binds new_server)))

-- `main` of echo/Echo.cpp and of http_server/HttpServer.cpp.
pub echo_main : ℕ → Bool → World → Option TcpServer
echo_main fd bound w = serve ((fd, bound, 12345) ∷ []) (pos 3) w

pub http_main : ℕ → Bool → World → Option TcpServer
http_main fd bound w = serve ((fd, bound, 12345) ∷ []) (pos 1) w

-- `main` of dont_use_other_routine_local_variable/Echo.cpp.
pub two_ports_main : ℕ → Bool → ℕ → Bool → World → Option TcpServer
two_ports_main fd bound fd' bound' w =
    serve ((fd, bound, 12345) ∷ (fd', bound', 34567) ∷ []) (pos 1) w

-- A `main` that tests the number of its arguments.
pub data Ran : Type 0 where
  usage : Ran
  served : Option TcpServer → Ran

-- `main` of tcp_proxy/TcpProxy.cpp; `port` is what `atoi` makes of its first argument, which is cut
-- down to an `unsigned short`.
pub proxy_main : ℕ → ℕ → ℕ → Bool → World → Ran
proxy_main argc port fd bound w =
    if argc == 3 then served (serve ((fd, bound, port % 2 ^ 16) ∷ []) (pos 3) w) else usage

-- `main` of throughput/ThroughputServer.cpp.
pub throughput_main : ℕ → ℕ → Bool → World → Ran
throughput_main argc fd bound w =
    if argc == 2 then served (serve ((fd, bound, 12345) ∷ []) (pos 1) w) else usage
