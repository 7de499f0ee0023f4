-- ===== src/TcpServer/Accept.antt =====
-- CoSocket/net/TcpServer.cpp: a worker. The answers of the system calls are arguments; a function
-- object is a number that stands for it.
pub mod Backlog
use Prim.Native.Nat.{bit_or}
use co_socket.Prelude.{
  ℕ, zero, suc, ◌+◌, Bool, true, false, Option, none, some, List, [], ◌∷◌, ◌++◌,
}
use co_socket.Prelude.Int.{ℤ, pos, negsuc, sub_ℕ}
use co_socket.Timestamp.{Timestamp}
use co_socket.Epoller.{EpollKernel}
use co_socket.CoSocket.State.{CoSocket, new_co_socket}
use co_socket.CoSocket.Loop.{new_coroutine}
use co_socket.CoSocket.Blocking.{Answer, Outcome, returned, waiting, aborts}
use co_socket.CoSocket.Blocking as Calls
use co_socket.Tcp.Connector.{TcpConnector, new_connector, close}
use co_socket.TcpServer.{TcpServer, slave_run}

-- `flags | O_NONBLOCK`.
abbrev pub non_block : ℕ → ℕ
non_block flags = bit_or flags 2048

-- What a worker did: the flags that it set, the sockets that it closed, and its scheduler.
pub record Worker (K : Type 0) : Type 0 where
  pub flags_set : List (ℕ × ℕ)
  pub closed : List ℕ
  pub scheduler : CoSocket K

abbrev pub closing : Option ℕ → List ℕ
closing none = []
closing (some fd) = fd ∷ []

module _ {K : Type 0} (resume : ℕ → CoSocket K → CoSocket K)
    (create : ℕ → CoSocket K → Option ℕ × CoSocket K) where
  -- `bind_request` is `std::bind` of the handler.
  pub spawn_on_new_request : (TcpConnector → ℕ → ℕ) → TcpConnector → ℕ → CoSocket K → CoSocket K
  spawn_on_new_request bind_request connector port s =
      new_coroutine resume create (bind_request connector port) s

  -- One round of `DoAccept` after the answer of `Accept`; `get_flags` answers `F_GETFL`. Without a
  -- handler the socket is closed, and then the connector, which nobody else holds, is destroyed.
  pub after_accept : (ℕ → ℕ) → (TcpConnector → ℕ → ℕ) → ℕ → TcpServer → ℤ → Worker K → Worker K
  unfolding spawn_on_new_request
  after_accept get_flags bind_request port server (negsuc n) w = w
  after_accept get_flags bind_request port server (pos fd) w =
      let w' = record w { flags_set = w.flags_set ++ (fd, non_block (get_flags fd)) ∷ [] } in
      elim server.has_handler [
        | true ↦ record w' {
          scheduler = spawn_on_new_request bind_request (new_connector fd) port w'.scheduler;
        }
        | false ↦ record w' { closed = w'.closed ++ (fd ∷ closing (close (new_connector fd)).0) }
      ]

  module _ (kernel : EpollKernel K) where
    -- `DoAccept` until it yields or aborts: rounds `i` of the two system calls of `Accept` answer
    -- `first i` and `second i`. On fuel: `none` means that it ran out.
    pub do_accept :
        ℕ
        → ℕ
        → (ℕ → Answer)
        → (ℕ → Answer)
        → (ℕ → ℕ)
        → (TcpConnector → ℕ → ℕ)
        → Timestamp
        → ℕ
        → ℕ
        → TcpServer
        → Worker K
        → Option (Outcome K × Worker K)
    unfolding after_accept
    do_accept zero i first second get_flags bind_request now fd port server w = none
    do_accept (suc fuel) i first second get_flags bind_request now fd port server w =
        elim (Calls.accept kernel fd (sub_ℕ 0 1) now (first i) (second i) w.scheduler) [
          | waiting s ↦ some (waiting s, record w { scheduler = s })
          | aborts ↦ some (aborts, w)
          | returned ret s ↦
              do_accept fuel (i + 1) first second get_flags bind_request now fd port server
                (after_accept get_flags bind_request port server ret (record w { scheduler = s }))
        ]

  start_all : (ℕ → ℕ → ℕ) → List (ℕ × ℕ) → CoSocket K → CoSocket K
  start_all bind_accept [] s = s
  start_all bind_accept ((fd, port) ∷ rest) s =
      start_all bind_accept rest (new_coroutine resume create (bind_accept fd port) s)

  -- `SlaveRun` up to the event loop, with the poller `k` of the new scheduler; `bind_accept` is
  -- `std::bind` of `DoAccept`.
  pub slave_start : (ℕ → ℕ → ℕ) → K → TcpServer → CoSocket K
  unfolding start_all
  slave_start bind_accept k server =
      start_all bind_accept (slave_run server.listen_fd server.ports) (new_co_socket k)
