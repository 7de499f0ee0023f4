-- ===== src/Tests/Programs.antt =====
-- Workers and the example programs at concrete inputs.
use co_socket.Prelude.{
  ℕ, zero, suc, ◌+◌, ◌≡◌, ◌≤◌, ◌<◌, refl, true, Option, none, some, [], ◌∷◌, ◌++◌, Bytes, arith,
  length,
}
use co_socket.Prelude.Int.{ℤ, pos}
use co_socket.Timestamp.{Timestamp}
use co_socket.CoSocket.State.{CoSocket, new_co_socket}
use co_socket.CoSocket.Blocking.{Answer, result, error}
use co_socket.Tcp.{Received, received}
use co_socket.Tcp.Connector.{TcpConnector}
use co_socket.TcpServer.{TcpServer, new_server}
use co_socket.TcpServer.Accept.{Worker, do_accept}
use co_socket.TcpServer.Accept.Backlog.{took, do_accept_takes, do_accept_spins}
use co_socket.CoSocket.Conditions.{CoQueue, new_queue, queue_of, get_condition}
use co_socket.CoSocket.Buffer.{Buffer}
use co_socket.Examples.Forward.{forward_loop}
use co_socket.Examples.Forward.Order.{read_from, Stops, forward_loop_lem}
use co_socket.Examples.Throughput.{
  writes, stopped, Relay, start_relay, read_round, reads, Reach, begun, next,
}
use co_socket.Examples.Throughput.Queued.{pending}
use co_socket.Examples.Throughput.Relayed.{relayed_in_order}
use co_socket.Tests.Poller.{Table, closed, table}

abbrev worker : Worker Table
worker = record {
  flags_set = [];
  closed = [];
  scheduler = record (new_co_socket closed) { running = some 7 };
}

abbrev create : ℕ → CoSocket Table → Option ℕ × CoSocket Table
create func s = (some func, s)

abbrev serving : TcpServer
serving = record new_server { has_handler = true }

-- Two connections wait.
abbrev backlog : ℕ → Answer
backlog zero = result 8
backlog (suc zero) = result 9
backlog (suc (suc i)) = error 11

abbrev sockets : ℕ → ℕ
sockets i = 8 + i

backlog-sockets : (j : ℕ) → 0 ≤ j → j < 0 + 2 → backlog j ≡ result (sockets j)
backlog-sockets zero low high = refl
backlog-sockets (suc zero) low high = refl
backlog-sockets (suc (suc j)) low high = absurd (omega arith)

abbrev start : Timestamp
start = record { tv_sec = pos 0; tv_usec = pos 0 }

-- `bind_request` answers the number of the port.
abbrev handler : TcpConnector → ℕ → ℕ
handler connector port = port

do_accept_takes_example :
    do_accept
      (λ co s. s)
      create
      table
      (2 + 1)
      0
      backlog
      backlog
      (λ fd. 2)
      handler
      start
      6
      80
      serving
      worker
    ≡ do_accept
        (λ co s. s)
        create
        table
        1
        (0 + 2)
        backlog
        backlog
        (λ fd. 2)
        handler
        start
        6
        80
        serving
        (took (λ fd. 2) handler 80 sockets 2 0 worker)
do_accept_takes_example =
    do_accept_takes (λ co s. s) create table backlog backlog (λ fd. 2) handler start 6 80 serving
      sockets 2 1 0 7 worker backlog-sockets refl refl

-- 24 is `EMFILE`.
do_accept_spins_example :
    do_accept
      (λ co s. s)
      create
      table
      9
      0
      (λ i. error 24)
      (λ i. error 24)
      (λ fd. 2)
      handler
      start
      6
      80
      serving
      worker
    ≡ none
do_accept_spins_example =
    do_accept_spins (λ co s. s) create table (λ i. error 24) (λ i. error 24) (λ fd. 2) handler start
      6 80 serving 23 9 0 worker (λ j. refl) refl

-- Two reads and the end of the input; every write is completed.
abbrev arrives : ℕ → Received
arrives zero = received (b'h' ∷ [])
arrives (suc zero) = received (b'i' ∷ [])
arrives (suc (suc i)) = received []

abbrev completes : ℕ → Bytes → ℤ
completes i bs = pos (length bs)

forward_loop_lem_example :
    (n : ℕ) × (n ≤ 2)
    × Stops completes n (arrives n)
    × (forward_loop (2 + 1) 0 arrives completes [] ≡ some (read_from arrives 0 n))
forward_loop_lem_example = forward_loop_lem arrives completes 2 (λ h. h)

-- A connection that reads a byte, writes it, and stops.
abbrev queue_made : CoQueue Buffer
queue_made = record { condition = 0; queue = [] }

abbrev scheduler_then : CoSocket Table
scheduler_then = record (new_co_socket closed) { condition_counter = 1 }

queue_made_lem : new_queue (new_co_socket closed) ≡ some (queue_made, scheduler_then)
unfolding new_queue queue_of get_condition
queue_made_lem = refl

abbrev at_start : Relay Table
at_start = start_relay queue_made scheduler_then

abbrev after_read : Relay Table
after_read = read_round 4 [] (received (b'x' ∷ [])) at_start

abbrev reached : Reach after_read
reached =
    next (begun (new_co_socket closed) queue_made_lem) (reads 4 [] (received (b'x' ∷ [])) refl)

relayed_in_order_example :
    ((rest : Bytes) × (after_read.written ++ rest ≡ after_read.read))
    × (after_read.writing ≡ writes
        → after_read.written ++ pending after_read.queue.queue ≡ after_read.read)
    × (after_read.writing ≡ stopped → after_read.written ≡ after_read.read)
relayed_in_order_example = relayed_in_order after_read reached
