-- ===== src/Examples/HttpServer/Message.antt =====
-- A message of a client at the server of http_server/HttpServer.cpp: its frames through the rounds of
-- `operator()`, and the frames of the answer at a reader.
use co_socket.Prelude.{ℕ, ◌+◌, ◌≤◌, ◌<◌, ◌≡◌, ◌≢◌, Bool, true, List, Bytes, Option}
use co_socket.Prelude.Int.{ℤ}
use co_socket.Tcp.{Received}
use co_socket.WebSocket.Parser.Decode.{IsIdle, reset-IsIdle}
use co_socket.WebSocket.Parser.{WebSocketParser}
use co_socket.WebSocket.Parser.Decode as Decode
use co_socket.WebSocket.Encoder.Rounds.{IsMask}
use co_socket.Http.Parser.{Event}
use co_socket.Http.Dispatch.Serve.{Verdict, Connection}
use co_socket.Examples.HttpServer.Arrivals.{Feeds, rounds_of, at_round}

module _ {P : Type 0} (execute : P → Bytes → List Event × P × Bool) (accept_key : Bytes → Bytes)
    (tokenizer : P) (frames : ℕ) (read : ℕ → Received) (write : ℕ → ℕ → Bytes → ℤ) (size : ℕ)
    (positive : 0 < size) (short : size < 65536) (no_126 : size ≢ 126) (masks : ℕ → Bytes)
    (drawn : (j : ℕ) → IsMask (masks j)) (cuts : ℕ → ℕ) (c : Connection P)
    (upgraded : c.dispatcher.is_web_socket_req ≡ true) where
  abbrev running : ℕ → ℕ → WebSocketParser → Option (Verdict × Connection P)
  running = at_round execute accept_key tokenizer frames read write c upgraded

  -- The reads of the frames, in no more rounds than there are.
  abbrev Fits : ℕ → ℕ → ℕ → ℕ → List Bytes → Type 0
  Fits rounds i r last_round fs =
      Feeds read cuts i r fs
      × (rounds_of cuts r fs ≤ rounds)
      × (i + rounds_of cuts r fs ≡ last_round + 2)
