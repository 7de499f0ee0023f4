-- ===== src/Tests/Echo.antt =====
-- A message in two frames at the server of http_server/HttpServer.cpp.
use co_socket.Prelude.{ℕ, zero, suc, Bool, true, some, List, [], ◌∷◌, Bytes, length}
use co_socket.Prelude.Int.{ℤ, pos}
use co_socket.Tcp.{Received, received}
use co_socket.Http.Parser.{Event}
use co_socket.Http.Decoder.{new_decoder}
use co_socket.WebSocket.Decoder as Messages
use co_socket.WebSocket.Encoder.{WebSocketEncoder, new_encoder}
use co_socket.WebSocket.Encoder.Message.{send}
use co_socket.Http.Dispatch.{new_dispatch}
use co_socket.Http.Dispatch.Serve.{Connection}
use co_socket.Examples.HttpServer.{web_socket_handle}

abbrev hello : Bytes
hello = 1 ∷ 2 ∷ 3 ∷ []

abbrev mask : Bytes
mask = 9 ∷ 8 ∷ 7 ∷ 6 ∷ []

abbrev client : WebSocketEncoder
client = record (new_encoder true) { frame_size = 2; content = hello; len = 3 }

abbrev no_events : Unit {0} → Bytes → List Event × Unit {0} × Bool
no_events t input = ([], t, true)

abbrev connected : Connection (Unit {0})
connected = record {
  dispatcher = record (new_dispatch true) {
    is_web_socket_req = true;
    ws_handler = some web_socket_handle;
  };
  request = new_decoder tt 0 0;
  ws_decoder = Messages.new_decoder;
}

-- A frame in two pieces, one whole, then the close of the peer.
abbrev fed : ℕ → Received
fed zero = received (2 ∷ 130 ∷ 9 ∷ [])
fed (suc zero) = received (8 ∷ 7 ∷ 6 ∷ 8 ∷ 10 ∷ [])
fed (suc (suc zero)) = received (128 ∷ 129 ∷ 9 ∷ 8 ∷ 7 ∷ 6 ∷ 10 ∷ [])
fed (suc (suc (suc i))) = received []

abbrev extra : ℕ → ℕ
extra zero = 1
extra (suc r) = 0

abbrev take_all : ℕ → ℕ → Bytes → ℤ
take_all i j bytes = pos (length bytes)

abbrev frames_sent : List Bytes
frames_sent = send 4 0 (λ r. mask) client
