-- ===== src/Tests/Dispatch.antt =====
-- Routes and connections at concrete inputs, with a tokenizer that reports no event.
use co_socket.Prelude.{
  ℕ, zero, suc, ◌+◌, ◌≡◌, ◌≢◌, ◌++◌, refl, Bool, true, false, none, some, List, [], ◌∷◌, Bytes,
  arith,
}
use co_socket.Prelude.Int.{ℤ, pos}
use co_socket.Prelude.Text.{ascii}
use co_socket.Tcp.{Received, received}
use co_socket.Http.Table.{find}
use co_socket.Http.Parser.{Event, new_parser}
use co_socket.Http.Parser as Requests
use co_socket.Http.Decoder.{HttpDecoder, new_decoder, get_body, get_header}
use co_socket.Http.Encoder.{new_encoder, set_body}
use co_socket.WebSocket.Decoder.{WebSocketDecoder}
use co_socket.WebSocket.Decoder as Messages
use co_socket.WebSocket.Parser.{fresh, max_length}
use co_socket.WebSocket.Parser.Decode.{client_frame, after_frame}
use co_socket.WebSocket.Encoder.{WebSocketEncoder}
use co_socket.WebSocket.Encoder as Sender
use co_socket.Http.Dispatch.{
  HttpDispatch, Handler, HttpHandler, new_dispatch, same_key, dispatch, response_http_not_found,
  response_web_socket_handshake,
}
use co_socket.Http.Dispatch.Serve.{Verdict, goes_on, Connection, response_web_socket_data, serve}
use co_socket.Http.Dispatch.Frames.{response_web_socket_data_total}
use co_socket.Http.Dispatch.Handlers.{add_both, add_both_lem}
use co_socket.Http.Dispatch.Routes.{
  web_socket_key, dispatch_refused, dispatch_plain, dispatch_upgrade,
}
use co_socket.Http.Dispatch.Total.{serve_total, IsInBuffer}
use co_socket.Examples.HttpServer.{handle_request, handle_request-AllServed}

abbrev start : HttpDecoder (Unit {0})
start = new_decoder tt 0 0

abbrev no_events : Unit {0} → Bytes → List Event × Unit {0} × Bool
no_events state input = ([], state, true)

-- A URL with an HTTP handler only.
abbrev echo : HttpHandler (Unit {0})
echo request e = set_body (get_body request) e

abbrev echo_only : Handler (Unit {0})
echo_only = record { http_handler = some echo; web_socket_handler = none }

-- A WebSocket handler that answers nothing.
abbrev silent : WebSocketDecoder → WebSocketEncoder → WebSocketEncoder
silent q e = e

abbrev both : Handler (Unit {0})
both = record { http_handler = some echo; web_socket_handler = some silent }

abbrev routes : Bool → HttpDispatch (Unit {0})
routes enabled = record (new_dispatch enabled) { handlers = λ u. some echo_only }

abbrev routes_both : HttpDispatch (Unit {0})
routes_both = record (new_dispatch true) { handlers = λ u. some both }

abbrev upgrade : HttpDecoder (Unit {0})
upgrade = record start {
  http_parser = record (new_parser tt 0) { headers = (ascii "Sec-WebSocket-Key", ascii "k") ∷ [] };
}

upgrade_key : web_socket_key upgrade ≡ b'k' ∷ []
unfolding get_header Requests.get_header find
upgrade_key = refl

dispatch_refused_example : dispatch (λ k. k) upgrade (new_encoder false) (routes true) ≡ (
  response_http_not_found (new_encoder false),
  record (routes true) { is_web_socket_req = true },
)
dispatch_refused_example =
    dispatch_refused (λ k. k) upgrade (new_encoder false) (routes true) b'k' [] echo_only refl
      upgrade_key refl refl

dispatch_plain_example :
    dispatch (λ k. k) upgrade (new_encoder false) (routes false)
    ≡ (echo upgrade (new_encoder false), record (routes false) { is_web_socket_req = false })
dispatch_plain_example =
    dispatch_plain (λ k. k) upgrade (new_encoder false) (routes false) echo_only echo refl refl refl
      refl

dispatch_upgrade_example : dispatch (λ k. k) upgrade (new_encoder false) routes_both ≡ (
  response_web_socket_handshake (λ k. k) (b'k' ∷ []) (new_encoder false),
  record routes_both { is_web_socket_req = true; ws_handler = some silent },
)
dispatch_upgrade_example =
    dispatch_upgrade (λ k. k) upgrade (new_encoder false) routes_both b'k' [] both silent refl
      upgrade_key refl refl

differs : same_key (ascii "/b") (ascii "/a") ≡ false
unfolding same_key
differs = refl

add_both_example :
    ((add_both (ascii "/a") echo silent (routes true)).handlers (ascii "/a") ≡ some both)
    × ((add_both (ascii "/a") echo silent (routes true)).handlers (ascii "/b") ≡ some echo_only)
add_both_example = add_both_lem (ascii "/a") (ascii "/b") echo silent (routes true) differs

-- A message of a client behind a refused upgrade, with two bytes of another.
abbrev message : Bytes
message = client_frame true 1 1 2 3 4 (b'h' ∷ b'i' ∷ []) ++ 129 ∷ 130 ∷ []

abbrev received_message : WebSocketDecoder
received_message = record {
  ws_parser = after_frame fresh true 1 (1 ∷ 2 ∷ 3 ∷ 4 ∷ []) (b'h' ∷ b'i' ∷ []);
}

abbrev refused : Connection (Unit {0})
refused = record {
  dispatcher = (dispatch (λ k. k) upgrade (new_encoder false) (routes true)).1;
  request = start;
  ws_decoder = Messages.new_decoder;
}

abbrev no_answers : ℕ → Bytes → ℤ
no_answers i text = pos 0

response_web_socket_data_total_example :
    (sent : Bool) × (response_web_socket_data 4 0 no_answers
        (record (Sender.new_encoder false) { content = 1 ∷ 2 ∷ 3 ∷ []; len = 3 })
      ≡ some sent)
response_web_socket_data_total_example =
    response_web_socket_data_total 4 0 no_answers
      (record (Sender.new_encoder false) { content = 1 ∷ 2 ∷ 3 ∷ []; len = 3 })
      (record { framed = omega arith; within = omega arith; small = omega arith }) (omega arith)

-- The client sends a byte and then ends the connection.
abbrev reads : ℕ → Received
reads zero = received (b'x' ∷ [])
reads (suc i) = received []

reads-IsInBuffer : (i : ℕ) → IsInBuffer (reads i)
reads-IsInBuffer zero = omega arith
reads-IsInBuffer (suc i) = omega arith

-- The example's server.
serve_total_example :
    (v : Verdict) × (c : Connection (Unit {0})) × (serve no_events
        (λ k. k)
        tt
        (1 + 1)
        (max_length + 1)
        0
        0
        reads
        (λ i. no_answers)
        handle_request
      ≡ some (v, c))
    × (v ≢ goes_on)
serve_total_example =
    serve_total (max_length + 1) no_events (λ k. k) tt 1 0 0 reads (λ i. no_answers) handle_request
      (handle_request-AllServed (Unit {0})) reads-IsInBuffer (omega arith) (λ h. h)
