-- ===== src/Http/Dispatch/Serve.antt =====
-- CoSocket/net/http/HttpDispatch.cpp: a connection, from what it reads to what it answers. The answers
-- of `Read` are a function of the round; those of `WriteAll` are a function of the round, of the
-- number of the write in it and of the bytes.
use co_socket.Prelude.{
  ℕ, zero, suc, ◌+◌, Bool, true, false, not, Option, none, some, List, [], ◌∷◌, ◌==◌, if◌then◌else◌,
  Bytes, length,
}
use co_socket.Prelude.Int.{ℤ, pos, negsuc}
use co_socket.Tcp.{Received, failed, received}
use co_socket.Http.Parser.{Event}
use co_socket.Http.Decoder.{HttpDecoder, new_decoder}
use co_socket.Http.Decoder as Requests
use co_socket.Http.Encoder.{new_encoder, get_reponse_string}
use co_socket.WebSocket.Decoder.{WebSocketDecoder}
use co_socket.WebSocket.Decoder as Messages
use co_socket.WebSocket.Encoder.{WebSocketEncoder, is_complete, get_frame}
use co_socket.WebSocket.Encoder as Sender
use co_socket.Http.Dispatch.{HttpDispatch, dispatch}

-- The test of `Response`: the bytes that were written, as a number of 64 bits.
unfoldable pub response : ℤ → ℕ → Bool
response (pos n) len = n == len
response (negsuc n) len = false

-- `ResponseWebSocketData`: each frame is the server's, and write `i` answers for it. On fuel: `none`
-- means that it ran out.
unfoldable pub response_web_socket_data : ℕ → ℕ → (ℕ → Bytes → ℤ) → WebSocketEncoder → Option Bool
response_web_socket_data zero i write e = none
response_web_socket_data (suc fuel) i write e = elim (is_complete e) [
  | true ↦ some true
  | false ↦
      let (frame, e') = get_frame [] e in
      let rest = response_web_socket_data fuel (i + 1) write e' in
      if not (response (write i frame) (length frame)) then some false else rest
]

-- What the handling of some input comes to: the loop goes on, the connection ends, or the call of a
-- handler that is not set throws.
pub data Verdict : Type 0 where
  goes_on ends throws : Verdict

-- The locals of the loop, and the copy of the dispatcher that the connection has.
pub record Connection (P : Type 0) : Type 0 where
  pub dispatcher : HttpDispatch P
  pub request : HttpDecoder P
  pub ws_decoder : WebSocketDecoder

module _ {P : Type 0} (execute : P → Bytes → List Event × P × Bool) (accept_key : Bytes → Bytes)
    (tokenizer : P) where
  -- `ParseHttpToDispatch` from the test of the parse on.
  unfoldable pub after_parse :
      (ℕ → Bytes → ℤ) → Bool × HttpDecoder P → Connection P → Verdict × Connection P
  after_parse write (fine, request) c =
      let c' = record c { request = request } in
      let (e, d) = dispatch accept_key request (new_encoder false) c.dispatcher in
      let text = get_reponse_string e in
      if not fine
      then (ends, c')
      else if not (Requests.is_complete request)
      then (goes_on, c')
      else if not (response (write 0 text) (length text))
      then (ends, record c' { dispatcher = d })
      else (goes_on, record c' { dispatcher = d; request = Requests.reset tokenizer request })

  unfoldable pub parse_http_to_dispatch :
      (ℕ → Bytes → ℤ) → Bytes → Connection P → Option (Verdict × Connection P)
  parse_http_to_dispatch write input c = elim (Requests.parse execute c.request input) [
    | none ↦ none
    | some r ↦ some (after_parse write r c)
  ]

  -- The end of `ProcessWebSocketData`, on the answer of `ResponseWebSocketData`.
  unfoldable pub answered : Option Bool → Connection P → Option (Verdict × Connection P)
  answered none c = none
  answered (some false) c = some (ends, c)
  answered (some true) c = some (goes_on, record c { ws_decoder = Messages.reset c.ws_decoder })

  -- `ProcessWebSocketData` from the test of the parse on, with fuel for the frames of the answer.
  unfoldable pub after_frame :
      ℕ → (ℕ → Bytes → ℤ) → Bool × WebSocketDecoder → Connection P → Option (Verdict × Connection P)
  after_frame fuel write (fine, q) c =
      let c' = record c { ws_decoder = q } in
      if not fine
      then some (ends, c')
      else if not (Messages.is_complete q)
      then some (goes_on, c')
      else elim c.dispatcher.ws_handler [
        | none ↦ some (throws, c')
        | some h ↦
            answered (response_web_socket_data fuel 0 write (h q (Sender.new_encoder false))) c'
      ]

  unfoldable pub process_web_socket_data :
      ℕ → (ℕ → Bytes → ℤ) → Bytes → Connection P → Option (Verdict × Connection P)
  process_web_socket_data fuel write input c =
      after_frame fuel write (Messages.parse c.ws_decoder input) c

  -- A round of the loop that read something.
  unfoldable pub handle_input :
      ℕ → (ℕ → Bytes → ℤ) → Bytes → Connection P → Option (Verdict × Connection P)
  handle_input fuel write input c =
      if not c.dispatcher.is_web_socket_req
      then parse_http_to_dispatch write input c
      else process_web_socket_data fuel write input c

  -- The loop of `operator()`, with fuel for its rounds and for the frames of an answer. The result
  -- is `ends` where it returns.
  unfoldable pub serve_loop :
      ℕ
      → ℕ
      → ℕ
      → (ℕ → Received)
      → (ℕ → ℕ → Bytes → ℤ)
      → Connection P
      → Option (Verdict × Connection P)
  serve_loop zero frames round read write c = none
  serve_loop (suc fuel) frames round read write c = elim (read round) [
    | failed e ↦ some (ends, c)
    | received [] ↦ some (ends, c)
    | received (b ∷ bs) ↦ elim (handle_input frames (write round) (b ∷ bs) c) [
      | none ↦ none
      | some (goes_on, c') ↦ serve_loop fuel frames (round + 1) read write c'
      | some (v, c') ↦ some (v, c')
    ]
  ]

  -- `operator()`; the constructor of the decoder leaves its status and port unset.
  unfoldable pub serve :
      ℕ
      → ℕ
      → ℕ
      → ℕ
      → (ℕ → Received)
      → (ℕ → ℕ → Bytes → ℤ)
      → HttpDispatch P
      → Option (Verdict × Connection P)
  serve fuel frames status port read write d = serve_loop fuel frames 0 read write (record {
    dispatcher = d;
    request = new_decoder tokenizer status port;
    ws_decoder = Messages.new_decoder;
  })
