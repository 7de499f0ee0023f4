-- ===== src/Examples/HttpServer/Conversation.antt =====
-- A conversation over a WebSocket with the server of http_server/HttpServer.cpp: the rounds of
-- `operator()` that read the frames of a message.
use co_socket.Prelude.{
  ℕ, zero, suc, ◌+◌, ◌≤◌, ◌<◌, ◌≡◌, refl, sym, subst, ◌∙◌, Bool, true, false, Option, some, List,
  [], ◌∷◌, arith, Bytes, length,
}
use co_socket.Prelude.Int.{ℤ}
use co_socket.Tcp.{Received, received}
use co_socket.WebSocket.Parser.{WebSocketParser, max_length, parse}
use co_socket.WebSocket.Parser.Decode.{IsIdle, reset-IsIdle}
use co_socket.WebSocket.Decoder.{WebSocketDecoder}
use co_socket.WebSocket.Decoder as Messages
use co_socket.Http.Parser.{Event}
use co_socket.Http.Dispatch.{HttpDispatch}
use co_socket.Http.Dispatch.Serve.{
  Verdict, goes_on, ends, Connection, after_frame, process_web_socket_data, handle_input,
  serve_loop, answered,
}
use co_socket.Http.Dispatch.Frames.{all_taken}
use co_socket.Examples.HttpServer.{web_socket_handle}
use co_socket.Examples.HttpServer.Echo.{answer_frames, frame_kept, frame_answered}

-- What is left of a message: nothing, in a decoder that is ready for a new one, where its answer was
-- taken whole, and otherwise the message.
abbrev pub Left : Bool → Bytes → WebSocketDecoder → Type 0
Left true message q = IsIdle q.ws_parser × (q.ws_parser.payload ≡ [])
Left false message q = (q.ws_parser.complete ≡ true) × (q.ws_parser.payload ≡ message)

-- The connection ends, with that decoder and otherwise as it was.
abbrev pub Ended :
    {P : Type 0} → Bool → Bytes → Connection P → Option (Verdict × Connection P) → Type 0
Ended taken message c r =
    (q : WebSocketDecoder) × (r ≡ some (ends, record c { ws_decoder = q })) × Left taken message q

-- A dispatcher whose connection is a WebSocket of this server, and a message that it can answer.
pub record Upgraded {P : Type 0} (frames : ℕ) (d : HttpDispatch P) (message : Bytes) : Type 0 where
  pub web_socket : d.is_web_socket_req ≡ true
  pub handler : d.ws_handler ≡ some web_socket_handle
  pub enough : length message < frames
  pub small : length message ≤ max_length

module _ {P : Type 0} (execute : P → Bytes → List Event × P × Bool) (accept_key : Bytes → Bytes)
    (tokenizer : P) (frames : ℕ) (read : ℕ → Received) (write : ℕ → ℕ → Bytes → ℤ) where
  handled :
      (i : ℕ) (f : Bytes) (p : WebSocketParser) (c : Connection P)
      → c.dispatcher.is_web_socket_req ≡ true
      → parse c.ws_decoder.ws_parser f ≡ (true, p)
      → handle_input execute accept_key tokenizer frames (write i) f c
        ≡ after_frame execute accept_key tokenizer frames
            (write i)
            (true, record { ws_parser = p })
            c
  unfolding handle_input process_web_socket_data Messages.parse
  handled i f p c upgraded parsed = simp (upgraded, parsed)

  -- A round at a WebSocket that keeps the connection.
  serve_loop_round :
      (fuel i : ℕ) (f : Bytes) (p : WebSocketParser) (c c' : Connection P)
      → (b : ℕ) × (bs : Bytes) × (f ≡ b ∷ bs)
      → read i ≡ received f
      → c.dispatcher.is_web_socket_req ≡ true
      → parse c.ws_decoder.ws_parser f ≡ (true, p)
      → after_frame execute accept_key tokenizer frames (write i) (true, record { ws_parser = p }) c
        ≡ some (goes_on, c')
      → serve_loop execute accept_key tokenizer (suc fuel) frames i read write c
        ≡ serve_loop execute accept_key tokenizer fuel frames (i + 1) read write c'
  unfolding serve_loop
  serve_loop_round fuel i f p c c' (b, bs, same) got upgraded parsed after =
      let step : handle_input execute accept_key tokenizer frames (write i) (b ∷ bs) c
          ≡ some (goes_on, c') =
        subst
          (λ x. handle_input execute accept_key tokenizer frames (write i) x c ≡ some (goes_on, c'))
          same (handled i f p c upgraded parsed ∙ after) in
      rw (got, same, serve_loop, step)

  serve_loop_closed :
      (fuel i : ℕ) (c : Connection P)
      → 0 < fuel
      → read i ≡ received []
      → serve_loop execute accept_key tokenizer fuel frames i read write c ≡ some (ends, c)
  unfolding serve_loop
  serve_loop_closed zero i c h got = absurd (omega arith)
  serve_loop_closed (suc fuel) i c h got = rw (got, serve_loop)

  -- A round at a WebSocket that ends the connection.
  serve_loop_last :
      (fuel i : ℕ) (f : Bytes) (p : WebSocketParser) (c c' : Connection P)
      → (b : ℕ) × (bs : Bytes) × (f ≡ b ∷ bs)
      → read i ≡ received f
      → c.dispatcher.is_web_socket_req ≡ true
      → parse c.ws_decoder.ws_parser f ≡ (true, p)
      → after_frame execute accept_key tokenizer frames (write i) (true, record { ws_parser = p }) c
        ≡ some (ends, c')
      → serve_loop execute accept_key tokenizer (suc fuel) frames i read write c ≡ some (ends, c')
  unfolding serve_loop
  serve_loop_last fuel i f p c c' (b, bs, same) got upgraded parsed after =
      let step : handle_input execute accept_key tokenizer frames (write i) (b ∷ bs) c
          ≡ some (ends, c') =
        subst
          (λ x. handle_input execute accept_key tokenizer frames (write i) x c ≡ some (ends, c'))
          same (handled i f p c upgraded parsed ∙ after) in
      rw (got, same, serve_loop, step)

  -- The round that completes a message answers it.
  round_answered :
      (taken : Bool) (fuel i : ℕ) (f : Bytes) (p : WebSocketParser) (c : Connection P)
      → (b : ℕ) × (bs : Bytes) × (f ≡ b ∷ bs)
      → 0 < fuel
      → parse c.ws_decoder.ws_parser f ≡ (true, p)
      → p.complete ≡ true
      → c.dispatcher.is_web_socket_req ≡ true
      → read i ≡ received f
      → read (i + 1) ≡ received []
      → after_frame execute accept_key tokenizer frames (write i) (true, record { ws_parser = p }) c
        ≡ answered execute accept_key tokenizer
            (some taken)
            (record c { ws_decoder = record { ws_parser = p } })
      → Ended taken p.payload c
          (serve_loop execute accept_key tokenizer (suc fuel) frames i read write c)
  unfolding Messages.reset answered
  round_answered true fuel i f p c shape some_left parsed whole upgraded got closed after =
      let q : WebSocketDecoder = record { ws_parser = p } in
      let step =
        serve_loop_round fuel i f p c (record c { ws_decoder = Messages.reset q }) shape got
          upgraded parsed after in
      let (idle, empty) = reset-IsIdle p in
      (Messages.reset q, step ∙ serve_loop_closed fuel (i + 1) _ some_left closed, (idle, empty))
  round_answered false fuel i f p c shape some_left parsed whole upgraded got closed after = (
    record { ws_parser = p },
    serve_loop_last fuel i f p c _ shape got upgraded parsed after,
    (whole, refl),
  )

  -- The answer of round `i` to a message.
  abbrev pub answer_taken : ℕ → Bytes → Bool
  answer_taken i message = all_taken (write i) 0 (answer_frames frames message)

  pub message_done :
      (fuel i : ℕ) (f message : Bytes) (p : WebSocketParser) (c : Connection P)
      → (b : ℕ) × (bs : Bytes) × (f ≡ b ∷ bs)
      → 0 < fuel
      → parse c.ws_decoder.ws_parser f ≡ (true, p)
      → p.complete ≡ true
      → p.payload ≡ message
      → Upgraded frames c.dispatcher message
      → read i ≡ received f
      → read (i + 1) ≡ received []
      → Ended
          (answer_taken i message)
          message
          c
          (serve_loop execute accept_key tokenizer (suc fuel) frames i read write c)
  message_done fuel i f message p c shape some_left parsed whole same ready got closed =
      let ready' = subst (Upgraded frames c.dispatcher) (sym same) ready in
      subst
        (λ m.
          Ended (answer_taken i m) m c
            (serve_loop execute accept_key tokenizer (suc fuel) frames i read write c))
        same
        (round_answered (answer_taken i p.payload) fuel i f p c shape some_left parsed whole
          ready.web_socket got closed
          (frame_answered execute accept_key tokenizer frames (write i) c (record { ws_parser = p })
            ready'.handler whole ready'.small ready'.enough))

  -- A round that does not complete one keeps what it read.
  pub round_kept :
      (fuel i : ℕ) (f : Bytes) (p : WebSocketParser) (c : Connection P)
      → (b : ℕ) × (bs : Bytes) × (f ≡ b ∷ bs)
      → parse c.ws_decoder.ws_parser f ≡ (true, p)
      → p.complete ≡ false
      → c.dispatcher.is_web_socket_req ≡ true
      → read i ≡ received f
      → serve_loop execute accept_key tokenizer (suc fuel) frames i read write c
        ≡ serve_loop execute accept_key tokenizer fuel frames
            (i + 1)
            read
            write
            (record c { ws_decoder = record { ws_parser = p } })
  round_kept fuel i f p c shape parsed open_still upgraded got =
      serve_loop_round fuel i f p c _ shape got upgraded parsed (
        frame_kept execute accept_key tokenizer frames (write i) c (record { ws_parser = p })
          open_still)
