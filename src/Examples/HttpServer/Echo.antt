-- ===== src/Examples/HttpServer/Echo.antt =====
-- A message of a WebSocket client at the server of http_server/HttpServer.cpp, from the frames that
-- `operator()` reads to those that it writes.
use co_socket.Prelude.{
  ℕ, ◌≤◌, ◌<◌, ◌≡◌, refl, Bool, true, false, some, List, [], arith, Bytes, length,
}
use co_socket.Prelude.Int.{ℤ}
use co_socket.WebSocket.Parser.{max_length}
use co_socket.WebSocket.Decoder.{WebSocketDecoder}
use co_socket.WebSocket.Decoder as Messages
use co_socket.WebSocket.Encoder.{WebSocketEncoder, new_encoder, set_op_code, set_payload}
use co_socket.WebSocket.Encoder.Message.{send}
use co_socket.WebSocket.Encoder.Progress.{IsFinite}
use co_socket.Http.Parser.{Event}
use co_socket.Http.Dispatch.Serve.{goes_on, Connection, answered, after_frame}
use co_socket.Http.Dispatch.Frames.{all_taken, response_web_socket_data_taken}
use co_socket.Examples.HttpServer.{web_socket_handle}

-- The encoder of the answer to a message.
abbrev pub answer_of : Bytes → WebSocketEncoder
answer_of message = record (new_encoder false) {
  op_code = 1;
  content = message;
  len = length message;
}

web_socket_handle-answer_of :
    (q : WebSocketDecoder) → web_socket_handle q (new_encoder false) ≡ answer_of q.ws_parser.payload
unfolding web_socket_handle set_op_code set_payload Messages.get_payload Messages.get_payload_len
web_socket_handle-answer_of q = refl

-- The frames of the answer, by the loop of `ResponseWebSocketData`.
abbrev pub answer_frames : ℕ → Bytes → List Bytes
answer_frames frames message = send frames 0 (λ r. []) (answer_of message)

answer_of-IsFinite : (message : Bytes) → length message ≤ max_length → IsFinite (answer_of message)
answer_of-IsFinite message h = record {
  framed = omega arith;
  within = omega arith;
  small = omega arith;
}

module _ {P : Type 0} (execute : P → Bytes → List Event × P × Bool) (accept_key : Bytes → Bytes)
    (tokenizer : P) (frames : ℕ) (write : ℕ → Bytes → ℤ) (c : Connection P) where
  -- A frame that is not the last is kept.
  pub frame_kept :
      (q : WebSocketDecoder)
      → q.ws_parser.complete ≡ false
      → after_frame execute accept_key tokenizer frames write (true, q) c
        ≡ some (goes_on, record c { ws_decoder = q })
  unfolding after_frame Messages.is_complete
  frame_kept q open_still = rw open_still

  -- After the last one the answer is written.
  pub frame_answered :
      (q : WebSocketDecoder)
      → c.dispatcher.ws_handler ≡ some web_socket_handle
      → q.ws_parser.complete ≡ true
      → length q.ws_parser.payload ≤ max_length
      → length q.ws_parser.payload < frames
      → after_frame execute accept_key tokenizer frames write (true, q) c
        ≡ answered execute accept_key tokenizer
            (some (all_taken write 0 (answer_frames frames q.ws_parser.payload)))
            (record c { ws_decoder = q })
  unfolding after_frame Messages.is_complete
  frame_answered q handler whole small enough =
      let message = q.ws_parser.payload in
      let sent =
        response_web_socket_data_taken frames 0 0 write (answer_of message)
          (answer_of-IsFinite message small) (omega arith) in
      simp (whole, handler, web_socket_handle-answer_of q, sent)
