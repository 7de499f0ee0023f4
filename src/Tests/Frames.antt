-- ===== src/Tests/Frames.antt =====
-- WebSocket frames and messages at concrete inputs.
use co_socket.Prelude.{
  ℕ, ◌+◌, ◌-◌, ◌*◌, ◌^◌, ◌≤◌, ◌<◌, ◌≡◌, refl, true, [], ◌∷◌, ◌++◌, arith, Bytes, length, get_or,
  replicate, length-replicate,
}
use co_socket.WebSocket.Parser.{
  WebSocketParser, fresh, max_length, is_valid_frame, parse, refresh_header, parse_header,
  header_second, parse_cached, have_bytes, current_byte,
}
use co_socket.WebSocket.Parser.Decode.{IsIdle, client_frame, after_frame, parse-client_frame}
use co_socket.WebSocket.Parser.Chunks.{parse-append}
use co_socket.WebSocket.Parser.Bounds.{IsBounded, parse-IsBounded}
use co_socket.WebSocket.Parser.Faults.{is_valid_frame_wrap}
use co_socket.WebSocket.Parser.Header.{announced_length}
use co_socket.WebSocket.Encoder.{WebSocketEncoder, new_encoder, encode, is_complete, left_over}
use co_socket.WebSocket.Encoder.Frames.{next_size, next_code}
use co_socket.WebSocket.Encoder.Faults.{encode_no_final, encode_126, encode_long}

fresh-IsIdle : IsIdle fresh
fresh-IsIdle = record { no_header = refl; no_input = refl }

-- "hi", masked by 1 2 3 4, with two bytes of a next frame behind it.
parse-client_frame_example :
    parse fresh (client_frame true 1 1 2 3 4 (b'h' ∷ b'i' ∷ []) ++ 129 ∷ 130 ∷ [])
    ≡ (true, after_frame fresh true 1 (1 ∷ 2 ∷ 3 ∷ 4 ∷ []) (b'h' ∷ b'i' ∷ []))
parse-client_frame_example =
    parse-client_frame fresh fresh-IsIdle true 1 1 2 3 4 (b'h' ∷ b'i' ∷ []) (129 ∷ 130 ∷ []) refl
      (λ h. absurd (omega arith)) (ground arith) (ground arith) (ground arith) (ground arith)

parse-IsBounded_example : IsBounded (parse fresh (129 ∷ 130 ∷ 7 ∷ [])).1
parse-IsBounded_example =
    parse-IsBounded fresh (129 ∷ 130 ∷ 7 ∷ []) (ground arith)
      (record { within = ground arith; short = ground arith })

-- A continuation frame behind one byte of a message, that announces 2 ^ 64 - 1 bytes.
abbrev wrapping : WebSocketParser
wrapping = record fresh {
  header_complete = true;
  payload_len = 2 ^ 64 - 1;
  mask_key = 1 ∷ 2 ∷ 3 ∷ 4 ∷ [];
  payload = 7 ∷ [];
}

is_valid_frame_wrap_example : (is_valid_frame wrapping ≡ true) × (max_length < wrapping.payload_len)
is_valid_frame_wrap_example =
    is_valid_frame_wrap wrapping (λ h. ground arith) refl (ground arith) (ground arith)
      (ground arith)

-- A client's message in frames of `size` bytes.
abbrev message : ℕ → Bytes → WebSocketEncoder
message size bytes = record (new_encoder true) {
  frame_size = size;
  content = bytes;
  len = length bytes;
}

abbrev mask : Bytes
mask = 9 ∷ 8 ∷ 7 ∷ 6 ∷ []

encode_no_final_example :
    (is_complete (encode mask (message 2 (1 ∷ 2 ∷ []))) ≡ true)
    × (get_or (encode mask (message 2 (1 ∷ 2 ∷ []))).output_buf 0 0 < 128)
encode_no_final_example =
    encode_no_final (message 2 (1 ∷ 2 ∷ [])) mask (ground arith) (ground arith) (ground arith) refl

abbrev long_message : ℕ → WebSocketEncoder
long_message n = record (message n []) { content = replicate n 5; len = n }

next_size_long : (n : ℕ) → n < 2 ^ 64 → next_size (long_message n) ≡ n
unfolding left_over
next_size_long n h = ground arith

long_room : (n : ℕ) → n < 2 ^ 64 → next_size (long_message n) ≤ length (long_message n).content
long_room n h = omega (arith, next_size_long n h, length-replicate {A = ℕ} n 5)

long_code : (n : ℕ) → next_code (long_message n) < 16
long_code n = omega arith

encode_126_example :
    announced_length fresh (encode mask (long_message 126)).output_buf ≡ 9 * 256 + 8
encode_126_example =
    encode_126 (long_message 126) 9 8 7 6 refl (long_code 126) (long_room 126 (omega arith))
      (next_size_long 126 (omega arith)) fresh

over : (n : ℕ) → n < 2 ^ 64 → 65535 < n → 65535 < next_size (long_message n)
over n h k = omega (arith, next_size_long n h)

under : (n : ℕ) → n < 2 ^ 32 → next_size (long_message n) < 2 ^ 32
under n h = omega (arith, next_size_long n (omega arith))

encode_long_example :
    announced_length fresh (encode mask (long_message 65536)).output_buf
    ≡ (9 * 256 + 8) * 65536 + (7 * 256 + 6)
encode_long_example =
    encode_long (long_message 65536) 9 8 7 6 refl (long_code 65536) (long_room 65536 (omega arith))
      (over 65536 (omega arith) (omega arith)) (under 65536 (omega arith)) fresh

-- The first byte of a frame, and then the second and the first of the mask.
abbrev one_byte : WebSocketParser
one_byte = record fresh { fin = true; op_code = 1; offset = 1; input_cache = 129 ∷ [] }

one_byte_parsed : parse fresh (129 ∷ []) ≡ (true, one_byte)
unfolding parse refresh_header parse_header header_second parse_cached have_bytes current_byte
one_byte_parsed = refl

parse-append_example : parse one_byte (130 ∷ 7 ∷ []) ≡ parse fresh ((129 ∷ []) ++ 130 ∷ 7 ∷ [])
parse-append_example =
    parse-append fresh one_byte 129 [] 130 (7 ∷ []) (omega arith) one_byte_parsed refl
