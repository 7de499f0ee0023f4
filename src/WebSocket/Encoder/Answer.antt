-- ===== src/WebSocket/Encoder/Answer.antt =====
-- A message of a server, from its encoder to a reader of its frames.
use native.Mathlib.Decide.{dec_lt}
use native.Mathlib.Nat.{mod-eq_of_lt, mod-eq-sub-mod}
use co_socket.Prelude.{
  ℕ, zero, suc, ◌+◌, ◌-◌, ◌/◌, ◌%◌, ◌^◌, ◌≤◌, ◌<◌, ◌≡◌, ◌≢◌, sym, ap, ◌∙◌, true, false, some, List,
  [], ◌∷◌, ◌++◌, append_assoc, arith, Bytes, length, ltb, ==_refl, if◌then◌else◌, take, drop,
  length-drop, take-append-drop, take-all,
}
use co_socket.Prelude.Bits.{bit_or_top, bit_or_zero}
use co_socket.WebSocket.Encoder.{
  WebSocketEncoder, is_complete, length_field, left_over, encode, get_frame,
}
use co_socket.WebSocket.Encoder.Frames.{next_size, next_code, length-take-le}
use co_socket.WebSocket.Encoder.Message.{send, send_complete, send_round}
use co_socket.WebSocket.Encoder.Stream.{
  read_frame, read_message, server_frame, read_frame-server_frame,
}

abbrev pub joined : List Bytes → Bytes
joined [] = []
joined (f ∷ fs) = f ++ joined fs

-- What holds of a server's encoder between two frames: `content` is what is left of the message, and
-- a last frame of a part of the frame size, of other than 126 bytes, is still to come.
pub record Answering (size : ℕ) (e : WebSocketEncoder) : Type 0 where
  pub server : e.is_client ≡ false
  pub frames : e.frame_size ≡ size
  pub left : e.len ≡ e.offset + length e.content
  pub code : e.op_code < 16
  pub fits : e.len ≤ 2 ^ 63
  pub partial : length e.content % size ≢ 0
  pub readable : length e.content % size ≢ 126

length_field-server :
    (n : ℕ)
    → n ≢ 126
    → n < 65536
    → length_field false n ≡ (if ltb n 126 then n ∷ [] else 126 ∷ (n / 256 % 256) ∷ (n % 256) ∷ [])
unfolding length_field
length_field-server n h k = ground (arith, bit_or_zero n)

module _ (size : ℕ) (positive : 0 < size) (short : size < 65536) (no_126 : size ≢ 126)
    (e : WebSocketEncoder) (h : Answering size e) where
  left_over-rest : left_over e ≡ length e.content
  unfolding left_over
  left_over-rest = ground (arith, h.left, h.fits)

  next_size-room : next_size e ≤ length e.content
  next_size-room = ground (arith, h.frames, left_over-rest)

  next_size-readable : next_size e ≢ 126
  next_size-readable =
      ground (
        arith,
        h.frames,
        left_over-rest,
        h.readable,
        mod-eq_of_lt {n = length e.content} {m = size},
      )

  next_code-small : next_code e < 16
  next_code-small = ground (arith, h.code)

  abbrev sent : WebSocketEncoder
  sent = record e {
    op_code = next_code e;
    output_buf =
        server_frame (ltb (left_over e) e.frame_size) (next_code e) (take (next_size e) e.content);
    content = drop (next_size e) e.content;
    offset = e.offset + next_size e;
  }

  encode-server_frame : (mask : Bytes) → encode mask e ≡ sent
  unfolding encode
  encode-server_frame mask =
      let room : length (take (next_size e) e.content) ≡ next_size e =
        length-take-le (next_size e) e.content next_size-room in
      let below : next_size e < 65536 = ground (arith, h.frames) in
      rw h.server (
        ground (
          arith,
          room,
          length_field-server (next_size e) next_size-readable below,
          bit_or_top (next_code e),
          bit_or_zero (next_code e),
          next_code-small,
        ))

  is_complete-partial : is_complete e ≡ false
  unfolding is_complete
  is_complete-partial = ground (arith, h.left, h.partial)

  -- The rest of the message is read behind a frame that is not the last.
  sent-Answering : size ≤ length e.content → Answering size sent
  sent-Answering more =
      let whole : next_size e ≡ size = ground (arith, h.frames, left_over-rest) in
      let dropped = length-drop (next_size e) e.content in
      let same : (length e.content - size) % size ≡ length e.content % size =
        sym (mod-eq-sub-mod more) in
      record {
        server = h.server;
        frames = h.frames;
        left = omega (arith, dropped, whole, h.left);
        code = next_code-small;
        fits = h.fits;
        partial = rw (dropped, whole, same) h.partial;
        readable = rw (dropped, whole, same) h.readable;
      }

  frame_read :
      (rest : Bytes)
      → read_frame (sent.output_buf ++ rest)
        ≡ some (
          record {
            fin = ltb (left_over e) e.frame_size;
            code = next_code e;
            payload = take (next_size e) e.content;
          },
          rest,
        )
  frame_read rest =
      let room : length (take (next_size e) e.content) ≡ next_size e =
        length-take-le (next_size e) e.content next_size-room in
      read_frame-server_frame (ltb (left_over e) e.frame_size) (next_code e)
        (take (next_size e) e.content) rest next_code-small (ground (arith, room, h.frames))

  -- The final frame.
  read_last :
      (fuel : ℕ) (rest : Bytes)
      → length e.content < size
      → read_message (suc fuel) (next_code e) (sent.output_buf ++ rest) ≡ some (e.content, rest)
  unfolding read_message
  read_last fuel rest less =
      let all : next_size e ≡ length e.content = ground (arith, h.frames, left_over-rest) in
      let final : ltb (left_over e) e.frame_size ≡ true =
        ground (arith, h.frames, left_over-rest) in
      rw (frame_read rest, read_message, ==_refl (next_code e), final, all)
        (ap (λ xs. some (xs, rest)) (take-all e.content))

  -- A frame with others behind it.
  read_middle :
      (fuel : ℕ) (later rest : Bytes)
      → size ≤ length e.content
      → read_message fuel 0 later ≡ some (drop (next_size e) e.content, rest)
      → read_message (suc fuel) (next_code e) (sent.output_buf ++ later) ≡ some (e.content, rest)
  unfolding read_message
  read_middle fuel later rest more got =
      let goes_on : ltb (left_over e) e.frame_size ≡ false =
        ground (arith, h.frames, left_over-rest) in
      rw (frame_read later, read_message, ==_refl (next_code e), goes_on, got)
        (ap (λ xs. some (xs, rest)) (take-append-drop (next_size e) e.content))

  get_frame-sent : (mask : Bytes) → get_frame mask e ≡ (sent.output_buf, sent)
  unfolding get_frame
  get_frame-sent mask = ap (λ (x : WebSocketEncoder). (x.output_buf, x)) (encode-server_frame mask)

  finished : length e.content < size → is_complete sent ≡ true
  unfolding is_complete
  finished less = ground (arith, h.frames, h.left, left_over-rest)

  next_code-sent : size ≤ length e.content → next_code sent ≡ 0
  next_code-sent more = ground (arith, h.frames, left_over-rest)

  rest_length : size ≤ length e.content → length sent.content ≡ length e.content - size
  rest_length more =
      let whole : next_size e ≡ size = ground (arith, h.frames, left_over-rest) in
      omega (arith, length-drop (next_size e) e.content, whole)

  frames_after :
      (fuel r : ℕ) (masks : ℕ → Bytes) (rest : Bytes)
      → joined (send (suc fuel) r masks e) ++ rest
        ≡ sent.output_buf ++ (joined (send fuel (r + 1) masks sent) ++ rest)
  frames_after fuel r masks rest =
      ap (λ fs. joined fs ++ rest)
        (send_round fuel r masks e is_complete-partial
          ∙ ap (λ (x : Bytes × WebSocketEncoder). x.0 ∷ send fuel (r + 1) masks x.1)
              (get_frame-sent (masks r)))
      ∙ append_assoc sent.output_buf (joined (send fuel (r + 1) masks sent)) rest

  last_frame :
      (fuel r : ℕ) (masks : ℕ → Bytes) (rest : Bytes)
      → length e.content < size
      → read_message
          (suc fuel)
          (next_code e)
          (sent.output_buf ++ (joined (send fuel r masks sent) ++ rest))
        ≡ some (e.content, rest)
  last_frame fuel r masks rest less =
      ap (λ fs. read_message (suc fuel) (next_code e) (sent.output_buf ++ (joined fs ++ rest)))
        (send_complete fuel r masks sent (finished less))
      ∙ read_last fuel rest less

module _ (size : ℕ) (positive : 0 < size) (short : size < 65536) (no_126 : size ≢ 126) where
  -- The frames of `while (!IsComplete()) GetFrame()` are read as one message with the opcode of the
  -- encoder, whatever stands behind them.
  pub read_message-send :
      (fuel r : ℕ) (masks : ℕ → Bytes) (e : WebSocketEncoder) (rest : Bytes)
      → Answering size e
      → length e.content < fuel
      → read_message fuel (next_code e) (joined (send fuel r masks e) ++ rest)
        ≡ some (e.content, rest)
  read_message-send zero r masks e rest h enough = absurd (omega arith)
  read_message-send (suc fuel) r masks e rest h enough =
      let e' = sent size positive short no_126 e h in
      ap (read_message (suc fuel) (next_code e))
        (frames_after size positive short no_126 e h fuel r masks rest)
      ∙ elim (dec_lt (length e.content) size) [
        | yes less ↦ last_frame size positive short no_126 e h fuel (r + 1) masks rest less
        | no more ↦
            let over : size ≤ length e.content = omega arith in
            let shorter = rest_length size positive short no_126 e h over in
            let next = sent-Answering size positive short no_126 e h over in
            let got = read_message-send fuel (r + 1) masks e' rest next (omega (arith, shorter)) in
            read_middle size positive short no_126 e h fuel _ rest over (
              ap (λ code. read_message fuel code (joined (send fuel (r + 1) masks e') ++ rest))
                (sym (next_code-sent size positive short no_126 e h over))
              ∙ got)
      ]
