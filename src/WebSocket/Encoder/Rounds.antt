-- ===== src/WebSocket/Encoder/Rounds.antt =====
-- One round of a client's message: a frame from the encoder through the parser, and what is left.
use native.Mathlib.Nat.{mod-eq_of_lt, mod-eq-sub-mod}
use co_socket.Prelude.{
  ℕ, ◌+◌, ◌%◌, ◌^◌, ◌-◌, ◌≤◌, ◌<◌, ◌≡◌, ◌≢◌, refl, sym, ap, ◌∙◌, subst, Bool, true, false, [], ◌∷◌,
  ◌++◌, arith, Bytes, IsByte, All, All-take, All-drop, length, ltb, take, drop, length-take,
  length-drop, length-append, append-nil,
}
use co_socket.WebSocket.Parser.{WebSocketParser, max_length, parse}
use co_socket.WebSocket.Parser.Decode.{
  IsIdle, IsOpCode, client_frame, after_frame, parse-client_frame, header-client_frame,
}
use co_socket.WebSocket.Parser.Pieces.{Splits, parse-Waits}
use co_socket.WebSocket.Encoder.{WebSocketEncoder, is_complete, left_over, encode, get_frame}
use co_socket.WebSocket.Encoder.Frames.{next_size, next_code, encode-client_frame}

-- The four bytes of a drawn mask.
abbrev pub IsMask : Bytes → Type 0
IsMask m = (length m ≡ 4) × All IsByte m

-- What holds between two frames: `content` is what is left of the message, the parser `p` has read
-- the frames so far, and a last frame of a part of the frame size is still to come.
pub record Sending (size : ℕ) (e : WebSocketEncoder) (p : WebSocketParser) : Type 0 where
  pub client : e.is_client ≡ true
  pub frames : e.frame_size ≡ size
  pub left : e.len ≡ e.offset + length e.content
  pub idle : IsIdle p
  pub first : e.offset ≡ 0 → IsOpCode e.op_code × (e.op_code ≢ 0)
  pub later : e.offset ≢ 0 → p.payload ≢ []
  pub bytes : All IsByte e.content
  pub small : length p.payload + length e.content ≤ max_length
  pub fits : e.len ≤ 2 ^ 63
  pub partial : length e.content % size ≢ 0
  pub readable : length e.content % size ≢ 126

module _ (size : ℕ) (positive : 0 < size) (short : size < 65536) (no_126 : size ≢ 126) where
  pub left_over-length :
      (e : WebSocketEncoder) (p : WebSocketParser)
      → Sending size e p
      → left_over e ≡ length e.content
  unfolding left_over
  left_over-length e p s = ground arith

  module _ (e : WebSocketEncoder) (p : WebSocketParser) (s : Sending size e p) where
    next_size-le : next_size e ≤ length e.content
    next_size-le = ground (arith, s.frames, left_over-length e p s)

    next_size-readable : next_size e ≢ 126
    next_size-readable = ground (
      arith,
      s.frames,
      left_over-length e p s,
      s.readable,
      mod-eq_of_lt {n = length e.content} {m = size},
    )

    next_code-IsOpCode : IsOpCode (next_code e)
    next_code-IsOpCode = ground (arith, s.first)

    next_code-later : next_code e ≡ 0 → p.payload ≢ []
    next_code-later = ground (arith, s.first, s.later)

    length-taken : length (take (next_size e) e.content) ≡ next_size e
    length-taken = omega (arith, length-take (next_size e) e.content, next_size-le)

    pub encoded :
        (k0 k1 k2 k3 : ℕ)
        → encode (k0 ∷ k1 ∷ k2 ∷ k3 ∷ []) e ≡ record e {
          op_code = next_code e;
          output_buf =
              client_frame
                (ltb (left_over e) e.frame_size)
                (next_code e)
                k0
                k1
                k2
                k3
                (take (next_size e) e.content);
          content = drop (next_size e) e.content;
          offset = e.offset + next_size e;
        }
    encoded k0 k1 k2 k3 =
        encode-client_frame e k0 k1 k2 k3 s.client (ground (arith, next_code-IsOpCode)) next_size-le
          next_size-readable (ground (arith, s.frames))

    -- One frame, from the encoder through the parser.
    pub parse-get_frame :
        (k0 k1 k2 k3 : ℕ)
        → All IsByte (k0 ∷ k1 ∷ k2 ∷ k3 ∷ [])
        → parse p (get_frame (k0 ∷ k1 ∷ k2 ∷ k3 ∷ []) e).0 ≡ (
          true,
          after_frame p
              (ltb (left_over e) e.frame_size)
              (next_code e)
              (k0 ∷ k1 ∷ k2 ∷ k3 ∷ [])
              (take (next_size e) e.content),
        )
    unfolding get_frame
    parse-get_frame k0 k1 k2 k3 key =
        ap (λ (x : WebSocketEncoder). parse p x.output_buf) (encoded k0 k1 k2 k3)
        ∙ ap (parse p) (sym (append-nil _))
        ∙ parse-client_frame p s.idle _ _ k0 k1 k2 k3 _ [] next_code-IsOpCode next_code-later key
            (All-take IsByte (next_size e) e.content s.bytes)
            (omega (arith, length-taken, next_size-le, s.small))
            (omega (arith, length-taken, next_size-le, s.small))

    -- A beginning of the frame leaves the parser waiting.
    pub get_frame-Splits :
        (k0 k1 k2 k3 : ℕ)
        → All IsByte (k0 ∷ k1 ∷ k2 ∷ k3 ∷ [])
        → Splits p (get_frame (k0 ∷ k1 ∷ k2 ∷ k3 ∷ []) e).0
          × (length (get_frame (k0 ∷ k1 ∷ k2 ∷ k3 ∷ []) e).0 < 2 ^ 64)
    unfolding get_frame
    get_frame-Splits k0 k1 k2 k3 key =
        let fin = ltb (left_over e) e.frame_size in
        let body = take (next_size e) e.content in
        let bytes = All-take IsByte (next_size e) e.content s.bytes in
        let small : length p.payload + length body ≤ max_length =
          omega (arith, length-taken, next_size-le, s.small) in
        let fits : length body + 0 + 14 < 2 ^ 64 =
          omega (arith, length-taken, next_size-le, s.small) in
        let (offset, bound, found) =
          header-client_frame p s.idle fin (next_code e) k0 k1 k2 k3 body [] next_code-IsOpCode
            next_code-later key bytes small fits in
        let frame = client_frame fin (next_code e) k0 k1 k2 k3 body in
        let sizes : length (frame ++ []) < 2 ^ 64 = omega (arith, found.2, bound, fits) in
        rw (encoded k0 k1 k2 k3) (
          λ x xs y ys cut.
              parse-Waits p s.idle fin (next_code e) k0 k1 k2 k3 body next_code-IsOpCode
                next_code-later key bytes small fits x xs y ys (append-nil frame ∙ cut),
          subst (λ f. length f < 2 ^ 64) (append-nil frame) sizes,
        )

    appended_ne_nil : size ≤ length e.content → p.payload ++ take (next_size e) e.content ≢ []
    appended_ne_nil h x = absurd (
        omega (
          arith,
          ap length x,
          length-append p.payload (take (next_size e) e.content),
          length-taken,
          size_of_middle h,
        ))
      where
        size_of_middle : size ≤ length e.content → next_size e ≡ size
        size_of_middle h = ground (arith, s.frames, left_over-length e p s)

    -- After a frame that is not the last the rest of the message is still to be sent.
    pub get_frame-Sending :
        (k0 k1 k2 k3 : ℕ) (fin : Bool) (key : Bytes)
        → size ≤ length e.content
        → Sending size
            (get_frame (k0 ∷ k1 ∷ k2 ∷ k3 ∷ []) e).1
            (after_frame p fin (next_code e) key (take (next_size e) e.content))
    unfolding get_frame
    get_frame-Sending k0 k1 k2 k3 fin key h =
        let whole : next_size e ≡ size = ground (arith, s.frames, left_over-length e p s) in
        let dropped = length-drop (next_size e) e.content in
        let left = length-append p.payload (take (next_size e) e.content) in
        let same : (length e.content - size) % size ≡ length e.content % size =
          sym (mod-eq-sub-mod h) in
        rw (encoded k0 k1 k2 k3) (record {
          client = s.client;
          frames = s.frames;
          left = omega (arith, dropped, whole, s.left);
          idle = record { no_header = refl; no_input = refl };
          first = λ z. absurd (omega arith);
          later = λ _. appended_ne_nil h;
          bytes = All-drop IsByte (next_size e) e.content s.bytes;
          small = omega (arith, dropped, left, length-taken, s.small, whole);
          fits = s.fits;
          partial = rw (dropped, whole, same) s.partial;
          readable = rw (dropped, whole, same) s.readable;
        })

  pub is_complete-false :
      (e : WebSocketEncoder) (p : WebSocketParser) → Sending size e p → is_complete e ≡ false
  unfolding is_complete
  is_complete-false e p s = ground (arith, s.left, s.partial)
