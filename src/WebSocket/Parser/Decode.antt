-- ===== src/WebSocket/Parser/Decode.antt =====
-- `Parse` on whole client frames, against the layout of RFC 6455.
use co_socket.Prelude.{
  ℕ, ◌+◌, ◌*◌, ◌/◌, ◌%◌, ◌^◌, ◌≤◌, ◌<◌, ◌≡◌, ◌≢◌, refl, ◌∙◌, Bool, true, false, ◌||◌, [], ◌∷◌, ◌++◌,
  arith, Bytes, IsByte, All, length, leb, ltb, ◌==◌, length-append, lt→ltb, if◌then◌else◌,
  take-append, drop,
}
use native.Mathlib.Decide.{dec_lt}
use co_socket.Prelude.Words.{be16, be32}
use co_socket.WebSocket.Parser.Masking.{masked, length-masked, masked_twice, unmask_loop-masked}
use co_socket.WebSocket.Parser.Header.{parse_header_short, parse_header_medium, parse_header_long}
use co_socket.WebSocket.Parser.{
  WebSocketParser, max_length, parse_header, parse_cached, refresh_header, parse, reset,
  reset_current_frame,
}

-- The length of a payload behind the mask bit, in the shortest of the three forms.
abbrev pub frame_length : ℕ → Bytes
frame_length n =
    if ltb n 126
    then (128 + n) ∷ []
    else if ltb n 65536
    then 254 ∷ be16 n
    else 255 ∷ (be32 (n / 2 ^ 32) ++ be32 n)

-- A masked frame with the mask `k0 k1 k2 k3`.
abbrev pub client_frame : Bool → ℕ → ℕ → ℕ → ℕ → ℕ → Bytes → Bytes
client_frame fin op k0 k1 k2 k3 body =
    ((if fin then 128 else 0) + op)
    ∷ (frame_length (length body) ++ (k0 ∷ k1 ∷ k2 ∷ k3 ∷ masked (k0 ∷ k1 ∷ k2 ∷ k3 ∷ []) 0 body))

-- Between two frames nothing is cached.
pub record IsIdle (p : WebSocketParser) : Type 0 where
  pub no_header : p.header_complete ≡ false
  pub no_input : p.input_cache ≡ []

-- A message that has been taken leaves nothing behind.
pub reset-IsIdle : (p : WebSocketParser) → IsIdle (reset p) × ((reset p).payload ≡ [])
unfolding reset reset_current_frame
reset-IsIdle p = (record { no_header = refl; no_input = refl }, refl)

-- The state after a frame of `key`, `op` and `fin` that carried `body`.
abbrev pub after_frame : WebSocketParser → Bool → ℕ → Bytes → Bytes → WebSocketParser
after_frame p fin op key body = record p {
  complete = fin;
  header_complete = false;
  fin = false;
  op_code = op;
  payload_len = 0;
  offset = 0;
  mask_key = key;
  input_cache = [];
  payload = p.payload ++ body;
}

abbrev pub IsOpCode : ℕ → Type 0
IsOpCode op = (op == 0 || op == 1 || op == 2 || op == 8 || op == 9 || op == 10) ≡ true

-- A complete header with the whole payload behind it.
parse_cached_ready :
    (q : WebSocketParser) (k0 k1 k2 k3 : ℕ) (body rest : Bytes)
    → q.header_complete ≡ true
    → q.mask_key ≡ k0 ∷ k1 ∷ k2 ∷ k3 ∷ []
    → IsOpCode q.op_code
    → (q.op_code ≡ 0 → q.payload ≢ [])
    → All IsByte q.mask_key
    → All IsByte body
    → q.payload_len ≡ length body
    → length q.payload + length body ≤ max_length
    → drop q.offset q.input_cache ≡ masked q.mask_key 0 body ++ rest
    → q.offset + length body ≤ length q.input_cache
    → length q.input_cache < 2 ^ 64
    → parse_cached q ≡ (true, after_frame q q.fin q.op_code q.mask_key body)
unfolding parse_cached
parse_cached_ready q k0 k1 k2 k3 body rest whole key known later kb bb len small text room fits =
    ground (
      arith,
      unmask_loop-masked q.payload_len 0 q (omega arith),
      take-append (length body) (masked q.mask_key 0 body) rest (length-masked q.mask_key 0 body),
      masked_twice q.mask_key 0 body kb bb,
      later,
    )

parse-parse_header :
    (p q : WebSocketParser) (b : ℕ) (bs : Bytes)
    → IsIdle p
    → parse_header (record p { input_cache = b ∷ bs }) ≡ (true, q)
    → parse p (b ∷ bs) ≡ parse_cached (record q { header_complete = true })
unfolding parse refresh_header
parse-parse_header p q b bs idle e = ground arith

be64_value :
    (n : ℕ)
    → n < 2 ^ 64
    → ((n / 2 ^ 32 / 2 ^ 24 % 256 * 256 + n / 2 ^ 32 / 65536 % 256) * 65536
            + (n / 2 ^ 32 / 256 % 256 * 256 + n / 2 ^ 32 % 256))
          * 2 ^ 32
        + ((n / 2 ^ 24 % 256 * 256 + n / 65536 % 256) * 65536 + (n / 256 % 256 * 256 + n % 256))
      ≡ n
be64_value n h = omega arith

module _ (p : WebSocketParser) (idle : IsIdle p) (fin : Bool) (op k0 k1 k2 k3 : ℕ)
    (body rest : Bytes) (known : IsOpCode op) (later : op ≡ 0 → p.payload ≢ [])
    (key_bytes : All IsByte (k0 ∷ k1 ∷ k2 ∷ k3 ∷ [])) (body_bytes : All IsByte body)
    (small : length p.payload + length body ≤ max_length)
    (fits : length body + length rest + 14 < 2 ^ 64) where
  op_small : op < 16
  op_small = ground arith

  first_op : ((if fin then 128 else 0) + op) % 16 ≡ op
  first_op = ground (arith, op_small)

  first_fin : leb 128 ((if fin then 128 else 0) + op) ≡ fin
  first_fin = ground (arith, op_small)

  first_small : (if fin then 128 else 0) + op < 256
  first_small = ground (arith, op_small)

  -- The state with a header of `offset` bytes read from `input`.
  abbrev pub headed : Bytes → ℕ → WebSocketParser
  headed input offset = record p {
    fin = fin;
    op_code = op;
    payload_len = length body;
    offset = offset;
    mask_key = k0 ∷ k1 ∷ k2 ∷ k3 ∷ [];
    input_cache = input;
  }

  parse-headed :
      (b : ℕ) (bs : Bytes) (offset : ℕ)
      → parse_header (record p { input_cache = b ∷ bs }) ≡ (true, headed (b ∷ bs) offset)
      → drop offset (b ∷ bs) ≡ masked (k0 ∷ k1 ∷ k2 ∷ k3 ∷ []) 0 body ++ rest
      → offset + length body ≤ length (b ∷ bs)
      → length (b ∷ bs) < 2 ^ 64
      → parse p (b ∷ bs) ≡ (true, after_frame p fin op (k0 ∷ k1 ∷ k2 ∷ k3 ∷ []) body)
  parse-headed b bs offset header text room short =
      parse-parse_header p _ b bs idle header
      ∙ parse_cached_ready (record (headed (b ∷ bs) offset) { header_complete = true }) k0 k1 k2 k3
          body rest refl refl known later key_bytes body_bytes refl small text room short

  length-tail : length (masked (k0 ∷ k1 ∷ k2 ∷ k3 ∷ []) 0 body ++ rest) ≡ length body + length rest
  length-tail = omega (
    arith,
    length-append (masked (k0 ∷ k1 ∷ k2 ∷ k3 ∷ []) 0 body) rest,
    length-masked (k0 ∷ k1 ∷ k2 ∷ k3 ∷ []) 0 body,
  )

  abbrev input : Bytes
  input = client_frame fin op k0 k1 k2 k3 body ++ rest

  -- A header of `offset` bytes, and the payload behind it.
  abbrev HeadedBy : ℕ → Type 0
  HeadedBy offset =
      (parse_header (record p { input_cache = input }) ≡ (true, headed input offset))
      × (drop offset input ≡ masked (k0 ∷ k1 ∷ k2 ∷ k3 ∷ []) 0 body ++ rest)
      × (offset + length body + length rest ≡ length input)

  header_short : length body < 126 → HeadedBy 6
  header_short h =
      let len : (128 + length body) % 128 ≡ length body = omega arith in
      rw (lt→ltb _ _ h) (
        parse_header_short _ _ _ k0 k1 k2 k3 _ first_small (omega arith) (omega arith)
              (omega (arith, length-tail)) refl
            ∙ rw (first_op, first_fin, len),
        refl,
        omega (arith, length-tail),
      )

  header_medium : 126 ≤ length body → length body < 65536 → HeadedBy 8
  header_medium lower h =
      let len : length body / 256 % 256 * 256 + length body % 256 ≡ length body = omega arith in
      let over : ltb (length body) 126 ≡ false = ground arith in
      rw (over, lt→ltb _ _ h)
        (
          parse_header_medium _ _ _ _ k0 k1 k2 k3 _ first_small (omega (arith, length-tail)) refl
              ∙ rw (first_op, first_fin, len),
          refl,
          omega (arith, length-tail),
        )

  header_long : 65536 ≤ length body → HeadedBy 14
  header_long h =
      let over : ltb (length body) 126 ≡ false = ground arith in
      let over_medium : ltb (length body) 65536 ≡ false = ground arith in
      rw (over, over_medium)
        (
          parse_header_long _ _ _ _ _ _ _ _ _ _ k0 k1 k2 k3 _ first_small
                (omega (arith, length-tail)) refl
              ∙ rw (first_op, first_fin, be64_value (length body) (omega arith)),
          refl,
          omega (arith, length-tail),
        )

  pub header-client_frame : (offset : ℕ) × (offset ≤ 14) × HeadedBy offset
  header-client_frame = elim (dec_lt (length body) 126) [
    | yes short ↦ (6, omega arith, header_short short)
    | no longer ↦ elim (dec_lt (length body) 65536) [
      | yes medium ↦ (8, omega arith, header_medium (omega arith) medium)
      | no long ↦ (14, omega arith, header_long (omega arith))
    ]
  ]

  -- A client frame that arrives whole at an idle parser is accepted, and its unmasked payload joins
  -- the message, which is complete exactly if the frame is final, if the frame has a known opcode
  -- and continues a message only where one was begun, if the message stays within `kMaxLength`, and
  -- if what arrives fits in 64 bits. Bytes behind the frame in the same read leave no trace: they
  -- are dropped with the cache.
  pub parse-client_frame :
      parse p (client_frame fin op k0 k1 k2 k3 body ++ rest)
      ≡ (true, after_frame p fin op (k0 ∷ k1 ∷ k2 ∷ k3 ∷ []) body)
  parse-client_frame =
      let (offset, bound, found) = header-client_frame in
      parse-headed _ _ offset found.0 found.1 (omega (arith, found.2))
        (omega (arith, found.2, bound))
