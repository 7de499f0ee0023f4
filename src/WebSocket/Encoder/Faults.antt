-- ===== src/WebSocket/Encoder/Faults.antt =====
-- Where the frames of the encoder are not those of RFC 6455.
use co_socket.Prelude.{
  ℕ, ◌+◌, ◌*◌, ◌^◌, ◌≤◌, ◌<◌, ◌≡◌, true, [], ◌∷◌, ◌++◌, arith, Bytes, length, length-take, take, ap,
  ◌∙◌, if◌then◌else◌, get_or, ltb,
}
use co_socket.Prelude.Bits.{bit_or_top, bit_or_zero}
use co_socket.WebSocket.Parser.Masking.{length-masked}
use co_socket.WebSocket.Parser.Header.{
  announced_length, announced_length_medium, announced_length_long,
}
use co_socket.WebSocket.Parser.{WebSocketParser}
use co_socket.WebSocket.Encoder.Frames.{next_code, next_size, mask_loop-masked}
use co_socket.WebSocket.Encoder.{
  WebSocketEncoder, length_field, left_over, encode, is_complete, mask_loop,
}

-- A message whose rest fills one frame exactly ends in that frame, which is not marked final: the
-- encoder is complete, and the receiver waits for a final frame that never comes.
pub encode_no_final :
    (e : WebSocketEncoder) (mask : Bytes)
    → e.offset ≤ e.len
    → e.len < 2 ^ 64
    → next_code e < 16
    → e.len ≡ e.offset + e.frame_size
    → (is_complete (encode mask e) ≡ true) × (get_or (encode mask e).output_buf 0 0 < 128)
unfolding encode is_complete left_over
encode_no_final e mask h fits code whole = ground (arith, bit_or_zero (next_code e))

length-mask_loop :
    (k0 k1 k2 k3 i : ℕ) (bs : Bytes) → length (mask_loop (k0 ∷ k1 ∷ k2 ∷ k3 ∷ []) i bs) ≡ length bs
length-mask_loop k0 k1 k2 k3 i bs =
    ap length (mask_loop-masked k0 k1 k2 k3 i bs) ∙ length-masked (k0 ∷ k1 ∷ k2 ∷ k3 ∷ []) i bs

length_field_126 : (n : ℕ) → n ≡ 126 → length_field true n ≡ 254 ∷ []
unfolding length_field
length_field_126 n h = ground (arith, bit_or_top n)

length_field_long :
    (n : ℕ) → 65535 < n → n < 2 ^ 32 → length_field true n ≡ 255 ∷ 0 ∷ 0 ∷ 0 ∷ 0 ∷ []
unfolding length_field
length_field_long n h k = ground (arith, bit_or_top 127)

module _ (e : WebSocketEncoder) (k0 k1 k2 k3 : ℕ) (client : e.is_client ≡ true)
    (code : next_code e < 16) (room : next_size e ≤ length e.content) where
  encode_output :
      (encode (k0 ∷ k1 ∷ k2 ∷ k3 ∷ []) e).output_buf
      ≡ ((if ltb (left_over e) e.frame_size then 128 else 0) + next_code e)
        ∷ (length_field true (next_size e)
            ++ (k0
                ∷ k1
                ∷ k2
                ∷ k3
                ∷ mask_loop (k0 ∷ k1 ∷ k2 ∷ k3 ∷ []) 0 (take (next_size e) e.content)))
  unfolding encode
  encode_output = rw client (ground (arith, bit_or_top (next_code e), bit_or_zero (next_code e)))

  length-body :
      next_size e < 2 ^ 32
      → length (mask_loop (k0 ∷ k1 ∷ k2 ∷ k3 ∷ []) 0 (take (next_size e) e.content)) + 2 < 2 ^ 33
  length-body h = omega (
    arith,
    length-mask_loop k0 k1 k2 k3 0 (take (next_size e) e.content),
    length-take (next_size e) e.content,
  )

  -- A client's frame of exactly 126 bytes carries no extended length: the parser takes the first two
  -- bytes of the mask for the length.
  pub encode_126 :
      next_size e ≡ 126
      → (p : WebSocketParser)
      → announced_length p (encode (k0 ∷ k1 ∷ k2 ∷ k3 ∷ []) e).output_buf ≡ k0 * 256 + k1
  encode_126 h p =
      rw (encode_output, length_field_126 (next_size e) h)
        (announced_length_medium p _ k0 k1 _ (omega (arith, length-body (omega arith))))

  -- A client's frame of more than 65535 bytes and less than 4 GB carries the upper four bytes of its
  -- length, which are zero: the parser takes the mask for the length.
  pub encode_long :
      65535 < next_size e
      → next_size e < 2 ^ 32
      → (p : WebSocketParser)
      → announced_length p (encode (k0 ∷ k1 ∷ k2 ∷ k3 ∷ []) e).output_buf
        ≡ (k0 * 256 + k1) * 65536 + (k2 * 256 + k3)
  encode_long h k p =
      rw (encode_output, length_field_long (next_size e) h k)
        (announced_length_long p _ k0 k1 k2 k3 _ (omega (arith, length-body k)))
