-- ===== src/WebSocket/Encoder/Frames.antt =====
-- The frames of a client's encoder against the layout that the parser reads.
use co_socket.Prelude.{
  ℕ, ◌+◌, ◌≤◌, ◌<◌, ◌≡◌, ◌≢◌, List, refl, true, [], ◌∷◌, arith, Bytes, length, length-take, ltb,
  ◌==◌, if◌then◌else◌, take, drop,
}
use co_socket.Prelude.Bits.{bit_or_top, bit_or_zero}
use co_socket.WebSocket.Parser.Masking.{masked}
use co_socket.WebSocket.Parser.Decode.{client_frame, frame_length}
use co_socket.WebSocket.Encoder.{WebSocketEncoder, length_field, mask_loop, left_over, encode}

-- The bytes that the next frame carries.
abbrev pub next_size : WebSocketEncoder → ℕ
next_size e = if ltb (left_over e) e.frame_size then left_over e else e.frame_size

-- The opcode of the next frame: only the first frame of a message carries the message's.
abbrev pub next_code : WebSocketEncoder → ℕ
next_code e = if e.offset == 0 then e.op_code else 0

length_field-frame_length : (n : ℕ) → n ≢ 126 → n < 65536 → length_field true n ≡ frame_length n
unfolding length_field
length_field-frame_length n h k = ground (arith, bit_or_top n)

pub mask_loop-masked :
    (k0 k1 k2 k3 i : ℕ) (bs : Bytes)
    → mask_loop (k0 ∷ k1 ∷ k2 ∷ k3 ∷ []) i bs ≡ masked (k0 ∷ k1 ∷ k2 ∷ k3 ∷ []) i bs
unfolding mask_loop
mask_loop-masked k0 k1 k2 k3 i [] = refl
mask_loop-masked k0 k1 k2 k3 i (b ∷ bs) = cc (mask_loop-masked k0 k1 k2 k3 (i + 1) bs)

pub length-take-le {ℓ} : {A : Type ℓ} (n : ℕ) (xs : List A) → n ≤ length xs → length (take n xs) ≡ n
length-take-le n xs h = omega (arith, length-take n xs)

module _ (e : WebSocketEncoder) (k0 k1 k2 k3 : ℕ) (client : e.is_client ≡ true)
    (code : next_code e < 16) (room : next_size e ≤ length e.content) where
  -- A client's frame of a size other than 126 and below 65536 has the layout that the parser reads:
  -- it is final exactly if less than a whole frame was left, and the encoder moves past the bytes.
  pub encode-client_frame :
      next_size e ≢ 126
      → next_size e < 65536
      → encode (k0 ∷ k1 ∷ k2 ∷ k3 ∷ []) e ≡ record e {
        op_code = next_code e;
        output_buf =
            client_frame
              (ltb (left_over e) e.frame_size)
              (next_code e)
              k0
              k1
              k2
              k3
              (take (next_size e) e.content);
        content = drop (next_size e) e.content;
        offset = e.offset + next_size e;
      }
  unfolding encode
  encode-client_frame h k =
      let size : length (take (next_size e) e.content) ≡ next_size e =
        length-take-le (next_size e) e.content room in
      rw client (
        ground (
          arith,
          length_field-frame_length (next_size e) h k,
          mask_loop-masked k0 k1 k2 k3 0 (take (next_size e) e.content),
          bit_or_top (next_code e),
          bit_or_zero (next_code e),
        ))
