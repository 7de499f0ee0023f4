-- ===== src/WebSocket/Parser/Header.antt =====
-- `ParseHeader` on the header of a masked frame, in its three forms.
use co_socket.Prelude.{
  ℕ, ◌+◌, ◌*◌, ◌%◌, ◌^◌, ◌≤◌, ◌<◌, ◌≡◌, true, [], ◌∷◌, arith, Bytes, length, leb,
}
use co_socket.Prelude.Bits.{bit_and_low_nibble, bit_and_low_seven, bit_and_top}
use co_socket.WebSocket.Parser.{WebSocketParser, parse_header}

-- The header of one byte for the length: a mask bit and a length below 126.
pub parse_header_short :
    (p : WebSocketParser) (b0 b1 k0 k1 k2 k3 : ℕ) (body : Bytes)
    → b0 < 256
    → 128 ≤ b1
    → b1 < 254
    → length body + 6 < 2 ^ 64
    → p.input_cache ≡ b0 ∷ b1 ∷ k0 ∷ k1 ∷ k2 ∷ k3 ∷ body
    → parse_header p ≡ (
      true,
      record p {
        op_code = b0 % 16;
        fin = leb 128 b0;
        payload_len = b1 % 128;
        offset = 6;
        mask_key = k0 ∷ k1 ∷ k2 ∷ k3 ∷ [];
      },
    )
unfolding parse_header
parse_header_short p b0 b1 k0 k1 k2 k3 body h0 h1 h2 hl e =
    ground (arith, bit_and_low_nibble b0, bit_and_low_seven b1, bit_and_top b0, bit_and_top b1)

-- The header with a 16-bit length.
pub parse_header_medium :
    (p : WebSocketParser) (b0 n1 n0 k0 k1 k2 k3 : ℕ) (body : Bytes)
    → b0 < 256
    → length body + 8 < 2 ^ 64
    → p.input_cache ≡ b0 ∷ 254 ∷ n1 ∷ n0 ∷ k0 ∷ k1 ∷ k2 ∷ k3 ∷ body
    → parse_header p ≡ (
      true,
      record p {
        op_code = b0 % 16;
        fin = leb 128 b0;
        payload_len = n1 * 256 + n0;
        offset = 8;
        mask_key = k0 ∷ k1 ∷ k2 ∷ k3 ∷ [];
      },
    )
unfolding parse_header
parse_header_medium p b0 n1 n0 k0 k1 k2 k3 body h0 hl e =
    ground (arith, bit_and_low_nibble b0, bit_and_top b0)

-- The header with a 64-bit length.
pub parse_header_long :
    (p : WebSocketParser) (b0 n7 n6 n5 n4 n3 n2 n1 n0 k0 k1 k2 k3 : ℕ) (body : Bytes)
    → b0 < 256
    → length body + 14 < 2 ^ 64
    → p.input_cache ≡ b0 ∷ 255 ∷ n7 ∷ n6 ∷ n5 ∷ n4 ∷ n3 ∷ n2 ∷ n1 ∷ n0 ∷ k0 ∷ k1 ∷ k2 ∷ k3 ∷ body
    → parse_header p ≡ (
      true,
      record p {
        op_code = b0 % 16;
        fin = leb 128 b0;
        payload_len =
            ((n7 * 256 + n6) * 65536 + (n5 * 256 + n4)) * 2 ^ 32
            + ((n3 * 256 + n2) * 65536 + (n1 * 256 + n0));
        offset = 14;
        mask_key = k0 ∷ k1 ∷ k2 ∷ k3 ∷ [];
      },
    )
unfolding parse_header
parse_header_long p b0 n7 n6 n5 n4 n3 n2 n1 n0 k0 k1 k2 k3 body h0 hl e =
    ground (arith, bit_and_low_nibble b0, bit_and_top b0)

-- The payload length that a header announces.
abbrev pub announced_length : WebSocketParser → Bytes → ℕ
announced_length p input =
    let (whole, q) = parse_header (record p { input_cache = input }) in q.payload_len

pub announced_length_medium :
    (p : WebSocketParser) (b0 n1 n0 : ℕ) (rest : Bytes)
    → length rest < 2 ^ 34
    → announced_length p (b0 ∷ 254 ∷ n1 ∷ n0 ∷ rest) ≡ n1 * 256 + n0
unfolding parse_header
announced_length_medium p b0 n1 n0 rest h = ground arith

pub announced_length_long :
    (p : WebSocketParser) (b0 n3 n2 n1 n0 : ℕ) (rest : Bytes)
    → length rest < 2 ^ 34
    → announced_length p (b0 ∷ 255 ∷ 0 ∷ 0 ∷ 0 ∷ 0 ∷ n3 ∷ n2 ∷ n1 ∷ n0 ∷ rest)
      ≡ (n3 * 256 + n2) * 65536 + (n1 * 256 + n0)
unfolding parse_header
announced_length_long p b0 n3 n2 n1 n0 rest h = ground arith
