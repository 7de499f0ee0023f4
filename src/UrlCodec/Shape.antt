-- ===== src/UrlCodec/Shape.antt =====
-- The alphabet and the length of what `UrlEncode` writes, and the length of what `UrlDecode` reads.
use co_socket.Prelude.{
  ℕ, ◌*◌, ◌/◌, ◌%◌, ◌≤◌, ◌<◌, ◌≡◌, Bool, true, ◌||◌, ◌&&◌, [], ◌∷◌, arith, leb, ◌==◌, Bytes, IsByte,
  All, length, length-append, All-append,
}
use co_socket.UrlCodec.{to_hex, is_unreserved, encode_byte, url_encode, url_decode}

-- An unreserved byte, `+`, `%` or an upper-case hexadecimal digit.
abbrev pub IsUrlByte : (ℕ → Bool) → ℕ → Type 0
IsUrlByte isalnum c =
    (is_unreserved isalnum c
      || c == b'+'
      || c == b'%'
      || leb b'0' c && leb c b'9'
      || leb b'A' c && leb c b'F')
    ≡ true

to_hex-IsUrlByte : (isalnum : ℕ → Bool) (x : ℕ) → x < 16 → IsUrlByte isalnum (to_hex x)
unfolding to_hex is_unreserved
to_hex-IsUrlByte isalnum x h = ground arith

encode_byte-IsUrlByte :
    (isalnum : ℕ → Bool) (c : ℕ) → c < 256 → All (IsUrlByte isalnum) (encode_byte isalnum c)
unfolding encode_byte
encode_byte-IsUrlByte isalnum c h =
    ground (arith, to_hex-IsUrlByte isalnum (c / 16), to_hex-IsUrlByte isalnum (c % 16))

length-encode_byte : (isalnum : ℕ → Bool) (c : ℕ) → length (encode_byte isalnum c) ≤ 3
unfolding encode_byte
length-encode_byte isalnum c = ground arith

-- Every byte of an encoded text is unreserved, `+`, `%` or an upper-case hexadecimal digit, and the
-- text is at most three times as long as its source.
pub url_encode_shape :
    (isalnum : ℕ → Bool) (s : Bytes)
    → All IsByte s
    → All (IsUrlByte isalnum) (url_encode isalnum s)
      × (length (url_encode isalnum s) ≤ 3 * length s)
unfolding url_encode
url_encode_shape isalnum [] h = (tt, omega arith)
url_encode_shape isalnum (c ∷ cs) h =
    let rest = url_encode_shape isalnum cs h.1 in
    (
      All-append (IsUrlByte isalnum) (encode_byte isalnum c) (url_encode isalnum cs)
          (encode_byte-IsUrlByte isalnum c h.0) rest.0,
      omega (
        arith,
        length-append (encode_byte isalnum c) (url_encode isalnum cs),
        length-encode_byte isalnum c,
        rest.1,
      ),
    )

-- A decoded text is at most as long as its source.
pub length-url_decode : (s : Bytes) → length (url_decode s) ≤ length s
unfolding url_decode
length-url_decode [] = omega arith
length-url_decode (c ∷ []) = ground arith
length-url_decode (c ∷ h ∷ []) = ground (arith, length-url_decode (h ∷ []))
length-url_decode (c ∷ h ∷ l ∷ cs) =
    ground (arith, length-url_decode cs, length-url_decode (h ∷ l ∷ cs))
