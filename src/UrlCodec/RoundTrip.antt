-- ===== src/UrlCodec/RoundTrip.antt =====
-- `UrlDecode` on what `UrlEncode` writes.
use co_socket.Prelude.{
  ℕ, ◌/◌, ◌%◌, ◌<◌, ◌≡◌, refl, ap, ◌∙◌, ◌≢◌, inl, inr, Bool, true, ◌||◌, ◌&&◌, [], ◌∷◌, ◌++◌, arith,
  leb, ◌==◌, Bytes, IsByte, All, Bool-cases,
}
use co_socket.UrlCodec.{to_hex, from_hex, is_unreserved, encode_byte, url_encode, url_decode}

-- What the C library documents of `isalnum` in the "C" locale: it accepts letters and digits only.
abbrev pub IsAlnumTest : (ℕ → Bool) → Type 0
IsAlnumTest isalnum =
    (c : ℕ)
    → isalnum c ≡ true
    → (leb b'0' c && leb c b'9' || leb b'A' c && leb c b'Z' || leb b'a' c && leb c b'z') ≡ true

from_hex-to_hex : (x : ℕ) → x < 16 → from_hex (to_hex x) ≡ x
unfolding to_hex from_hex
from_hex-to_hex x h = ground arith

url_decode_plain :
    (c : ℕ) (rest : Bytes) → c ≢ b'%' → c ≢ b'+' → url_decode (c ∷ rest) ≡ c ∷ url_decode rest
unfolding url_decode
url_decode_plain c [] h k = ground arith
url_decode_plain c (a ∷ []) h k = ground arith
url_decode_plain c (a ∷ b ∷ rest) h k = ground arith

-- A byte that `UrlDecode` copies.
abbrev pub IsCopied : ℕ → Type 0
IsCopied c = (c ≢ b'%') × (c ≢ b'+')

-- A text without percent signs and plus signs is decoded to itself.
pub url_decode_copied : (s : Bytes) → All IsCopied s → url_decode s ≡ s
unfolding url_decode
url_decode_copied [] h = refl
url_decode_copied (c ∷ cs) h =
    url_decode_plain c cs h.0.0 h.0.1 ∙ ap (◌∷◌ c) (url_decode_copied cs h.1)

url_decode_plus : (rest : Bytes) → url_decode (b'+' ∷ rest) ≡ b' ' ∷ url_decode rest
unfolding url_decode
url_decode_plus [] = refl
url_decode_plus (a ∷ []) = refl
url_decode_plus (a ∷ b ∷ rest) = refl

url_decode_escape :
    (c : ℕ) (rest : Bytes)
    → c < 256
    → url_decode (b'%' ∷ to_hex (c / 16) ∷ to_hex (c % 16) ∷ rest) ≡ c ∷ url_decode rest
unfolding url_decode
url_decode_escape c rest h =
    ground (arith, from_hex-to_hex (c / 16) (omega arith), from_hex-to_hex (c % 16) (omega arith))

module _ (isalnum : ℕ → Bool) (documented : IsAlnumTest isalnum) where
  is_unreserved_plain : (c : ℕ) → is_unreserved isalnum c ≡ true → (c ≢ b'%') × (c ≢ b'+')
  unfolding is_unreserved
  is_unreserved_plain c h = ground (arith, documented c)

  url_decode-encode_byte :
      (c : ℕ) (rest : Bytes)
      → c < 256
      → url_decode (encode_byte isalnum c ++ rest) ≡ c ∷ url_decode rest
  unfolding encode_byte
  url_decode-encode_byte c rest h = elim (Bool-cases (is_unreserved isalnum c)) [
    | inl copied ↦
        let (p, q) = is_unreserved_plain c copied in rw copied (url_decode_plain c rest p q)
    | inr other ↦ elim (Bool-cases (c == b' ')) [
      | inl space ↦ rw (other, space) (url_decode_plus rest ∙ ground arith)
      | inr escaped ↦ rw (other, escaped) (url_decode_escape c rest h)
    ]
  ]

  -- Decoding an encoded byte string gives it back, whatever bytes it holds, if `isalnum` accepts
  -- letters and digits only.
  pub url_decode-url_encode : (s : Bytes) → All IsByte s → url_decode (url_encode isalnum s) ≡ s
  unfolding url_encode
  url_decode-url_encode [] h = unfold url_decode in refl
  url_decode-url_encode (c ∷ cs) h =
      url_decode-encode_byte c (url_encode isalnum cs) h.0
      ∙ ap (◌∷◌ c) (url_decode-url_encode cs h.1)
