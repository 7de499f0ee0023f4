-- ===== src/UrlCodec.antt =====
-- CoSocket/base/UrlCodec.cpp: percent encoding of byte strings. A `std::string` is the list of its
-- bytes; `isalnum` of the C library is a parameter.
pub mod RoundTrip
pub mod Shape
use co_socket.Prelude.{
  ℕ, ◌+◌, ◌-◌, ◌*◌, ◌/◌, ◌%◌, Bool, true, false, ◌||◌, ◌&&◌, List, [], ◌∷◌, ◌++◌, ltb, leb, ◌==◌,
  if◌then◌else◌, Bytes,
}

-- The result is an `unsigned char`.
unfoldable pub to_hex : ℕ → ℕ
to_hex x = (if ltb 9 x then x + 55 else x + 48) % 256

unfoldable pub from_hex : ℕ → ℕ
from_hex x =
    if leb b'A' x && leb x b'Z'
    then x - b'A' + 10
    else if leb b'a' x && leb x b'z'
    then x - b'a' + 10
    else if leb b'0' x && leb x b'9'
    then x - b'0'
    else 0

-- The bytes that `UrlEncode` copies.
unfoldable pub is_unreserved : (ℕ → Bool) → ℕ → Bool
is_unreserved isalnum c = isalnum c || c == b'-' || c == b'_' || c == b'.' || c == b'~'

-- One round of the loop of `UrlEncode`.
unfoldable pub encode_byte : (ℕ → Bool) → ℕ → Bytes
unfolding to_hex
encode_byte isalnum c =
    if is_unreserved isalnum c
    then c ∷ []
    else if c == b' '
    then b'+' ∷ []
    else b'%' ∷ to_hex (c / 16) ∷ to_hex (c % 16) ∷ []

unfoldable pub url_encode : (ℕ → Bool) → Bytes → Bytes
unfolding encode_byte
url_encode isalnum [] = []
url_encode isalnum (c ∷ cs) = encode_byte isalnum c ++ url_encode isalnum cs

-- A byte that is no escape.
unfoldable pub decode_plain : ℕ → ℕ
decode_plain c = if c == b'+' then b' ' else c

-- `i + 2 >= str.size()` holds where fewer than two bytes follow: the percent sign is dropped, and
-- the loop goes on with the byte behind it.
unfoldable pub url_decode : Bytes → Bytes
unfolding decode_plain from_hex
url_decode [] = []
url_decode (c ∷ []) = elim (c == b'%') [ true ↦ [] | false ↦ decode_plain c ∷ [] ]
url_decode (c ∷ h ∷ []) = elim (c == b'%') [
  | true ↦ url_decode (h ∷ [])
  | false ↦ decode_plain c ∷ url_decode (h ∷ [])
]
url_decode (c ∷ h ∷ l ∷ cs) = elim (c == b'%') [
  | true ↦ ((from_hex h * 16 + from_hex l) % 256) ∷ url_decode cs
  | false ↦ decode_plain c ∷ url_decode (h ∷ l ∷ cs)
]
