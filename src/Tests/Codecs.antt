-- ===== src/Tests/Codecs.antt =====
-- Percent encoding at concrete texts.
use co_socket.Prelude.{
  ℕ, ◌*◌, ◌≤◌, ◌≡◌, refl, Bool, ◌||◌, ◌&&◌, [], ◌∷◌, arith, leb, Bytes, All, length,
}
use co_socket.UrlCodec.{url_encode, url_decode, encode_byte, to_hex, is_unreserved, decode_plain}
use co_socket.UrlCodec.RoundTrip.{IsAlnumTest, url_decode-url_encode}
use co_socket.UrlCodec.Shape.{IsUrlByte, url_encode_shape, length-url_decode}

-- `isalnum` in the "C" locale.
abbrev is_alnum : ℕ → Bool
is_alnum c = leb b'0' c && leb c b'9' || leb b'A' c && leb c b'Z' || leb b'a' c && leb c b'z'

is_alnum-IsAlnumTest : IsAlnumTest is_alnum
is_alnum-IsAlnumTest c h = h

-- "a +%" and a byte outside ASCII.
abbrev text : Bytes
text = b'a' ∷ b' ' ∷ b'+' ∷ b'%' ∷ 200 ∷ []

url_encode-text :
    url_encode is_alnum text
    ≡ b'a' ∷ b'+' ∷ b'%' ∷ b'2' ∷ b'B' ∷ b'%' ∷ b'2' ∷ b'5' ∷ b'%' ∷ b'C' ∷ b'8' ∷ []
unfolding url_encode encode_byte to_hex is_unreserved
url_encode-text = refl

abbrev cut : Bytes
cut = b'%' ∷ b'4' ∷ b'1' ∷ []

-- An escape that is cut off loses its percent sign.
url_decode_cut : url_decode (b'%' ∷ b'4' ∷ []) ≡ b'4' ∷ []
unfolding url_decode decode_plain
url_decode_cut = refl

url_decode-url_encode_example : url_decode (url_encode is_alnum text) ≡ text
url_decode-url_encode_example =
    url_decode-url_encode is_alnum is_alnum-IsAlnumTest text (ground arith)

url_encode_shape_example :
    All (IsUrlByte is_alnum) (url_encode is_alnum text)
    × (length (url_encode is_alnum text) ≤ 3 * length text)
url_encode_shape_example = url_encode_shape is_alnum text (ground arith)

length-url_decode_example : length (url_decode cut) ≤ length cut
length-url_decode_example = length-url_decode cut
