-- ===== src/WebSocket/Parser/Prefix.antt =====
-- The bytes that the parser reads are those of any longer input.
use co_socket.Prelude.{
  ℕ, zero, suc, ◌+◌, ◌^◌, ◌≤◌, ◌<◌, ◌≡◌, refl, ap, true, [], ◌∷◌, ◌++◌, arith, Bytes, length,
  length-append, get_or, take, drop,
}
use co_socket.Prelude.Words.{read_be16, read_be32}
use co_socket.WebSocket.Parser.{WebSocketParser, have_bytes}

get_or-append : (xs ys : Bytes) (i : ℕ) → i < length xs → get_or (xs ++ ys) i 0 ≡ get_or xs i 0
get_or-append [] ys i h = absurd (omega arith)
get_or-append (x ∷ xs) ys zero h = refl
get_or-append (x ∷ xs) ys (suc i) h = get_or-append xs ys i (omega arith)

pub read_be16-append :
    (xs ys : Bytes) (i : ℕ) → i + 2 ≤ length xs → read_be16 (xs ++ ys) i ≡ read_be16 xs i
read_be16-append xs ys i h =
    rw (get_or-append xs ys i (omega arith), get_or-append xs ys (i + 1) (omega arith))

pub read_be32-append :
    (xs ys : Bytes) (i : ℕ) → i + 4 ≤ length xs → read_be32 (xs ++ ys) i ≡ read_be32 xs i
read_be32-append xs ys i h =
    omega
      (arith, read_be16-append xs ys i (omega arith), read_be16-append xs ys (i + 2) (omega arith))

pub take-drop_append :
    (n i : ℕ) (xs ys : Bytes) → i + n ≤ length xs → take n (drop i (xs ++ ys)) ≡ take n (drop i xs)
take-drop_append zero i xs ys h = refl
take-drop_append (suc n) zero [] ys h = absurd (omega arith)
take-drop_append (suc n) zero (x ∷ xs) ys h =
    ap (◌∷◌ x) (take-drop_append n zero xs ys (omega arith))
take-drop_append (suc n) (suc i) [] ys h = absurd (omega arith)
take-drop_append (suc n) (suc i) (x ∷ xs) ys h = take-drop_append (suc n) i xs ys (omega arith)

-- The parser with more behind its input.
abbrev pub more : WebSocketParser → Bytes → WebSocketParser
more p b = record p { input_cache = p.input_cache ++ b }

pub have_bytes-more :
    (p : WebSocketParser) (n : ℕ) (b key : Bytes)
    → p.offset ≤ length p.input_cache
    → length p.input_cache + length b < 2 ^ 64
    → have_bytes p n ≡ true
    → have_bytes (more (record p { mask_key = key }) b) n ≡ true
unfolding have_bytes
have_bytes-more p n b key within fits h = ground (arith, length-append p.input_cache b)

pub have_bytes-le :
    (p : WebSocketParser) (n : ℕ)
    → p.offset ≤ length p.input_cache
    → length p.input_cache < 2 ^ 64
    → have_bytes p n ≡ true
    → p.offset + n ≤ length p.input_cache
unfolding have_bytes
have_bytes-le p n within fits h = ground arith
