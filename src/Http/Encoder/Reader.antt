-- ===== src/Http/Encoder/Reader.antt =====
-- How a message of HTTP/1.1 is read off a stream, by the format: a start line, the fields up to an
-- empty line, and as many bytes as the field Content-Length says. It describes the texts of
-- CoSocket/net/http/HttpEncoder.h from the other side.
use co_socket.Prelude.{
  ℕ, zero, suc, Bool, true, false, ◌&&◌, Option, none, some, List, [], ◌∷◌, ◌==◌, leb,
  if◌then◌else◌, Bytes, length, take, drop,
}
use co_socket.Prelude.Text.{ascii, number}

pub record Message : Type 0 where
  pub start : Bytes
  pub fields : List (Bytes × Bytes)
  pub body : Bytes

abbrev pub prepend : {A B : Type 0} → A → Option (List A × B) → Option (List A × B)
prepend a none = none
prepend a (some (rest, b)) = some (a ∷ rest, b)

-- The text before the first CRLF, and what stands behind it.
unfoldable pub split_line : Bytes → Option (Bytes × Bytes)
split_line [] = none
split_line (c ∷ []) = none
split_line (c ∷ d ∷ cs) =
    let later = prepend c (split_line (d ∷ cs)) in
    if c == b'\r' && d == b'\n' then some ([], cs) else later

-- A field: the name before the colon, and the value behind the colon and a space.
unfoldable pub split_field : Bytes → Bytes × Bytes
split_field [] = ([], [])
split_field (c ∷ cs) =
    let (name, value) = split_field cs in if c == b':' then ([], drop 1 cs) else (c ∷ name, value)

-- The fields up to an empty line.
unfoldable pub read_fields : ℕ → Bytes → Option (List (Bytes × Bytes) × Bytes)
unfolding split_line split_field
read_fields zero bytes = none
read_fields (suc fuel) bytes = elim (split_line bytes) [
  | none ↦ none
  | some ([], rest) ↦ some ([], rest)
  | some (c ∷ cs, rest) ↦ prepend (split_field (c ∷ cs)) (read_fields fuel rest)
]

unfoldable pub same : Bytes → Bytes → Bool
same [] [] = true
same [] (y ∷ ys) = false
same (x ∷ xs) [] = false
same (x ∷ xs) (y ∷ ys) = x == y && same xs ys

-- The first field Content-Length.
unfoldable pub content_length : List (Bytes × Bytes) → ℕ
unfolding same
content_length [] = 0
content_length ((name, value) ∷ fields) =
    if same name (ascii "Content-Length") then number 0 value else content_length fields

-- The message with its fields and the rest of the stream, if its body has arrived.
unfoldable pub with_body : Bytes → Option (List (Bytes × Bytes) × Bytes) → Option (Message × Bytes)
unfolding content_length
with_body start none = none
with_body start (some (fields, rest)) =
    let n = content_length fields in
    if leb n (length rest)
    then some (record { start = start; fields = fields; body = take n rest }, drop n rest)
    else none

unfoldable pub with_start : Option (Bytes × Bytes) → Option (Message × Bytes)
unfolding with_body read_fields
with_start none = none
with_start (some (start, rest)) = with_body start (read_fields (length rest) rest)

-- The first message of a stream, and what stands behind it.
unfoldable pub read_message : Bytes → Option (Message × Bytes)
unfolding with_start split_line
read_message bytes = with_start (split_line bytes)
