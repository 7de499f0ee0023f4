-- ===== src/Http/Encoder/Framed.antt =====
-- The texts of the encoder are messages whose end a reader finds.
use co_socket.Prelude.{
  ℕ, zero, suc, ◌+◌, ◌≤◌, ◌<◌, ◌≡◌, ◌≢◌, refl, ap, ◌∙◌, true, false, some, [], ◌∷◌, ◌++◌,
  append_assoc, arith, ◌==◌, leb, Bool-cases, inl, inr, if◌then◌else◌, Bytes, All, All-append,
  length, length-append, take-append, drop-length,
}
use co_socket.Prelude.Text.{ascii, decimal, number-decimal, IsDigit, decimal-IsDigit}
use co_socket.Http.Table.{Table}
use co_socket.Http.Encoder.{HttpEncoder, header_lines, append_to_stream}
use co_socket.Http.Encoder.Reader.{
  prepend, split_line, split_field, read_fields, content_length, with_body, with_start,
}

-- A text without a carriage return.
abbrev pub IsLine : Bytes → Type 0
IsLine text = All (λ b. b ≢ b'\r') text

-- A header whose name has no colon either.
abbrev pub IsField : Bytes × Bytes → Type 0
IsField (name, value) = IsLine name × All (λ b. b ≢ b':') name × IsLine value

abbrev pub line_end : Bytes → Bytes
line_end rest = b'\r' ∷ b'\n' ∷ rest

pub split_line-IsLine :
    (line rest : Bytes) → IsLine line → split_line (line ++ line_end rest) ≡ some (line, rest)
unfolding split_line
split_line-IsLine [] rest h = refl
split_line-IsLine (c ∷ []) rest h = ground arith
split_line-IsLine (c ∷ d ∷ line) rest h =
    let later = split_line-IsLine (d ∷ line) rest h.1 in
    let other : (c == b'\r') ≡ false = ground (arith, h.0) in rw (other, later)

split_field-colon :
    (name value : Bytes)
    → All (λ b. b ≢ b':') name
    → split_field (name ++ ascii ": " ++ value) ≡ (name, value)
unfolding split_field
split_field-colon [] value h = refl
split_field-colon (c ∷ name) value h =
    let later = split_field-colon name value h.1 in
    let other : (c == b':') ≡ false = ground (arith, h.0) in rw (other, later)

read_fields-line :
    (fuel : ℕ) (c : ℕ) (cs rest : Bytes)
    → IsLine (c ∷ cs)
    → read_fields (suc fuel) ((c ∷ cs) ++ line_end rest)
      ≡ prepend (split_field (c ∷ cs)) (read_fields fuel rest)
unfolding read_fields
read_fields-line fuel c cs rest h = rw (split_line-IsLine (c ∷ cs) rest h, read_fields)

-- A header as it is written, before its line's end.
abbrev field_text : Bytes → Bytes → Bytes
field_text name value = name ++ ascii ": " ++ value

field_text-IsLine : (name value : Bytes) → IsField (name, value) → IsLine (field_text name value)
field_text-IsLine name value (plain, no_colon, one_line) =
    All-append _ (name ++ ascii ": ") value
      (All-append _ name (ascii ": ") plain (omega arith, omega arith)) one_line

-- One field is read, whether its name is empty or not.
read_fields-field :
    (fuel : ℕ) (name value rest : Bytes)
    → IsField (name, value)
    → read_fields (suc fuel) (field_text name value ++ line_end rest)
      ≡ prepend (name, value) (read_fields fuel rest)
read_fields-field fuel [] value rest h =
    read_fields-line fuel _ _ rest (field_text-IsLine [] value h)
    ∙ ap (λ f. prepend f (read_fields fuel rest)) (split_field-colon [] value tt)
read_fields-field fuel (c ∷ name) value rest h =
    read_fields-line fuel c (field_text name value) rest (field_text-IsLine (c ∷ name) value h)
    ∙ ap (λ f. prepend f (read_fields fuel rest)) (split_field-colon (c ∷ name) value h.1)

header_lines-cons :
    (name value : Bytes) (fields : Table) (rest : Bytes)
    → header_lines ((name, value) ∷ fields) ++ line_end rest
      ≡ field_text name value ++ line_end (header_lines fields ++ line_end rest)
unfolding header_lines
header_lines-cons name value fields rest = simp append_assoc

read_fields-header_lines :
    (fuel : ℕ) (fields : Table) (rest : Bytes)
    → length fields < fuel
    → All IsField fields
    → read_fields fuel (header_lines fields ++ line_end rest) ≡ some (fields, rest)
unfolding read_fields
read_fields-header_lines zero fields rest enough h = absurd (omega arith)
read_fields-header_lines (suc fuel) [] rest enough h = unfold header_lines split_line in refl
read_fields-header_lines (suc fuel) ((name, value) ∷ fields) rest enough h =
    ap (read_fields (suc fuel)) (header_lines-cons name value fields rest)
    ∙ read_fields-field fuel name value (header_lines fields ++ line_end rest) h.0
    ∙ ap (prepend (name, value)) (read_fields-header_lines fuel fields rest (omega arith) h.1)

length-header_lines :
    (fields : Table) (rest : Bytes)
    → length fields + length rest ≤ length (header_lines fields ++ rest)
unfolding header_lines
length-header_lines [] rest = omega arith
length-header_lines ((name, value) ∷ fields) rest =
    let line = field_text name value ++ ascii "\r\n" in
    let later = length-header_lines fields rest in
    omega (
      arith,
      later,
      ap length (append_assoc line (header_lines fields) rest),
      length-append line (header_lines fields ++ rest),
      length-append (field_text name value) (ascii "\r\n"),
    )

-- The fields that the encoder writes: those of its own, and the headers.
abbrev pub written_fields : HttpEncoder → Table
written_fields e =
    (ascii "Content-Length", decimal (length e.body))
    ∷ (ascii "Connection", if e.close_connection then ascii "close" else ascii "Keep-Alive")
    ∷ e.headers

append_to_stream-header_lines :
    (e : HttpEncoder) (rest : Bytes)
    → append_to_stream e ++ rest ≡ header_lines (written_fields e) ++ line_end (e.body ++ rest)
unfolding append_to_stream header_lines
append_to_stream-header_lines e rest = elim (Bool-cases e.close_connection) [
  | inl closes ↦ simp (closes, append_assoc)
  | inr keeps ↦ simp (keeps, append_assoc)
]

pub digit-IsLine : (text : Bytes) → All IsDigit text → IsLine text
digit-IsLine [] h = tt
digit-IsLine (d ∷ ds) h = (omega arith, digit-IsLine ds h.1)

written_fields-IsField : (e : HttpEncoder) → All IsField e.headers → All IsField (written_fields e)
written_fields-IsField e h = (
  (omega arith, omega arith, digit-IsLine _ (decimal-IsDigit (length e.body))),
  (
    (
      omega arith,
      omega arith,
      elim (Bool-cases e.close_connection) [
        | inl closes ↦ rw closes (omega arith)
        | inr keeps ↦ rw keeps (omega arith)
      ],
    ),
    h,
  ),
)

leb_own : (body rest : Bytes) → leb (length body) (length (body ++ rest)) ≡ true
leb_own body rest = ground (arith, length-append body rest)

with_body-written :
    (start : Bytes) (e : HttpEncoder) (rest : Bytes)
    → with_body start (some (written_fields e, e.body ++ rest))
      ≡ some (record { start = start; fields = written_fields e; body = e.body }, rest)
unfolding with_body content_length
with_body-written start e rest = rw (
  number-decimal (length e.body),
  leb_own e.body rest,
  take-append (length e.body) e.body rest refl,
  drop-length e.body rest,
)

-- What is read behind a start line is what was written.
pub with_start-append_to_stream :
    (start : Bytes) (e : HttpEncoder) (rest : Bytes)
    → All IsField e.headers
    → with_start (some (start, append_to_stream e ++ rest))
      ≡ some (record { start = start; fields = written_fields e; body = e.body }, rest)
unfolding with_start
with_start-append_to_stream start e rest h =
    let fields = written_fields e in
    let text = header_lines fields ++ line_end (e.body ++ rest) in
    let enough : length fields < length text =
      omega (arith, length-header_lines fields (line_end (e.body ++ rest))) in
    ap (λ b. with_body start (read_fields (length b) b)) (append_to_stream-header_lines e rest)
    ∙ ap (with_body start) (
        read_fields-header_lines (length text) fields (e.body ++ rest) enough
          (written_fields-IsField e h))
    ∙ with_body-written start e rest
