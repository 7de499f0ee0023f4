-- ===== src/WebSocket/Encoder/Stream.antt =====
-- How a client reads the messages of a server off a stream, by RFC 6455: frames without a mask, up to
-- the final one. It describes the frames of CoSocket/net/http/WebSocketEncoder.h from the other side.
use co_socket.Prelude.{
  ℕ, zero, suc, ◌+◌, ◌*◌, ◌%◌, ◌≡◌, ◌<◌, refl, Bool, true, false, Option, none, some, [], ◌∷◌, ◌++◌,
  ◌==◌, leb, ltb, if◌then◌else◌, Bytes, length, length-append, take, drop, take-append, drop-length,
  arith, Bool-cases, inl, inr, ◌/◌,
}
use co_socket.Prelude.Words.{be16}

pub record Frame : Type 0 where
  pub fin : Bool
  pub code : ℕ
  pub payload : Bytes

-- A payload of so many bytes, if they have arrived.
unfoldable pub with_payload : Bool → ℕ → ℕ → Bytes → Option (Frame × Bytes)
with_payload fin code n rest =
    if leb n (length rest)
    then some (record { fin = fin; code = code; payload = take n rest }, drop n rest)
    else none

-- The length of 16 bits.
unfoldable pub with_long : Bool → ℕ → Bytes → Option (Frame × Bytes)
unfolding with_payload
with_long fin code (n1 ∷ n0 ∷ rest) = with_payload fin code (n1 * 256 + n0) rest
with_long fin code _ = none

-- A frame below 65536 bytes, and what stands behind it; the length codes 127 and those with the mask
-- bit are refused.
unfoldable pub read_frame : Bytes → Option (Frame × Bytes)
unfolding with_payload with_long
read_frame (b0 ∷ b1 ∷ rest) =
    let fin = leb 128 b0 in
    let code = b0 % 128 in
    if ltb b1 126
    then with_payload fin code b1 rest
    else if b1 == 126
    then with_long fin code rest
    else none
read_frame _ = none

-- The frames of a message up to the final one: the first has the message's code, the others 0.
unfoldable pub read_message : ℕ → ℕ → Bytes → Option (Bytes × Bytes)
unfolding read_frame
read_message zero code stream = none
read_message (suc fuel) code stream = elim (read_frame stream) [
  | none ↦ none
  | some (f, rest) ↦ elim (f.code == code) [
    | false ↦ none
    | true ↦ elim f.fin [
      | true ↦ some (f.payload, rest)
      | false ↦ elim (read_message fuel 0 rest) [
        | none ↦ none
        | some (later, end) ↦ some (f.payload ++ later, end)
      ]
    ]
  ]
]

-- A server's frame by the layout.
abbrev pub server_frame : Bool → ℕ → Bytes → Bytes
server_frame fin code body =
    ((if fin then 128 else 0) + code)
    ∷ ((if ltb (length body) 126 then length body ∷ [] else 126 ∷ be16 (length body)) ++ body)

with_payload-append :
    (fin : Bool) (code n : ℕ) (body rest : Bytes)
    → n ≡ length body
    → with_payload fin code n (body ++ rest)
      ≡ some (record { fin = fin; code = code; payload = body }, rest)
unfolding with_payload
with_payload-append fin code n body rest h =
    let fits : leb n (length (body ++ rest)) ≡ true = ground (arith, length-append body rest) in
    rw (fits, h, take-append (length body) body rest refl, drop-length body rest)

first_fin : (fin : Bool) (code : ℕ) → code < 16 → leb 128 ((if fin then 128 else 0) + code) ≡ fin
first_fin true code h = ground arith
first_fin false code h = ground arith

first_code : (fin : Bool) (code : ℕ) → code < 16 → ((if fin then 128 else 0) + code) % 128 ≡ code
first_code true code h = omega arith
first_code false code h = omega arith

-- A frame that was laid out is read back, whatever stands behind it.
pub read_frame-server_frame :
    (fin : Bool) (code : ℕ) (body rest : Bytes)
    → code < 16
    → length body < 65536
    → read_frame (server_frame fin code body ++ rest)
      ≡ some (record { fin = fin; code = code; payload = body }, rest)
unfolding read_frame
read_frame-server_frame fin code body rest small fits = elim (Bool-cases (ltb (length body) 126)) [
  | inl short ↦
      rw (short, read_frame, short, first_fin fin code small, first_code fin code small)
        (with_payload-append fin code (length body) body rest refl)
  | inr long ↦
      let len : length body / 256 % 256 * 256 + length body % 256 ≡ length body = omega arith in
      rw (long, read_frame, first_fin fin code small, first_code fin code small)
        (with_payload-append fin code _ body rest len)
]
