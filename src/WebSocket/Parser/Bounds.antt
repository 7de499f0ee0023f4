-- ===== src/WebSocket/Parser/Bounds.antt =====
-- The read position and the length of the message in `Parse`.
use co_socket.Prelude.{
  ◌+◌, ◌^◌, ◌≤◌, ◌<◌, ◌≡◌, refl, ap, true, [], ◌∷◌, ◌++◌, arith, Bytes, length, length-append,
  Bool-cases, inl, inr, take, drop, length-take,
}
use co_socket.WebSocket.Parser.Masking.{masked, length-masked, unmask_loop-masked}
use co_socket.WebSocket.Parser.{
  WebSocketParser, max_length, parse_header, is_valid_frame, unmask_loop, process_payload,
  parse_cached, refresh_header, parse, reset, reset_current_frame,
}

pub record IsBounded (p : WebSocketParser) : Type 0 where
  pub within : p.offset ≤ length p.input_cache
  pub short : length p.payload ≤ max_length

pub parse_header_within :
    (p : WebSocketParser)
    → length p.input_cache < 2 ^ 64
    → let q = (parse_header p).1 in
      (q.offset ≤ length q.input_cache) × (q.input_cache ≡ p.input_cache) × (q.payload ≡ p.payload)
unfolding parse_header
parse_header_within p h = ground arith

length-unmask_loop :
    (p : WebSocketParser)
    → p.offset + p.payload_len ≤ length p.input_cache
    → length (unmask_loop p.payload_len 0 p).payload ≤ length p.payload + p.payload_len
length-unmask_loop p h =
    let text = take p.payload_len (drop p.offset p.input_cache) in
    rw (unmask_loop-masked p.payload_len 0 p h) (
      omega (
        arith,
        length-append p.payload (masked p.mask_key 0 text),
        length-masked p.mask_key 0 text,
        length-take p.payload_len (drop p.offset p.input_cache),
      ))

process_payload-IsBounded :
    (p : WebSocketParser)
    → length p.payload + length p.input_cache < 2 ^ 64
    → is_valid_frame p ≡ true
    → IsBounded p
    → IsBounded (process_payload p)
unfolding process_payload is_valid_frame
process_payload-IsBounded p h v b = ground (arith, length-unmask_loop p)

refresh_header_kept :
    (p : WebSocketParser)
    → length p.input_cache < 2 ^ 64
    → p.offset ≤ length p.input_cache
    → let q = refresh_header p in
      (q.offset ≤ length q.input_cache) × (q.input_cache ≡ p.input_cache) × (q.payload ≡ p.payload)
unfolding refresh_header
refresh_header_kept p h k = ground (arith, parse_header_within p h)

parse_cached-IsBounded :
    (p : WebSocketParser)
    → length p.payload + length p.input_cache < 2 ^ 64
    → IsBounded p
    → IsBounded (parse_cached p).1
unfolding parse_cached
parse_cached-IsBounded p h b = elim (Bool-cases (is_valid_frame p)) [
  | inl valid ↦ ground (arith, process_payload-IsBounded p h valid b)
  | inr invalid ↦ ground arith
]

process_payload-length :
    (p : WebSocketParser) → length (process_payload p).input_cache ≤ length p.input_cache
unfolding process_payload reset_current_frame
process_payload-length p = ground arith

parse_cached-length :
    (p : WebSocketParser) → length (parse_cached p).1.input_cache ≤ length p.input_cache
unfolding parse_cached
parse_cached-length p = elim (Bool-cases (is_valid_frame p)) [
  | inl valid ↦ ground (arith, process_payload-length p)
  | inr invalid ↦ ground arith
]

-- `Parse` caches at most what it had and what arrived.
pub parse-length :
    (p : WebSocketParser) (input : Bytes)
    → length p.input_cache + length input < 2 ^ 64
    → p.offset ≤ length p.input_cache
    → length (parse p input).1.input_cache ≤ length p.input_cache + length input
unfolding parse
parse-length p [] h b = omega arith
parse-length p (c ∷ cs) h b =
    let added = length-append p.input_cache (c ∷ cs) in
    let q = record p { input_cache = p.input_cache ++ c ∷ cs } in
    let kept = refresh_header_kept q (omega (arith, added)) (omega (arith, added, b)) in
    omega (arith, parse_cached-length (refresh_header q), ap length (kept.1), added)

-- A reset parser holds nothing.
pub reset-IsBounded : (p : WebSocketParser) → IsBounded (reset p) × ((reset p).input_cache ≡ [])
unfolding reset
reset-IsBounded p = (record { within = omega arith; short = omega arith }, refl)

-- Whatever bytes arrive, and whether or not they are accepted, `Parse` keeps its read position within
-- the cached input and the message within `kMaxLength`, if the bytes held fit in 64 bits.
pub parse-IsBounded :
    (p : WebSocketParser) (input : Bytes)
    → length p.payload + length p.input_cache + length input < 2 ^ 64
    → IsBounded p
    → IsBounded (parse p input).1
unfolding parse
parse-IsBounded p [] h b = b
parse-IsBounded p (c ∷ cs) h b =
    let added = length-append p.input_cache (c ∷ cs) in
    let q = record p { input_cache = p.input_cache ++ c ∷ cs } in
    let kept = refresh_header_kept q (omega (arith, added)) (omega (arith, added, b.within)) in
    parse_cached-IsBounded (refresh_header q) (rw (kept.1, kept.2) (omega (arith, added)))
      (record { within = kept.0; short = rw (kept.2) b.short })
