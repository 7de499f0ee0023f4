-- ===== src/WebSocket/Parser/Stages.antt =====
-- The stages of `ParseHeader` on an input and on any longer one.
use co_socket.Prelude.{
  ℕ, ◌+◌, ◌*◌, ◌^◌, ◌≤◌, ◌<◌, ◌≡◌, ◌⊎◌, inl, inr, refl, sym, ap, ◌∙◌, Bool, true, false, [], arith,
  Bytes, length, ◌==◌, Bool-cases, take, drop,
}
use co_socket.Prelude.Words.{read_be16, read_be32}
use co_socket.WebSocket.Parser.{WebSocketParser, have_bytes, header_mask, header_length}
use co_socket.WebSocket.Parser.Prefix.{
  read_be16-append, read_be32-append, take-drop_append, more, have_bytes-more, have_bytes-le,
}

-- The mask does not depend on the mask that was there before.
header_mask-any :
    (mask : Bool) (p : WebSocketParser) (key : Bytes)
    → header_mask mask (record p { mask_key = key }) ≡ header_mask mask p
unfolding header_mask
header_mask-any mask p key = refl

-- A length that was read stands in the parser.
abbrev pub sized : WebSocketParser → ℕ → ℕ → WebSocketParser
sized p size offset = record p { payload_len = size; offset = offset }

abbrev pub rekeyed : WebSocketParser → Bytes → WebSocketParser
rekeyed p key = record p { mask_key = key }

module _ (mask : Bool) (p : WebSocketParser) where
  length_126_short :
      (p.payload_len == 126) ≡ true → have_bytes p 2 ≡ false → header_length mask p ≡ (false, p)
  unfolding header_length
  length_126_short e h = rw (e, h)

  length_126_long :
      (p.payload_len == 126) ≡ true
      → have_bytes p 2 ≡ true
      → header_length mask p
        ≡ header_mask mask (sized p (read_be16 p.input_cache p.offset) (p.offset + 2))
  unfolding header_length
  length_126_long e h = rw (e, h)

  length_127_short :
      (p.payload_len == 126) ≡ false
      → (p.payload_len == 127) ≡ true
      → have_bytes p 8 ≡ false
      → header_length mask p ≡ (false, p)
  unfolding header_length
  length_127_short e f h = rw (e, f, h)

  abbrev pub long_size : Bytes → ℕ → ℕ
  long_size input i = read_be32 input i * 2 ^ 32 + read_be32 input (i + 4)

  length_127_long :
      (p.payload_len == 126) ≡ false
      → (p.payload_len == 127) ≡ true
      → have_bytes p 8 ≡ true
      → header_length mask p
        ≡ header_mask mask (sized p (long_size p.input_cache p.offset) (p.offset + 8))
  unfolding header_length
  length_127_long e f h = rw (e, f, h)

  length_plain :
      (p.payload_len == 126) ≡ false
      → (p.payload_len == 127) ≡ false
      → header_length mask p ≡ header_mask mask p
  unfolding header_length
  length_plain e f = rw (e, f)

-- How far `ParseHeader` comes with the length: it stops for want of bytes, or it reaches the mask, and
-- then it does so on any longer input too, with the same length.
abbrev pub Reads : Bool → WebSocketParser → Bytes → Type 0
Reads mask p b =
    (header_length mask p ≡ (false, p))
    ⊎ ((size : ℕ) × (offset : ℕ) × (offset ≤ length p.input_cache)
        × (header_length mask p ≡ header_mask mask (sized p size offset))
        × ((key : Bytes)
            → header_length mask (more (rekeyed p key) b)
              ≡ header_mask mask (more (sized p size offset) b)))

module _ (mask : Bool) (p : WebSocketParser) (b : Bytes) (within : p.offset ≤ length p.input_cache)
    (fits : length p.input_cache + length b < 2 ^ 64) where
  header_length-Reads : Reads mask p b
  unfolding header_mask
  header_length-Reads = elim (Bool-cases (p.payload_len == 126)) [
    | inl e ↦ elim (Bool-cases (have_bytes p 2)) [
      | inr short ↦ inl (length_126_short mask p e short)
      | inl long ↦
          let room = have_bytes-le p 2 within (omega arith) long in
          inr (
            read_be16 p.input_cache p.offset,
            p.offset + 2,
            room,
            length_126_long mask p e long,
            λ key.
                length_126_long mask (more (rekeyed p key) b) e
                  (have_bytes-more p 2 b key within fits long)
                ∙ ap (λ n. header_mask mask (sized (more p b) n (p.offset + 2)))
                    (read_be16-append p.input_cache b p.offset room),
          )
    ]
    | inr e ↦ elim (Bool-cases (p.payload_len == 127)) [
      | inl f ↦ elim (Bool-cases (have_bytes p 8)) [
        | inr short ↦ inl (length_127_short mask p e f short)
        | inl long ↦
            let room = have_bytes-le p 8 within (omega arith) long in
            inr (
              long_size mask p p.input_cache p.offset,
              p.offset + 8,
              room,
              length_127_long mask p e f long,
              λ key.
                  length_127_long mask (more (rekeyed p key) b) e f
                    (have_bytes-more p 8 b key within fits long)
                  ∙ ap (λ n. header_mask mask (sized (more p b) n (p.offset + 8)))
                      (omega (
                        arith,
                        read_be32-append p.input_cache b p.offset (omega arith),
                        read_be32-append p.input_cache b (p.offset + 4) (omega arith),
                      )),
            )
      ]
      | inr f ↦ inr (
        p.payload_len,
        p.offset,
        within,
        length_plain mask p e f,
        λ key. length_plain mask (more (rekeyed p key) b) e f,
      )
    ]
  ]

true_not_false :
    (p s h : WebSocketParser) → ◌≡◌ {A = Bool × WebSocketParser} (false, s) (true, h) → ⊥
true_not_false p s h e = cc

module _ (p : WebSocketParser) where
  mask_short : have_bytes p 4 ≡ false → header_mask true p ≡ (false, rekeyed p [])
  unfolding header_mask have_bytes
  mask_short h = rw h

  mask_long :
      have_bytes p 4 ≡ true
      → header_mask true p ≡ (
        true,
        record p { mask_key = take 4 (drop p.offset p.input_cache); offset = p.offset + 4 },
      )
  unfolding header_mask have_bytes
  mask_long h = rw h

-- The mask, read from an input, is read from any longer one.
mask_read :
    (mask : Bool) (p h : WebSocketParser) (b : Bytes)
    → p.offset ≤ length p.input_cache
    → length p.input_cache + length b < 2 ^ 64
    → header_mask mask p ≡ (true, h)
    → header_mask mask (more p b) ≡ (true, more h b)
unfolding header_mask
mask_read false p h b within fits e = ap {A = Bool × WebSocketParser} (λ r. (r.0, more r.1 b)) e
mask_read true p h b within fits e = elim (Bool-cases (have_bytes p 4)) [
  | inr short ↦ absurd (true_not_false p (rekeyed p []) h (sym (mask_short p short) ∙ e))
  | inl long ↦
      mask_long (more p b) (have_bytes-more p 4 b p.mask_key within fits long)
      ∙ ap {A = Bytes} (λ key. (true, record (more p b) { mask_key = key; offset = p.offset + 4 }))
          (take-drop_append 4 p.offset p.input_cache b
            (have_bytes-le p 4 within (omega arith) long))
      ∙ ap {A = Bool × WebSocketParser} (λ r. (true, more r.1 b)) (sym (mask_long p long) ∙ e)
]

mask_missing :
    (mask : Bool) (p y : WebSocketParser) → header_mask mask p ≡ (false, y) → rekeyed p [] ≡ y
unfolding header_mask
mask_missing false p y e = cc
mask_missing true p y e = elim (Bool-cases (have_bytes p 4)) [
  | inr short ↦ ap (λ r. r.1) (sym (mask_short p short) ∙ e)
  | inl long ↦ absurd (true_not_false p y _ (sym e ∙ mask_long p long))
]

module _ (mask : Bool) (p : WebSocketParser) (b : Bytes) (within : p.offset ≤ length p.input_cache)
    (fits : length p.input_cache + length b < 2 ^ 64) where
  -- What follows the second byte, read from an input, is read from any longer one.
  pub length_read :
      (h : WebSocketParser)
      → header_length mask p ≡ (true, h)
      → header_length mask (more p b) ≡ (true, more h b)
  length_read h e = elim (header_length-Reads mask p b within fits) [
    | inl stops ↦ absurd (true_not_false p p h (sym stops ∙ e))
    | inr (size, offset, room, reaches, again) ↦
        again p.mask_key ∙ mask_read mask (sized p size offset) h b room fits (sym reaches ∙ e)
  ]

  -- And where the input ends before, reading again from a longer one does not depend on what was
  -- kept of the first attempt.
  pub length_missing :
      (y : WebSocketParser)
      → header_length mask p ≡ (false, y)
      → (size : ℕ) × (offset : ℕ) × (key : Bytes) × (rekeyed (sized p size offset) key ≡ y)
        × (header_length mask (more (rekeyed p key) b) ≡ header_length mask (more p b))
  length_missing y e = elim (header_length-Reads mask p b within fits) [
    | inl stops ↦ (p.payload_len, p.offset, p.mask_key, ap (λ r. r.1) (sym stops ∙ e), refl)
    | inr (size, offset, room, reaches, again) ↦ (
      size,
      offset,
      [],
      mask_missing mask (sized p size offset) y (sym reaches ∙ e),
      again [] ∙ sym (again p.mask_key),
    )
  ]
