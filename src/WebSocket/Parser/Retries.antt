-- ===== src/WebSocket/Parser/Retries.antt =====
-- `ParseHeader` on an input, and again when more has arrived.
use Prim.Native.Nat.{bit_and}
use co_socket.Prelude.{
  ℕ, ◌+◌, ◌^◌, ◌<◌, ◌≡◌, refl, sym, ap, ◌∙◌, Bool, true, false, not, [], ◌∷◌, ◌++◌, arith, Bytes,
  length, length-append, leb, ◌==◌,
}
use co_socket.Prelude.Words.{sub64}
use co_socket.WebSocket.Parser.{WebSocketParser, header_length, parse_header}
use co_socket.WebSocket.Parser.Prefix.{more}
use co_socket.WebSocket.Parser.Stages.{sized, rekeyed, length_read, length_missing}

abbrev mask_bit : ℕ → Bool
mask_bit b1 = not (bit_and 0x80 b1 == 0)

-- The state after the first two bytes.
abbrev two_read : WebSocketParser → ℕ → ℕ → Bytes → WebSocketParser
two_read p b0 b1 rest = record p {
  op_code = bit_and 0x0f b0;
  fin = not (bit_and 0x80 b0 == 0);
  payload_len = bit_and 0x7f b1;
  offset = 2;
  input_cache = b0 ∷ b1 ∷ rest;
}

parse_header_two :
    (p : WebSocketParser) (b0 b1 : ℕ) (rest : Bytes)
    → length rest + 2 < 2 ^ 64
    → parse_header (record p { input_cache = b0 ∷ b1 ∷ rest })
      ≡ header_length (mask_bit b1) (two_read p b0 b1 rest)
unfolding parse_header
parse_header_two p b0 b1 rest h =
    let one : leb 1 (sub64 (length (b0 ∷ b1 ∷ rest)) 0) ≡ true = ground arith in
    let two : leb 1 (sub64 (length (b0 ∷ b1 ∷ rest)) 1) ≡ true = ground arith in rw (one, two)

parse_header_one :
    (p : WebSocketParser) (b0 : ℕ)
    → parse_header (record p { input_cache = b0 ∷ [] }) ≡ (
      false,
      record p {
        op_code = bit_and 0x0f b0;
        fin = not (bit_and 0x80 b0 == 0);
        offset = 1;
        input_cache = b0 ∷ [];
      },
    )
unfolding parse_header
parse_header_one p b0 = refl

parse_header_none :
    (p : WebSocketParser)
    → parse_header (record p { input_cache = [] })
      ≡ (false, record p { offset = 0; input_cache = [] })
unfolding parse_header
parse_header_none p = refl

pub parse_header_kept :
    (p : WebSocketParser)
    → ((parse_header p).1.header_complete ≡ p.header_complete)
      × ((parse_header p).1.input_cache ≡ p.input_cache)
unfolding parse_header
parse_header_kept p = ground arith

pub parse_header-complete : (p : WebSocketParser) → (parse_header p).1.complete ≡ p.complete
unfolding parse_header
parse_header-complete p = ground arith

pub false_not_true :
    (s h : WebSocketParser) → ◌≡◌ {A = Bool × WebSocketParser} (false, s) (true, h) → ⊥
false_not_true s h e = cc

-- A header that was read whole is read from any longer input.
pub parse_header_read :
    (p h : WebSocketParser) (c b : Bytes)
    → length c + length b < 2 ^ 64
    → parse_header (record p { input_cache = c }) ≡ (true, h)
    → parse_header (record p { input_cache = c ++ b }) ≡ (true, more h b)
parse_header_read p h [] b fits e = absurd (false_not_true _ h (sym (parse_header_none p) ∙ e))
parse_header_read p h (b0 ∷ []) b fits e =
    absurd (false_not_true _ h (sym (parse_header_one p b0) ∙ e))
parse_header_read p h (b0 ∷ b1 ∷ rest) b fits e =
    parse_header_two p b0 b1 (rest ++ b) (omega (arith, length-append rest b))
    ∙ length_read (mask_bit b1) (two_read p b0 b1 rest) b (omega arith) (omega arith) h
        (sym (parse_header_two p b0 b1 rest (omega arith)) ∙ e)

-- A header that was not whole is read from a longer input as if it had not been tried before.
pub parse_header_missing :
    (p y : WebSocketParser) (c : Bytes) (d : ℕ) (ds : Bytes)
    → length c + length (d ∷ ds) < 2 ^ 64
    → parse_header (record p { input_cache = c }) ≡ (false, y)
    → parse_header (more y (d ∷ ds)) ≡ parse_header (record p { input_cache = c ++ d ∷ ds })
unfolding parse_header
parse_header_missing p y [] d ds fits e =
    ap (λ r. parse_header (more r.1 (d ∷ ds))) (sym e ∙ parse_header_none p)
parse_header_missing p y (b0 ∷ []) d ds fits e =
    ap (λ r. parse_header (more r.1 (d ∷ ds))) (sym e ∙ parse_header_one p b0)
    ∙ parse_header_two
        (record p { op_code = bit_and 0x0f b0; fin = not (bit_and 0x80 b0 == 0); offset = 1 }) b0 d
        ds (omega arith)
    ∙ sym (parse_header_two p b0 d ds (omega arith))
parse_header_missing p y (b0 ∷ b1 ∷ rest) d ds fits e =
    let z = two_read p b0 b1 rest in
    let (size, offset, key, left, again) =
      length_missing (mask_bit b1) z (d ∷ ds) (omega arith) (omega arith) y
        (sym (parse_header_two p b0 b1 rest (omega arith)) ∙ e) in
    ap (λ r. parse_header (more r (d ∷ ds))) (sym left)
    ∙ parse_header_two (rekeyed (sized z size offset) key) b0 b1 (rest ++ d ∷ ds)
        (omega (arith, length-append rest (d ∷ ds)))
    ∙ again
    ∙ sym (parse_header_two p b0 b1 (rest ++ d ∷ ds) (omega (arith, length-append rest (d ∷ ds))))
