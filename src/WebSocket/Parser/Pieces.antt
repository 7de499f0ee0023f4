-- ===== src/WebSocket/Parser/Pieces.antt =====
-- The beginning of a client's frame at an idle parser: `Parse` waits for the rest.
use co_socket.Prelude.{
  ℕ, ◌+◌, ◌^◌, ◌≤◌, ◌<◌, ◌≡◌, ◌≢◌, refl, sym, ap, ◌∙◌, subst, Bool, true, false, [], ◌∷◌, ◌++◌,
  arith, Bytes, IsByte, All, length, length-append,
}
use co_socket.WebSocket.Parser.{
  WebSocketParser, max_length, have_bytes, parse_header, is_valid_frame, check_op_code,
  process_payload, parse_cached, refresh_header, parse,
}
use co_socket.WebSocket.Parser.Prefix.{more}
use co_socket.WebSocket.Parser.Decode.{IsIdle, IsOpCode, client_frame, header-client_frame, headed}
use co_socket.WebSocket.Parser.Retries.{parse_header_kept, parse_header-complete, parse_header_read}
use co_socket.WebSocket.Parser.Bounds.{parse_header_within}
use co_socket.WebSocket.Parser.Chunks.{cached_unknown, refresh_tried, parse-append}

-- The answer of a parser that waits: it holds all that it got, and no message is complete.
abbrev pub Waits : WebSocketParser → Bytes → Bool × WebSocketParser → Type 0
Waits p input r =
    (r.0 ≡ true) × (r.1.input_cache ≡ p.input_cache ++ input) × (r.1.complete ≡ p.complete)

module _ (z : WebSocketParser) (k0 k1 k2 k3 : ℕ) where
  -- A good header with a part of its payload.
  cached_short :
      z.header_complete ≡ true
      → z.mask_key ≡ k0 ∷ k1 ∷ k2 ∷ k3 ∷ []
      → IsOpCode z.op_code
      → (z.op_code ≡ 0 → z.payload ≢ [])
      → length z.payload + z.payload_len ≤ max_length
      → z.offset ≤ length z.input_cache
      → length z.input_cache < z.offset + z.payload_len
      → length z.input_cache < 2 ^ 64
      → parse_cached z ≡ (true, z)
  unfolding parse_cached is_valid_frame check_op_code process_payload have_bytes
  cached_short whole key known later small begun short fits = ground (arith, later)

module _ (p : WebSocketParser) (idle : IsIdle p) (fin : Bool) (op k0 k1 k2 k3 : ℕ) (body : Bytes)
    (known : IsOpCode op) (later : op ≡ 0 → p.payload ≢ [])
    (key_bytes : All IsByte (k0 ∷ k1 ∷ k2 ∷ k3 ∷ [])) (body_bytes : All IsByte body)
    (small : length p.payload + length body ≤ max_length) (fits : length body + 0 + 14 < 2 ^ 64)
    (x : ℕ) (xs : Bytes) (y : ℕ) (ys : Bytes)
    (cut : client_frame fin op k0 k1 k2 k3 body ++ [] ≡ (x ∷ xs) ++ y ∷ ys) where
  abbrev held : WebSocketParser
  held = record p { input_cache = x ∷ xs }

  parse-held : parse p (x ∷ xs) ≡ parse_cached (refresh_header held)
  unfolding parse
  parse-held = rw idle.no_input refl

  by_missing :
      (h : WebSocketParser) → parse_header held ≡ (false, h) → Waits p (x ∷ xs) (parse p (x ∷ xs))
  by_missing h tried =
      let z = record h { header_complete = false } in
      let waits : parse p (x ∷ xs) ≡ (true, z) =
        parse-held
        ∙ ap parse_cached (refresh_tried held false h idle.no_header tried)
        ∙ cached_unknown z refl in
      let cached =
        ap (λ (r : Bool × WebSocketParser). r.1.input_cache) (sym tried)
        ∙ (parse_header_kept held).1 in
      let complete =
        ap (λ (r : Bool × WebSocketParser). r.1.complete) (sym tried)
        ∙ parse_header-complete held in
      rw (waits, idle.no_input) (refl, cached, complete)

  by_read :
      (h : WebSocketParser) → parse_header held ≡ (true, h) → Waits p (x ∷ xs) (parse p (x ∷ xs))
  by_read h tried =
      let (offset, bound, found) =
        header-client_frame p idle fin op k0 k1 k2 k3 body [] known later key_bytes body_bytes small
          fits in
      let sizes = ap length cut ∙ length-append (x ∷ xs) (y ∷ ys) in
      let again =
        parse_header_read p h (x ∷ xs) (y ∷ ys) (omega (arith, sizes, found.2, bound)) tried in
      let whole : ◌≡◌ {A = Bool × WebSocketParser} (true, more h (y ∷ ys))
          (
            true,
            headed p idle fin op k0 k1 k2 k3 body [] known later key_bytes body_bytes small fits
                (client_frame fin op k0 k1 k2 k3 body ++ []) offset,
          ) =
        sym again ∙ ap (λ c. parse_header (record p { input_cache = c })) (sym cut) ∙ found.0 in
      let good =
        record (headed p idle fin op k0 k1 k2 k3 body [] known later key_bytes body_bytes small fits
          [] offset) { input_cache = x ∷ xs } in
      let cached =
        ap (λ (r : Bool × WebSocketParser). r.1.input_cache) (sym tried)
        ∙ (parse_header_kept held).1 in
      let read : h ≡ good =
        ap (λ c. record h { input_cache = c }) cached
        ∙ ap {A = Bool × WebSocketParser} (λ r. record r.1 { input_cache = x ∷ xs }) whole in
      let within : offset ≤ length (x ∷ xs) =
        subst (λ (r : WebSocketParser). r.offset ≤ length r.input_cache)
          (ap (λ r. r.1) tried ∙ read)
          ((parse_header_within held (omega (arith, sizes, found.2, bound))).0) in
      let waits : parse p (x ∷ xs) ≡ (true, record good { header_complete = true }) =
        parse-held
        ∙ ap parse_cached (
            refresh_tried held true h idle.no_header tried
            ∙ ap (λ (r : WebSocketParser). record r { header_complete = true }) read)
        ∙ cached_short (record good { header_complete = true }) k0 k1 k2 k3 refl refl known later
            small within (omega (arith, sizes, found.2)) (omega (arith, sizes, found.2, bound)) in
      rw (waits, idle.no_input) (refl, refl, refl)

  by_tried :
      (r : Bool × WebSocketParser) → parse_header held ≡ r → Waits p (x ∷ xs) (parse p (x ∷ xs))
  by_tried (false, h) tried = by_missing h tried
  by_tried (true, h) tried = by_read h tried

  -- A beginning of a frame is kept, and the message is as it was.
  pub parse-Waits : Waits p (x ∷ xs) (parse p (x ∷ xs))
  parse-Waits = by_tried (parse_header held) refl

-- The parser `q` has got `done` since `p`, and waits.
pub record Fed (p q : WebSocketParser) (done : Bytes) : Type 0 where
  pub taken : parse p done ≡ (true, q)
  pub held : q.input_cache ≡ done
  pub complete : q.complete ≡ p.complete

pub nothing-Fed : (p : WebSocketParser) → IsIdle p → Fed p p []
unfolding parse
nothing-Fed p idle = record { taken = refl; held = idle.no_input; complete = refl }

-- What more makes of such a parser is what it makes together with `done`.
pub parse-Fed :
    (p q : WebSocketParser) (done : Bytes) (y : ℕ) (ys : Bytes)
    → IsIdle p
    → Fed p q done
    → length done + length (y ∷ ys) < 2 ^ 64
    → parse q (y ∷ ys) ≡ parse p (done ++ y ∷ ys)
unfolding parse
parse-Fed p q [] y ys idle fed fits =
    ap {A = Bool × WebSocketParser} (λ r. parse r.1 (y ∷ ys)) (sym fed.taken)
parse-Fed p q (d ∷ ds) y ys idle fed fits =
    parse-append p q d ds y ys (rw idle.no_input (omega (arith, fits))) fed.taken
      (rw idle.no_input fed.held)

-- All beginnings of the input `f` leave the parser waiting.
abbrev pub Splits : WebSocketParser → Bytes → Type 0
Splits p f =
    (x : ℕ) (xs : Bytes) (y : ℕ) (ys : Bytes)
    → f ≡ (x ∷ xs) ++ y ∷ ys
    → Waits p (x ∷ xs) (parse p (x ∷ xs))

begun-Fed :
    (p q : WebSocketParser) (input : Bytes) (r : Bool × WebSocketParser)
    → IsIdle p
    → parse p input ≡ r
    → Waits p input r
    → Fed p r.1 input
begun-Fed p q input (b, z) idle e waits = record {
  taken = e ∙ ap (λ a. (a, z)) waits.0;
  held = waits.1 ∙ ap (λ c. c ++ input) idle.no_input;
  complete = waits.2;
}

-- A piece that is not the last leaves it waiting.
pub Fed-more :
    (p q : WebSocketParser) (done : Bytes) (x : ℕ) (xs : Bytes) (y : ℕ) (ys f : Bytes)
    → IsIdle p
    → Fed p q done
    → Splits p f
    → length f < 2 ^ 64
    → f ≡ (done ++ x ∷ xs) ++ y ∷ ys
    → (q' : WebSocketParser) × (parse q (x ∷ xs) ≡ (true, q')) × Fed p q' (done ++ x ∷ xs)
Fed-more p q done x xs y ys f idle fed splits fits cut = (
  (parse p (done ++ x ∷ xs)).1,
  parse-Fed p q done x xs idle fed (
        omega (
          arith,
          ap length cut,
          length-append (done ++ x ∷ xs) (y ∷ ys),
          length-append done (x ∷ xs),
          fits,
        ))
      ∙ (next done cut).taken,
  next done cut,
)
  where
    next : (d : Bytes) → f ≡ (d ++ x ∷ xs) ++ y ∷ ys → Fed p (parse p (d ++ x ∷ xs)).1 (d ++ x ∷ xs)
    next [] c = begun-Fed p q _ _ idle refl (splits x xs y ys c)
    next (d ∷ ds) c = begun-Fed p q _ _ idle refl (splits d (ds ++ x ∷ xs) y ys c)
