-- ===== src/WebSocket/Parser/Chunks.antt =====
-- A message in pieces: what `Parse` makes of an input does not depend on where it was cut.
use co_socket.Prelude.{
  ℕ, ◌+◌, ◌^◌, ◌<◌, ◌≡◌, ◌≢◌, refl, sym, ap, ◌∙◌, inl, inr, Bool, true, false, [], ◌∷◌, ◌++◌,
  append_assoc, arith, Bytes, length, if◌then◌else◌, ◌⊎◌, length-append, Bool-cases,
}
use co_socket.WebSocket.Parser.{
  WebSocketParser, have_bytes, parse_header, is_valid_frame, process_payload, parse_cached,
  refresh_header, parse, reset_current_frame,
}
use co_socket.WebSocket.Parser.Prefix.{more}
use co_socket.WebSocket.Parser.Retries.{
  parse_header_kept, false_not_true, parse_header_read, parse_header_missing,
}

first_of {ℓ} : {A : Type ℓ} (b : Bool) (x y : A) → b ≡ true → (if b then x else y) ≡ x
first_of b x y h = rw h

second_of {ℓ} : {A : Type ℓ} (b : Bool) (x y : A) → b ≡ false → (if b then x else y) ≡ y
second_of b x y h = rw h

module _ (z : WebSocketParser) where
  payload_cases : (process_payload z ≡ z) ⊎ ((process_payload z).input_cache ≡ [])
  unfolding process_payload have_bytes reset_current_frame
  payload_cases = elim (Bool-cases (have_bytes z z.payload_len)) [
    | inl whole ↦ inr (rw whole)
    | inr short ↦ inl (second_of (have_bytes z z.payload_len) _ z short)
  ]

  pub cached_unknown : z.header_complete ≡ false → parse_cached z ≡ (true, z)
  unfolding parse_cached
  cached_unknown h = simp h

  cached_refused : z.header_complete ≡ true → is_valid_frame z ≡ false → parse_cached z ≡ (false, z)
  unfolding parse_cached
  cached_refused h v = simp (h, v)

  cached_taken :
      z.header_complete ≡ true
      → is_valid_frame z ≡ true
      → parse_cached z ≡ (true, process_payload z)
  unfolding parse_cached
  cached_taken h v = simp (h, v)

  -- Input that is still there after `Parse` was not used: only the header is known, if that.
  cached_pending :
      (q : WebSocketParser)
      → parse_cached z ≡ (true, q)
      → q.input_cache ≡ z.input_cache
      → z.input_cache ≢ []
      → q ≡ z
  cached_pending q e same some_input = elim (Bool-cases z.header_complete) [
    | inr unknown ↦ ap (λ r. r.1) (sym e ∙ cached_unknown unknown)
    | inl known ↦ elim (Bool-cases (is_valid_frame z)) [
      | inr refused ↦ absurd (false_not_true z q (sym (cached_refused known refused) ∙ e))
      | inl valid ↦
          let taken : q ≡ process_payload z = ap (λ r. r.1) (sym e ∙ cached_taken known valid) in
          elim payload_cases [
            | inl waits ↦ taken ∙ waits
            | inr used ↦
                absurd
                  (some_input (sym same ∙ ap (λ (x : WebSocketParser). x.input_cache) taken ∙ used))
          ]
    ]
  ]

  refresh_known : z.header_complete ≡ true → refresh_header z ≡ z
  unfolding refresh_header
  refresh_known h = first_of z.header_complete z _ h

  pub refresh_tried :
      (whole : Bool) (h : WebSocketParser)
      → z.header_complete ≡ false
      → parse_header z ≡ (whole, h)
      → refresh_header z ≡ record h { header_complete = whole }
  unfolding refresh_header
  refresh_tried whole h unknown e =
      second_of z.header_complete z _ unknown ∙ ap (λ r. record r.1 { header_complete = r.0 }) e

module _ (p q : WebSocketParser) (x : ℕ) (xs : Bytes) (y : ℕ) (ys : Bytes)
    (fits : length p.input_cache + length (x ∷ xs) + length (y ∷ ys) < 2 ^ 64)
    (first : parse p (x ∷ xs) ≡ (true, q)) (pending : q.input_cache ≡ p.input_cache ++ x ∷ xs) where
  abbrev held : WebSocketParser
  held = record p { input_cache = p.input_cache ++ x ∷ xs }

  held_fits : length (p.input_cache ++ x ∷ xs) + length (y ∷ ys) < 2 ^ 64
  held_fits = omega (arith, length-append p.input_cache (x ∷ xs))

  held_some : (p.input_cache ++ x ∷ xs) ≢ []
  held_some e = absurd (omega (arith, ap length e, length-append p.input_cache (x ∷ xs)))

  abbrev together : WebSocketParser
  together = record p { input_cache = (p.input_cache ++ x ∷ xs) ++ y ∷ ys }

  at_once : parse p ((x ∷ xs) ++ y ∷ ys) ≡ parse_cached (refresh_header together)
  unfolding parse
  at_once =
      ap (λ c. parse_cached (refresh_header (record p { input_cache = c })))
        (sym (append_assoc p.input_cache (x ∷ xs) (y ∷ ys)))

  first' : parse_cached (refresh_header held) ≡ (true, q)
  unfolding parse
  first' = first

  in_turn : parse q (y ∷ ys) ≡ parse_cached (refresh_header (more q (y ∷ ys)))
  unfolding parse
  in_turn = refl

  by_known : p.header_complete ≡ true → parse q (y ∷ ys) ≡ parse p ((x ∷ xs) ++ y ∷ ys)
  by_known known =
      let same =
        cached_pending held q (ap parse_cached (sym (refresh_known held known)) ∙ first') pending
          held_some in
      in_turn ∙ ap (λ r. parse_cached (refresh_header (more r (y ∷ ys)))) same ∙ sym at_once

  module _ (unknown : p.header_complete ≡ false) (whole : Bool) (h : WebSocketParser)
      (tried : parse_header held ≡ (whole, h)) where
    kept_unknown : h.header_complete ≡ false
    kept_unknown =
        ap (λ (r : Bool × WebSocketParser). r.1.header_complete) (sym tried)
        ∙ (parse_header_kept held).0
        ∙ unknown

    kept_input : h.input_cache ≡ p.input_cache ++ x ∷ xs
    kept_input =
        ap (λ (r : Bool × WebSocketParser). r.1.input_cache) (sym tried)
        ∙ (parse_header_kept held).1

    left : q ≡ record h { header_complete = whole }
    left =
        cached_pending (record h { header_complete = whole }) q
          (ap parse_cached (sym (refresh_tried held whole h unknown tried)) ∙ first')
          (pending ∙ sym kept_input) (λ e. held_some (sym kept_input ∙ e))

  by_missing :
      (h : WebSocketParser)
      → p.header_complete ≡ false
      → parse_header held ≡ (false, h)
      → parse q (y ∷ ys) ≡ parse p ((x ∷ xs) ++ y ∷ ys)
  by_missing h unknown tried =
      let none_yet = kept_unknown unknown false h tried in
      let same : q ≡ h =
        left unknown false h tried ∙ ap (λ v. record h { header_complete = v }) (sym none_yet) in
      let again = parse_header_missing p h (p.input_cache ++ x ∷ xs) y ys held_fits tried in
      in_turn
      ∙ ap (λ r. parse_cached (refresh_header (more r (y ∷ ys)))) same
      ∙ ap parse_cached (
          refresh_tried (more h (y ∷ ys)) (parse_header together).0 (parse_header together).1
            none_yet again
          ∙ sym (
              refresh_tried together (parse_header together).0 (parse_header together).1 unknown
                refl))
      ∙ sym at_once

  by_read :
      (h : WebSocketParser)
      → p.header_complete ≡ false
      → parse_header held ≡ (true, h)
      → parse q (y ∷ ys) ≡ parse p ((x ∷ xs) ++ y ∷ ys)
  by_read h unknown tried =
      let again = parse_header_read p h (p.input_cache ++ x ∷ xs) (y ∷ ys) held_fits tried in
      in_turn
      ∙ ap (λ r. parse_cached (refresh_header (more r (y ∷ ys)))) (left unknown true h tried)
      ∙ ap parse_cached (
          refresh_known (more (record h { header_complete = true }) (y ∷ ys)) refl
          ∙ sym (refresh_tried together true (more h (y ∷ ys)) unknown again))
      ∙ sym at_once

  by_unknown :
      (r : Bool × WebSocketParser)
      → p.header_complete ≡ false
      → parse_header held ≡ r
      → parse q (y ∷ ys) ≡ parse p ((x ∷ xs) ++ y ∷ ys)
  by_unknown (false, h) unknown tried = by_missing h unknown tried
  by_unknown (true, h) unknown tried = by_read h unknown tried

-- A parser that has taken an input and still waits, for the rest of a header or of a payload, and then
-- gets more, is where it would be had all come at once, and answers the same, if the bytes held fit in
-- 64 bits.
pub parse-append :
    (p q : WebSocketParser) (x : ℕ) (xs : Bytes) (y : ℕ) (ys : Bytes)
    → length p.input_cache + length (x ∷ xs) + length (y ∷ ys) < 2 ^ 64
    → parse p (x ∷ xs) ≡ (true, q)
    → q.input_cache ≡ p.input_cache ++ x ∷ xs
    → parse q (y ∷ ys) ≡ parse p ((x ∷ xs) ++ y ∷ ys)
parse-append p q x xs y ys fits first pending = elim (Bool-cases p.header_complete) [
  | inl known ↦ by_known p q x xs y ys fits first pending known
  | inr unknown ↦ by_unknown p q x xs y ys fits first pending _ unknown refl
]
