-- ===== src/Http/Client/Reply.antt =====
-- When `Request` returns, and with what.
use native.Mathlib.Decide.{ℕ_discrete}
use co_socket.Prelude.{
  ℕ, zero, suc, ◌+◌, ◌≡◌, ◌<◌, ◌≤◌, refl, ap, Bool, true, false, Option, some, List, [], ◌∷◌, Bytes,
  arith, subst, sym, ◌∙◌, Bool-cases, inl, inr,
}
use co_socket.Prelude.Int.{ℤ, pos, negsuc}
use co_socket.Tcp.{Received, failed, received, IsSome}
use co_socket.Http.Parser.{Event}
use co_socket.Http.Parser as Inner
use co_socket.Http.Parser.Whole.{ends}
use co_socket.Http.Decoder.{HttpDecoder}
use co_socket.Http.Decoder as Decoder
use co_socket.Http.Parser.Access as Access
use co_socket.Http.Encoder.{get_request_string}
use co_socket.Http.Client.{HttpClient, request, no_more_input, bad_input, receive_loop}

module _ {P : Type 0} (execute : P → Bytes → List Event × P × Bool) where
  -- The rounds from `round` on read something, and the tokenizer accepts it, in its turn from the
  -- state `t`; in the last of them, behind `n` others, and not before, it reports a message's end.
  abbrev pub Completes : (ℕ → Received) → ℕ → ℕ → P → Type 0
  Completes read zero round t =
      (b : ℕ) × (bs : Bytes) × (read round ≡ received (b ∷ bs))
      × ((execute t (b ∷ bs)).2 ≡ true)
      × (ends (execute t (b ∷ bs)).0 ≡ true)
  Completes read (suc n) round t =
      (b : ℕ) × (bs : Bytes) × (read round ≡ received (b ∷ bs))
      × ((execute t (b ∷ bs)).2 ≡ true)
      × (ends (execute t (b ∷ bs)).0 ≡ false)
      × Completes read n (round + 1) (execute t (b ∷ bs)).1

  -- A result that is not negative is 0, and that of a whole response.
  abbrev pub Reply : (ℕ → Received) → ℕ → P → ℤ → Type 0
  Reply read round t (pos m) = (m ≡ 0) × (n : ℕ) × Completes read n round t
  Reply read round t (negsuc m) = Unit

  abbrev Replies : (ℕ → Received) → ℕ → P → Option (ℤ × HttpDecoder P) → Type 0
  Replies read round t r =
      (ret : ℤ) × (q : HttpDecoder P) × (r ≡ some (ret, q)) × Reply read round t ret

  later-Reply :
      (read : ℕ → Received) (round : ℕ) (t : P) (b : ℕ) (bs : Bytes) (ret : ℤ)
      → read round ≡ received (b ∷ bs)
      → (execute t (b ∷ bs)).2 ≡ true
      → ends (execute t (b ∷ bs)).0 ≡ false
      → Reply read (round + 1) (execute t (b ∷ bs)).1 ret
      → Reply read round t ret
  later-Reply read round t b bs (negsuc m) e fine open_still reply = tt
  later-Reply read round t b bs (pos m) e fine open_still (zeroed, n, rest) =
      (zeroed, suc n, (b, bs, e, fine, open_still, rest))

  -- A decoder in which no message has ended, and whose tokenizer is in state `t`.
  abbrev Reading : P → HttpDecoder P → Type 0
  Reading t p = (p.http_parser.http_parser ≡ t) × (p.http_parser.complete ≡ false)

  abbrev next : ℕ → ℕ → (ℕ → Received) → HttpDecoder P → Bool → Option (ℤ × HttpDecoder P)
  next fuel round read q whole = elim whole [
    | true ↦ some (pos 0, q)
    | false ↦ receive_loop execute fuel (round + 1) read q
  ]

  -- One round that read something, with what the parser made of it.
  parsed_round :
      (fuel round : ℕ) (read : ℕ → Received) (t : P) (p : HttpDecoder P) (b : ℕ) (bs : Bytes)
      (fine : Bool) (q : HttpDecoder P)
      → read round ≡ received (b ∷ bs)
      → Decoder.parse execute p (b ∷ bs) ≡ some (fine, q)
      → fine ≡ (execute t (b ∷ bs)).2
      → q.http_parser.complete ≡ ends (execute t (b ∷ bs)).0
      → (q.http_parser.complete ≡ false
          → Replies read
              (round + 1)
              (execute t (b ∷ bs)).1
              (receive_loop execute fuel (round + 1) read q))
      → Replies read round t (receive_loop execute (suc fuel) round read p)
  unfolding receive_loop Decoder.is_complete Access.is_complete
  parsed_round fuel round read t p b bs false q e returns fine whole rest =
      (bad_input, q, rw (e, receive_loop, returns), tt)
  parsed_round fuel round read t p b bs true q e returns fine whole rest =
      elim (Bool-cases q.http_parser.complete) [
        | inl done ↦ (
          pos 0,
          q,
          rw (e, receive_loop, returns) (ap (next fuel round read q) done),
          (refl, 0, (b, bs, e, sym fine, sym whole ∙ done)),
        )
        | inr partial ↦
            let (ret, t', ends', reply) = rest partial in
            (
              ret,
              t',
              rw (e, receive_loop, returns) (ap (next fuel round read q) partial ∙ ends'),
              later-Reply read round t b bs ret e (sym fine) (sym whole ∙ partial) reply,
            )
      ]

  -- One round with its answer.
  receive_round :
      (fuel round : ℕ) (read : ℕ → Received) (t : P) (p : HttpDecoder P) (answer : Received)
      → read round ≡ answer
      → Reading t p
      → ((u : P) (q : HttpDecoder P)
          → IsSome answer
          → Reading u q
          → Replies read (round + 1) u (receive_loop execute fuel (round + 1) read q))
      → Replies read round t (receive_loop execute (suc fuel) round read p)
  unfolding receive_loop
  receive_round fuel round read t p (failed n) e reading rest =
      (negsuc n, p, rw (e, receive_loop), tt)
  receive_round fuel round read t p (received []) e reading rest =
      (no_more_input, p, rw (e, receive_loop), tt)
  receive_round fuel round read t p (received (b ∷ bs)) e (same, open_still) rest =
      let (fine, q, returns, ran) = Decoder.parse_ran execute p (b ∷ bs) in
      let whole : q.http_parser.complete ≡ ends (execute p.http_parser.http_parser (b ∷ bs)).0 =
        ground (arith, ran.2, open_still) in
      parsed_round fuel round read t p b bs fine q e returns
        (ran.0 ∙ ap (λ u. (execute u (b ∷ bs)).2) same)
        (whole ∙ ap (λ u. ends (execute u (b ∷ bs)).0) same)
        λ partial.
          rest (execute t (b ∷ bs)).1 q tt (ran.1 ∙ ap (λ u. (execute u (b ∷ bs)).1) same, partial)

  receive_loop_from :
      (fuel round last : ℕ) (read : ℕ → Received) (t : P) (p : HttpDecoder P)
      → Reading t p
      → ¬ (IsSome (read last))
      → round ≤ last
      → last < round + fuel
      → Replies read round t (receive_loop execute fuel round read p)
  receive_loop_from zero round last read t p reading over le enough = absurd (omega arith)
  receive_loop_from (suc fuel) round last read t p reading over le enough =
      receive_round fuel round read t p (read round) refl reading λ u q more reading'.
        elim (ℕ_discrete round last) [
          | yes e ↦ absurd (over (subst (λ n. IsSome (read n)) e more))
          | no n ↦
              receive_loop_from fuel (round + 1) last read u q reading' over (omega arith)
                (omega arith)
        ]

  reset-Reading :
      (tokenizer : P) (p : HttpDecoder P) → Reading tokenizer (Decoder.reset tokenizer p)
  unfolding Decoder.reset Inner.reset
  reset-Reading tokenizer p = (refl, refl)

  request_sent :
      (write : Bytes → ℤ) (tokenizer : P) (last : ℕ) (read : ℕ → Received) (c : HttpClient P)
      (answer : ℤ)
      → write (get_request_string c.http_encoder) ≡ answer
      → ¬ (IsSome (read last))
      → (ret : ℤ) × (d : HttpClient P) × (request execute write tokenizer (last + 1) read c
          ≡ some (ret, d))
        × Reply read 0 tokenizer ret
  unfolding request
  request_sent write tokenizer last read c (negsuc n) e over = (negsuc n, c, rw (e, request), tt)
  request_sent write tokenizer last read c (pos n) e over =
      let p = Decoder.reset tokenizer c.http_decoder in
      let (ret, q, ends', reply) =
        receive_loop_from (last + 1) 0 last read tokenizer p
          (reset-Reading tokenizer c.http_decoder) over (omega arith) (omega arith) in
      (ret, record c { http_decoder = q }, rw (e, request, ends'), reply)

  -- `Request` returns at the latest in the round in which the server fails or ends the connection,
  -- whatever arrived before it, and whatever an earlier call left in the decoder. A result that is
  -- not negative is 0, and then the new tokenizer, run on what the rounds read up to some round,
  -- accepted all of it and reported a message's end in the last of these rounds and in none before.
  pub request_replies :
      (write : Bytes → ℤ) (tokenizer : P) (last : ℕ) (read : ℕ → Received) (c : HttpClient P)
      → ¬ (IsSome (read last))
      → (ret : ℤ) × (d : HttpClient P) × (request execute write tokenizer (last + 1) read c
          ≡ some (ret, d))
        × Reply read 0 tokenizer ret
  request_replies write tokenizer last read c over =
      request_sent write tokenizer last read c (write (get_request_string c.http_encoder)) refl over
