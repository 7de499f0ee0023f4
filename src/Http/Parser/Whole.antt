-- ===== src/Http/Parser/Whole.antt =====
-- When a parser is complete, by what the tokenizer reports.
use co_socket.Prelude.{
  ℕ, ◌≡◌, refl, sym, subst, ◌∙◌, Bool, true, false, ◌||◌, Option, none, some, List, [], ◌∷◌, Bytes,
  arith, Option-cases, inl, inr,
}
use co_socket.Http.Parser.{
  Event, url, header_name, header_value, body, message_complete, HttpParser, on_complete, on_event,
  on_events, parse,
}

-- The event of a message's end.
abbrev is_end : Event → Bool
is_end (message_complete method status) = true
is_end (url text) = false
is_end (header_name text) = false
is_end (header_value text) = false
is_end (body text) = false

abbrev pub ends : List Event → Bool
ends [] = false
ends (e ∷ es) = is_end e || ends es

module _ {P : Type 0} where
  completed :
      (o : Option (HttpParser P)) (q : HttpParser P)
      → elim o as (λ x. Option (HttpParser P)) [
        | none ↦ none
        | some r ↦ some (record r { complete = true })
      ]
        ≡ some q
      → q.complete ≡ true
  completed none q h = cc
  completed (some r) q h = cc

  on_complete-complete :
      (method : Bytes) (status : ℕ) (p q : HttpParser P)
      → on_complete method status p ≡ some q
      → q.complete ≡ true
  unfolding on_complete
  on_complete-complete method status p q h = completed _ q h

  on_event-complete :
      (e : Event) (p q : HttpParser P)
      → on_event e p ≡ some q
      → q.complete ≡ (is_end e || p.complete)
  unfolding on_event
  on_event-complete (message_complete method status) p q h =
      on_complete-complete method status p q h
  on_event-complete (url text) p q h = cc
  on_event-complete (body text) p q h = cc
  on_event-complete (header_name []) p q h = cc
  on_event-complete (header_name (b ∷ bs)) p q h = ground (arith, h)
  on_event-complete (header_value []) p q h = cc
  on_event-complete (header_value (b ∷ bs)) p q h = ground (arith, h)

  on_events_next :
      (e : Event) (es : List Event) (p r : HttpParser P)
      → on_event e p ≡ some r
      → on_events (e ∷ es) p ≡ on_events es r
  unfolding on_events
  on_events_next e es p r goes = rw (goes, on_events) refl

  -- After some events a parser is complete if it was, or if one of them ends the message.
  pub on_events-complete :
      (es : List Event) (p q : HttpParser P)
      → on_events es p ≡ some q
      → q.complete ≡ (ends es || p.complete)
  unfolding on_events
  on_events-complete [] p q h = cc
  on_events-complete (e ∷ es) p q h = elim (Option-cases (on_event e p)) [
    | inl stops ↦ cc
    | inr (r, goes) ↦
        let first = on_event-complete e p r goes in
        let rest = on_events-complete es r q (sym (on_events_next e es p r goes) ∙ h) in
        ground (arith, first, rest)
  ]

  -- What a parser is after an input on which the tokenizer ran with `events`.
  abbrev pub Ran : P → Bool → Bool → HttpParser P → Bool × HttpParser P → Type 0
  Ran tokenizer fine whole p (ok, q) =
      (ok ≡ fine) × (q.http_parser ≡ tokenizer) × (q.complete ≡ (whole || p.complete))

  ran_lem :
      (o : Option (HttpParser P)) (tokenizer : P) (fine whole : Bool) (p : HttpParser P)
      (r : Bool × HttpParser P)
      → ((q : HttpParser P) → o ≡ some q → q.complete ≡ (whole || p.complete))
      → elim o as (λ x. Option (Bool × HttpParser P)) [
        | none ↦ none
        | some q ↦ some (fine, record q { http_parser = tokenizer })
      ]
        ≡ some r
      → Ran tokenizer fine whole p r
  ran_lem none tokenizer fine whole p r h e = cc
  ran_lem (some q) tokenizer fine whole p r h e =
      subst (λ o. elim o [ none ↦ Unit | some x ↦ Ran tokenizer fine whole p x ]) e
        (refl, refl, h q refl)

  pub parse-Ran :
      (execute : P → Bytes → List Event × P × Bool) (p : HttpParser P) (input : Bytes)
      (r : Bool × HttpParser P)
      → parse execute p input ≡ some r
      → Ran
          (execute p.http_parser input).1
          (execute p.http_parser input).2
          (ends (execute p.http_parser input).0)
          p
          r
  unfolding parse
  parse-Ran execute p input r h =
      ran_lem _ _ _ _ p r (on_events-complete (execute p.http_parser input).0 p) h
