-- ===== src/Http/Parser/Total.antt =====
-- When the callbacks return.
use co_socket.Prelude.{
  ℕ, suc, ◌+◌, ◌≡◌, refl, Bool, true, some, List, [], ◌∷◌, Bytes, length, arith,
}
use co_socket.UrlCodec.{url_decode}
use co_socket.UrlCodec.Shape.{length-url_decode}
use co_socket.Http.Parser.{
  Event, url, header_name, header_value, body, message_complete, HttpParser, get_string_before,
  on_complete, on_event, on_events, parse,
}
use co_socket.Http.Parser.Rounds.{params_loop_ends}
use co_socket.Http.Parser.Target.{parse_url_and_param_parts}

module _ {P : Type 0} where
  on_complete_total :
      (method : Bytes) (status : ℕ) (p : HttpParser P)
      → (q : HttpParser P) × (on_complete method status p ≡ some q)
  unfolding on_complete
  on_complete_total method status p =
      let q = record p { method = method; status = status } in
      let text = url_decode p.url_and_params in
      let path = get_string_before b'?' text 0 in
      let (m, ends) =
        params_loop_ends (suc (length p.url_and_params)) text (length path + 1) p.parameters
          (omega arith) (omega (arith, length-url_decode p.url_and_params)) in
      (
        record q { url_and_params = text; url = path; parameters = m; complete = true },
        rw (
          parse_url_and_param_parts (suc (length p.url_and_params)) q text path m refl refl ends,
          on_complete,
        ),
      )

  on_event_total : (e : Event) (p : HttpParser P) → (q : HttpParser P) × (on_event e p ≡ some q)
  unfolding on_event
  on_event_total (url text) p = (_, refl)
  on_event_total (header_name text) p = (_, refl)
  on_event_total (header_value text) p = (_, refl)
  on_event_total (body text) p = (_, refl)
  on_event_total (message_complete method status) p = on_complete_total method status p

  -- The callbacks return on every sequence of events: the loop over the parameters ends within the
  -- fuel that `on_complete` gives it, whatever the target holds.
  pub on_events_total :
      (es : List Event) (p : HttpParser P) → (q : HttpParser P) × (on_events es p ≡ some q)
  unfolding on_events
  on_events_total [] p = (p, refl)
  on_events_total (e ∷ es) p =
      let (q, returns) = on_event_total e p in
      let (r, rest) = on_events_total es q in (r, rw (returns, on_events) rest)

  -- `Parse` returns.
  pub parse_total :
      (execute : P → Bytes → List Event × P × Bool) (p : HttpParser P) (input : Bytes)
      → (fine : Bool) × (q : HttpParser P) × (parse execute p input ≡ some (fine, q))
  unfolding parse
  parse_total execute p input =
      let (events, tokenizer, fine) = execute p.http_parser input in
      let (q, returns) = on_events_total events p in
      (fine, record q { http_parser = tokenizer }, rw (returns, parse))
