-- ===== src/Tests/Http.antt =====
-- HTTP at concrete inputs, with a tokenizer that reports no event.
use co_socket.Prelude.{
  ℕ, zero, suc, ◌+◌, ◌≡◌, refl, Bool, true, false, none, some, List, [], ◌∷◌, Bytes, arith, All,
}
use co_socket.Prelude.Int.{ℤ, pos}
use co_socket.Prelude.Text.{ascii}
use co_socket.UrlCodec.RoundTrip.{IsCopied}
use co_socket.Http.Table.{find, assign, assign_all}
use co_socket.Http.Table.Lookup.{last_value}
use co_socket.Http.Parser.{
  Event, url, header_name, header_value, HttpParser, new_parser, on_complete, on_events,
  message_complete,
}
use co_socket.Http.Parser.Headers.{header_events, on_events_headers, on_events_split}
use co_socket.Http.Parser.Target.{on_complete-request_target}
use co_socket.Http.Parser.Total.{on_events_total}
use co_socket.Http.Encoder.{HttpEncoder, new_encoder, query, request_target}
use co_socket.Tcp.{Received, received}
use co_socket.Http.Client.{HttpClient, new_client, request}
use co_socket.Http.Client.Reply.{Reply, request_replies}

abbrev start : HttpParser (Unit {0})
start = new_parser tt 0

abbrev two_headers : List (Bytes × Bytes)
two_headers = (ascii "Host", ascii "a") ∷ (ascii "Accept", ascii "b") ∷ []

on_events_headers_example :
    (q : HttpParser (Unit {0})) × (on_events (header_events two_headers) start ≡ some q)
    × (find (ascii "Accept") q.headers ≡ last_value (ascii "Accept") two_headers none)
    × (q.header_state ≡ 0)
on_events_headers_example = on_events_headers two_headers start (ascii "Accept") (ground arith) refl

on_events_split_example :
    (q : HttpParser (Unit {0})) × (on_events
        (header_name (b'A' ∷ [])
          ∷ header_value (b'x' ∷ [])
          ∷ header_value (b'y' ∷ [])
          ∷ header_name (b'B' ∷ [])
          ∷ [])
        start
      ≡ some q)
    × (q.headers ≡ assign (b'B' ∷ []) (b'y' ∷ []) (assign (b'A' ∷ []) (b'x' ∷ []) []))
    × (q.header_state ≡ 0)
on_events_split_example =
    on_events_split (b'A' ∷ []) (b'x' ∷ []) (b'y' ∷ []) (b'B' ∷ []) start (λ e. cc) (λ e. cc)
      (λ e. cc) (λ e. cc) refl

-- "/go?a=1&b=".
abbrev sender : HttpEncoder
sender = record (new_encoder false) {
  url = ascii "/go";
  parameters = (b'a' ∷ [], b'1' ∷ []) ∷ (b'b' ∷ [], []) ∷ [];
}

request_target-sender : request_target sender ≡ ascii "/go?a=1&b="
unfolding request_target query
request_target-sender = refl

abbrev targeted : HttpParser (Unit {0})
targeted = record start { url_and_params = request_target sender }

sender-IsCopied : All IsCopied (request_target sender)
unfolding request_target query
sender-IsCopied = ground arith

on_complete-request_target_example :
    on_complete (ascii "GET") 0 targeted
    ≡ some (record targeted {
      url = ascii "/go";
      url_and_params = request_target sender;
      status = 0;
      method = ascii "GET";
      parameters = assign_all sender.parameters [];
      complete = true;
    })
on_complete-request_target_example =
    on_complete-request_target sender targeted (ascii "GET") 0 refl sender-IsCopied (ground arith)
      (ground arith)

on_events_total_example :
    (q : HttpParser (Unit {0})) × (on_events
        (url (ascii "/a?%") ∷ message_complete (ascii "GET") 0 ∷ [])
        start
      ≡ some q)
on_events_total_example =
    on_events_total (url (ascii "/a?%") ∷ message_complete (ascii "GET") 0 ∷ []) start

-- The server sends a byte, which the tokenizer takes for a whole response, and then ends the
-- connection.
abbrev reads : ℕ → Received
reads zero = received (b'x' ∷ [])
reads (suc i) = received []

abbrev one_response : Unit {0} → Bytes → List Event × Unit {0} × Bool
one_response state input = (message_complete [] 200 ∷ [], state, true)

request_replies_example :
    (ret : ℤ) × (d : HttpClient (Unit {0})) × (request one_response
        (λ text. pos 1)
        tt
        (1 + 1)
        reads
        (new_client tt 0 0)
      ≡ some (ret, d))
    × Reply one_response reads 0 tt ret
request_replies_example =
    request_replies one_response (λ text. pos 1) tt 1 reads (new_client tt 0 0) (λ h. h)

-- A message with a header, parameters and a body, and the start of the next one behind it.
abbrev letter : HttpEncoder
letter = record (new_encoder true) {
  headers = (ascii "Host", ascii "a") ∷ [];
  status_code = 200;
  status_message = ascii "OK";
  body = ascii "hi\r\n";
  method = ascii "GET";
  url = ascii "/x";
  parameters = (ascii "k", ascii "v") ∷ [];
}
