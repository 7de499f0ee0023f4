-- ===== src/Http/Dispatch/Handled.antt =====
-- One round of a connection: it is handled, and the connection keeps what it has to keep.
use co_socket.Prelude.{
  ℕ, ◌+◌, ◌^◌, ◌≤◌, ◌<◌, ◌≡◌, ap, refl, Bool, true, false, not, Option, none, some, List,
  if◌then◌else◌, Bytes, length, arith, inl, inr, Bool-cases,
}
use co_socket.Prelude.Int.{ℤ}
use co_socket.Http.Parser.{Event}
use co_socket.Http.Decoder.{HttpDecoder, get_url}
use co_socket.Http.Decoder as Requests
use co_socket.Http.Encoder.{new_encoder, get_reponse_string}
use co_socket.WebSocket.Decoder.{WebSocketDecoder}
use co_socket.WebSocket.Decoder as Messages
use co_socket.WebSocket.Parser.Bounds.{parse-IsBounded, parse-length, reset-IsBounded}
use co_socket.WebSocket.Encoder.{WebSocketEncoder}
use co_socket.WebSocket.Encoder as Sender
use co_socket.Http.Dispatch.{dispatch}
use co_socket.Http.Dispatch.Serve.{
  Verdict, goes_on, ends, throws, Connection, response, after_parse, parse_http_to_dispatch,
  answered, after_frame, process_web_socket_data, handle_input,
}
use co_socket.Http.Dispatch.Frames.{response_web_socket_data_total}
use co_socket.Http.Dispatch.Served.{Kept, dispatch-AllServed}

module _ {P : Type 0} (frames : ℕ) (execute : P → Bytes → List Event × P × Bool)
    (accept_key : Bytes → Bytes) (tokenizer : P) where
  abbrev pub Handled : ℕ → Option (Verdict × Connection P) → Type 0
  Handled n r = (v : Verdict) × (c : Connection P) × (r ≡ some (v, c)) × Kept frames n c

  after_parse-Kept :
      (write : ℕ → Bytes → ℤ) (r : Bool × HttpDecoder P) (n : ℕ) (c : Connection P)
      → Kept frames n c
      → Kept frames n (after_parse execute accept_key tokenizer write r c).1
  unfolding after_parse
  after_parse-Kept write (false, request) n c h = record {
    served = h.served;
    bounded = h.bounded;
    cached = h.cached;
  }
  after_parse-Kept write (true, request) n c h = elim (Bool-cases (Requests.is_complete request)) [
    | inr partial ↦
        rw (partial, after_parse)
          (record { served = h.served; bounded = h.bounded; cached = h.cached })
    | inl whole ↦
        let next =
          dispatch-AllServed frames accept_key request (new_encoder false) c.dispatcher h.served in
        let text =
          get_reponse_string (dispatch accept_key request (new_encoder false) c.dispatcher).0 in
        elim (Bool-cases (response (write 0 text) (length text))) [
          | inl sent ↦
              rw (whole, after_parse, sent)
                (record { served = next; bounded = h.bounded; cached = h.cached })
          | inr lost ↦
              rw (whole, after_parse, lost)
                (record { served = next; bounded = h.bounded; cached = h.cached })
        ]
  ]

  parse_http_to_dispatch-Handled :
      (write : ℕ → Bytes → ℤ) (input : Bytes) (n : ℕ) (c : Connection P)
      → Kept frames n c
      → Handled n (parse_http_to_dispatch execute accept_key tokenizer write input c)
  unfolding parse_http_to_dispatch
  parse_http_to_dispatch-Handled write input n c h =
      let (fine, q, parsed) = Requests.parse_lem execute c.request input in
      (
        (after_parse execute accept_key tokenizer write (fine, q) c).0,
        (after_parse execute accept_key tokenizer write (fine, q) c).1,
        rw (parsed, parse_http_to_dispatch),
        after_parse-Kept write (fine, q) n c h,
      )

  -- What the frames of an answer come to.
  answered-Handled :
      (sent : Option Bool) (n : ℕ) (c : Connection P)
      → (ok : Bool) × (sent ≡ some ok)
      → Kept frames n c
      → Handled n (answered execute accept_key tokenizer sent c)
  unfolding answered Messages.reset
  answered-Handled none n c (ok, e) h = cc
  answered-Handled (some false) n c e h = (ends, c, refl, h)
  answered-Handled (some true) n c e h =
      let (bounded, empty) = reset-IsBounded c.ws_decoder.ws_parser in
      (
        goes_on,
        record c { ws_decoder = Messages.reset c.ws_decoder },
        refl,
        record { served = h.served; bounded = bounded; cached = omega (arith, ap length empty) },
      )

  frame_for :
      (write : ℕ → Bytes → ℤ) (q : WebSocketDecoder) (n : ℕ) (c : Connection P)
      (h : Option (WebSocketDecoder → WebSocketEncoder → WebSocketEncoder))
      → c.dispatcher.ws_handler ≡ h
      → Messages.is_complete q ≡ true
      → Kept frames n (record c { ws_decoder = q })
      → Handled n (after_frame execute accept_key tokenizer frames write (true, q) c)
  unfolding after_frame
  frame_for write q n c none e whole k =
      (throws, record c { ws_decoder = q }, simp (whole, after_frame, e), k)
  frame_for write q n c (some h) e whole k =
      let (finite, enough) = k.served.1 h e q k.bounded.short in
      rw (whole, after_frame, e)
        (answered-Handled _ n (record c { ws_decoder = q })
          (response_web_socket_data_total frames 0 write (h q (Sender.new_encoder false)) finite
            enough)
          k)

  after_frame-Handled :
      (write : ℕ → Bytes → ℤ) (r : Bool × WebSocketDecoder) (n : ℕ) (c : Connection P)
      → Kept frames n (record c { ws_decoder = r.1 })
      → Handled n (after_frame execute accept_key tokenizer frames write r c)
  unfolding after_frame
  after_frame-Handled write (false, q) n c k = (ends, record c { ws_decoder = q }, refl, k)
  after_frame-Handled write (true, q) n c k = elim (Bool-cases (Messages.is_complete q)) [
    | inr partial ↦ (goes_on, record c { ws_decoder = q }, rw (partial, after_frame), k)
    | inl whole ↦ frame_for write q n c c.dispatcher.ws_handler refl whole k
  ]

  either-Handled :
      (b : Bool) (n : ℕ) (x y : Option (Verdict × Connection P))
      → Handled n x
      → Handled n y
      → Handled n (if not b then x else y)
  either-Handled true n x y left right = right
  either-Handled false n x y left right = left

  pub weaker : (n m : ℕ) (c : Connection P) → n ≤ m → Kept frames n c → Kept frames m c
  weaker n m c le k = record {
    served = k.served;
    bounded = k.bounded;
    cached = omega (arith, k.cached);
  }

  parse-Kept :
      (input : Bytes) (n : ℕ) (c : Connection P)
      → n + length input < 2 ^ 62
      → Kept frames n c
      → Kept frames
          (n + length input)
          (record c { ws_decoder = (Messages.parse c.ws_decoder input).1 })
  unfolding Messages.parse
  parse-Kept input n c fits k =
      let p = c.ws_decoder.ws_parser in
      record {
        served = k.served;
        bounded = parse-IsBounded p input (omega (arith, k.bounded.short, k.cached)) k.bounded;
        cached =
            omega
              (arith, parse-length p input (omega (arith, k.cached)) k.bounded.within, k.cached);
      }

  -- A round of the loop that read something.
  pub handle_input-Handled :
      (write : ℕ → Bytes → ℤ) (input : Bytes) (n : ℕ) (c : Connection P)
      → n + length input < 2 ^ 62
      → Kept frames n c
      → Handled (n + length input) (handle_input execute accept_key tokenizer frames write input c)
  unfolding handle_input process_web_socket_data
  handle_input-Handled write input n c fits k =
      either-Handled c.dispatcher.is_web_socket_req (n + length input) _ _
        (parse_http_to_dispatch-Handled write input (n + length input) c
          (weaker n (n + length input) c (omega arith) k))
        (after_frame-Handled write (Messages.parse c.ws_decoder input) (n + length input) c
          (parse-Kept input n c fits k))
