-- ===== src/Http/Dispatch/Routes.antt =====
-- Where `Dispatch` sends a request.
use co_socket.Prelude.{
  ℕ, ◌≡◌, ap, ◌∙◌, Bool, true, false, not, none, some, [], ◌∷◌, if◌then◌else◌, Bytes,
}
use co_socket.Prelude.Text.{ascii, c_string}
use co_socket.Http.Decoder.{HttpDecoder, get_url, get_header}
use co_socket.Http.Encoder.{HttpEncoder}
use co_socket.Http.Dispatch.{
  HttpDispatch, HttpHandler, Handler, response_http_not_found, response_web_socket_handshake,
  WebSocketHandler, is_empty, route, dispatch,
}

abbrev pub web_socket_key : {P : Type 0} → HttpDecoder P → Bytes
web_socket_key request = get_header request (ascii "Sec-WebSocket-Key")

module _ {P : Type 0} (accept_key : Bytes → Bytes) (request : HttpDecoder P) (e : HttpEncoder)
    (d : HttpDispatch P) where
  -- The key that `Dispatch` reads, and what it makes of it.
  abbrev read_key : Bytes
  read_key = if d.enable_web_socket then web_socket_key request else []

  abbrev upgraded : Bool
  upgraded = if d.enable_web_socket then not (is_empty read_key) else d.is_web_socket_req

  route_refused :
      (key : Bytes) (h : Handler P)
      → d.handlers (c_string (get_url request)) ≡ some h
      → h.web_socket_handler ≡ none
      → route accept_key key request e (record d { is_web_socket_req = true })
        ≡ (response_http_not_found e, record d { is_web_socket_req = true })
  unfolding route
  route_refused key h found unset = rw (found, unset)

  route_plain :
      (key : Bytes) (h : Handler P) (handler : HttpHandler P)
      → d.handlers (c_string (get_url request)) ≡ some h
      → h.http_handler ≡ some handler
      → route accept_key key request e (record d { is_web_socket_req = false })
        ≡ (handler request e, record d { is_web_socket_req = false })
  unfolding route
  route_plain key h handler found set = rw (found, set)

  -- A request for an upgrade to a URL that has no WebSocket handler is answered 404, and no handler is
  -- taken; but the connection is left marked as a WebSocket connection, so that what the client sends
  -- next is read as frames.
  pub dispatch_refused :
      (b : ℕ) (bs : Bytes) (h : Handler P)
      → d.enable_web_socket ≡ true
      → web_socket_key request ≡ b ∷ bs
      → d.handlers (c_string (get_url request)) ≡ some h
      → h.web_socket_handler ≡ none
      → dispatch accept_key request e d
        ≡ (response_http_not_found e, record d { is_web_socket_req = true })
  unfolding dispatch
  dispatch_refused b bs h enabled key found unset =
      let up : upgraded ≡ true = rw (enabled, key) in
      ap (λ x. route accept_key read_key request e (record d { is_web_socket_req = x })) up
      ∙ route_refused read_key h found unset

  -- Where WebSockets are not enabled and the connection is not one, a request goes to the handler of
  -- its URL, and to none other.
  pub dispatch_plain :
      (h : Handler P) (handler : HttpHandler P)
      → d.enable_web_socket ≡ false
      → d.is_web_socket_req ≡ false
      → d.handlers (c_string (get_url request)) ≡ some h
      → h.http_handler ≡ some handler
      → dispatch accept_key request e d
        ≡ (handler request e, record d { is_web_socket_req = false })
  unfolding dispatch
  dispatch_plain h handler disabled plain found set =
      let down : upgraded ≡ false = rw (disabled, plain) in
      ap (λ x. route accept_key read_key request e (record d { is_web_socket_req = x })) down
      ∙ route_plain read_key h handler found set

  route_upgrade :
      (key : Bytes) (h : Handler P) (handler : WebSocketHandler P)
      → d.handlers (c_string (get_url request)) ≡ some h
      → h.web_socket_handler ≡ some handler
      → route accept_key key request e (record d { is_web_socket_req = true }) ≡ (
        response_web_socket_handshake accept_key key e,
        record d { is_web_socket_req = true; ws_handler = some handler },
      )
  unfolding route
  route_upgrade key h handler found set = rw (found, set)

  -- A request with a WebSocket key to a URL that has a WebSocket handler is answered by the handshake
  -- for that key, and the connection is marked as a WebSocket connection and takes the handler.
  pub dispatch_upgrade :
      (b : ℕ) (bs : Bytes) (h : Handler P) (handler : WebSocketHandler P)
      → d.enable_web_socket ≡ true
      → web_socket_key request ≡ b ∷ bs
      → d.handlers (c_string (get_url request)) ≡ some h
      → h.web_socket_handler ≡ some handler
      → dispatch accept_key request e d ≡ (
        response_web_socket_handshake accept_key (b ∷ bs) e,
        record d { is_web_socket_req = true; ws_handler = some handler },
      )
  unfolding dispatch
  dispatch_upgrade b bs h handler enabled key found set =
      let same : read_key ≡ b ∷ bs = rw (enabled, key) in
      let up : upgraded ≡ true = rw (enabled, key) in
      ap (λ x. route accept_key read_key request e (record d { is_web_socket_req = x })) up
      ∙ route_upgrade read_key h handler found set
      ∙ ap
          (λ k. (
            response_web_socket_handshake accept_key k e,
            record d { is_web_socket_req = true; ws_handler = some handler },
          ))
          same
