-- ===== src/Http/Dispatch.antt =====
-- CoSocket/net/http/HttpDispatch.cpp: the routes of a server. `Sec-WebSocket-Accept`, which is a SHA-1
-- in base 64, is a parameter, and so are the handlers.
pub mod Routes
pub mod Serve
pub mod Frames
pub mod Handlers
pub mod Served
pub mod Handled
pub mod Total
pub mod Refused
use co_socket.Prelude.{
  ℕ, Bool, true, false, not, ◌&&◌, Option, none, some, [], ◌∷◌, ◌++◌, if◌then◌else◌, Bytes,
}
use co_socket.Prelude.Text.{ascii, c_string, text_lt}
use co_socket.Http.Decoder.{HttpDecoder, get_url, get_header}
use co_socket.Http.Encoder.{
  HttpEncoder, set_status_code, set_status_message, set_body, set_close_connection, add_header,
}
use co_socket.WebSocket.Decoder.{WebSocketDecoder}
use co_socket.WebSocket.Encoder.{WebSocketEncoder}

module _ (P : Type 0) where
  abbrev pub HttpHandler : Type 0
  HttpHandler = HttpDecoder P → HttpEncoder → HttpEncoder

  abbrev pub WebSocketHandler : Type 0
  WebSocketHandler = WebSocketDecoder → WebSocketEncoder → WebSocketEncoder

  -- An empty `std::function` is `none`.
  pub record Handler : Type 0 where
    pub http_handler : Option HttpHandler
    pub web_socket_handler : Option WebSocketHandler

  -- The map of the handlers is a function of the URL.
  pub record HttpDispatch : Type 0 where
    pub is_web_socket_req : Bool
    pub enable_web_socket : Bool
    pub handlers : Bytes → Option Handler
    pub ws_handler : Option WebSocketHandler

abbrev pub is_empty : Bytes → Bool
is_empty [] = true
is_empty (b ∷ bs) = false

abbrev pub bad_method : Bytes
bad_method = ascii "{\"code\": 1, \"message\": \"Bad Method\"}\n"

abbrev pub not_found : Bytes
not_found = ascii "{\"code\": 1, \"message\": \"Not Found\"}\n"

abbrev pub rsp_ok : Bytes
rsp_ok = ascii "{\"code\": 0, \"message\": \"\"}\n"

pub response_http_ok : HttpEncoder → HttpEncoder
response_http_ok e = set_body rsp_ok (set_status_code 200 e)

pub response_http_error : HttpEncoder → HttpEncoder
response_http_error e = set_close_connection true (set_body bad_method (set_status_code 400 e))

unfoldable pub response_http_not_found : HttpEncoder → HttpEncoder
response_http_not_found e = set_close_connection true (set_body not_found (set_status_code 404 e))

-- `accept_key` is the SHA-1 of its argument, as a C string and so up to its first zero byte, in base 64.
pub response_web_socket_handshake : (Bytes → Bytes) → Bytes → HttpEncoder → HttpEncoder
response_web_socket_handshake accept_key key e =
    let accept = accept_key (key ++ ascii "258EAFA5-E914-47DA-95CA-C5AB0DC85B11") in
    let e' = set_status_message (ascii "Switching Protocols") (set_status_code 101 e) in
    add_header (ascii "Sec-WebSocket-Accept") accept (
      add_header (ascii "Connection") (ascii "Upgrade")
        (add_header (ascii "Upgrade") (ascii "websocket") e'))

-- Keys of the map that are the same: neither is before the other.
unfoldable pub same_key : Bytes → Bytes → Bool
same_key a b = not (text_lt a b) && not (text_lt b a)

module _ {P : Type 0} where
  -- The constructor.
  abbrev pub new_dispatch : Bool → HttpDispatch P
  new_dispatch enable = record {
    is_web_socket_req = false;
    enable_web_socket = enable;
    handlers = λ url. none;
    ws_handler = none;
  }

  abbrev pub no_handlers : Handler P
  no_handlers = record { http_handler = none; web_socket_handler = none }

  abbrev pub handler_of : HttpDispatch P → Bytes → Handler P
  handler_of d url = elim (d.handlers url) [ none ↦ no_handlers | some h ↦ h ]

  -- `m_handlers[url] = h`.
  unfoldable pub put_handler : Bytes → Handler P → HttpDispatch P → HttpDispatch P
  put_handler url h d = record d { handlers = λ u. if same_key u url then some h else d.handlers u }

  -- The two forms of `AddHandler`.
  unfoldable pub add_http_handler : Bytes → HttpHandler P → HttpDispatch P → HttpDispatch P
  add_http_handler url handler d =
      put_handler url (record (handler_of d url) { http_handler = some handler }) d

  unfoldable pub add_web_socket_handler :
      Bytes → WebSocketHandler P → HttpDispatch P → HttpDispatch P
  add_web_socket_handler url handler d =
      put_handler url (record (handler_of d url) { web_socket_handler = some handler }) d

module _ {P : Type 0} (accept_key : Bytes → Bytes) where
  -- `Dispatch` from the lookup of the URL on: a URL that is not there has no handler.
  unfoldable pub route :
      Bytes → HttpDecoder P → HttpEncoder → HttpDispatch P → HttpEncoder × HttpDispatch P
  route key request e d =
      let h = handler_of d (c_string (get_url request)) in
      if d.is_web_socket_req
      then elim h.web_socket_handler [
        | none ↦ (response_http_not_found e, d)
        | some handler ↦
            (response_web_socket_handshake accept_key key e, record d { ws_handler = some handler })
      ]
      else elim h.http_handler [
        | none ↦ (response_http_not_found e, d)
        | some handler ↦ (handler request e, d)
      ]

  unfoldable pub dispatch :
      HttpDecoder P → HttpEncoder → HttpDispatch P → HttpEncoder × HttpDispatch P
  dispatch request e d =
      let key =
        if d.enable_web_socket then get_header request (ascii "Sec-WebSocket-Key") else [] in
      let upgrade = if d.enable_web_socket then not (is_empty key) else d.is_web_socket_req in
      route key request e (record d { is_web_socket_req = upgrade })
