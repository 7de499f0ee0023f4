-- ===== src/Examples/HttpServer.antt =====
-- CoSocket/example/http_server/HttpServer.cpp.
pub mod Echo
pub mod Conversation
pub mod Arrivals
pub mod Message
use co_socket.Prelude.{
  ◌+◌, ◌≡◌, refl, sym, subst, ◌∙◌, true, Option, none, some, arith, Bool-cases, inl, inr, ◌⊎◌,
  Bytes,
}
use co_socket.Prelude.Text.{ascii}
use co_socket.Http.Decoder.{HttpDecoder}
use co_socket.Http.Encoder.{HttpEncoder, set_status_code, set_body}
use co_socket.WebSocket.Parser.{max_length}
use co_socket.WebSocket.Decoder.{WebSocketDecoder, get_payload, get_payload_len}
use co_socket.WebSocket.Encoder.{WebSocketEncoder, set_op_code, set_payload}
use co_socket.Http.Dispatch.{
  HttpDispatch, Handler, new_dispatch, handler_of, same_key, put_handler, add_http_handler,
  add_web_socket_handler,
}
use co_socket.Http.Dispatch.Served.{IsServed, AllServed}

module _ {P : Type 0} where
  pub http_handle : HttpDecoder P → HttpEncoder → HttpEncoder
  http_handle request response =
      set_body (ascii "{\"code\": 0, \"message\": \"\"}\n") (set_status_code 200 response)

-- `OpCodeType_Text` is 1.
pub web_socket_handle : WebSocketDecoder → WebSocketEncoder → WebSocketEncoder
web_socket_handle request response =
    set_payload (set_op_code response 1) (get_payload request) (get_payload_len request)

-- The dispatcher that `HandleRequest` makes for a connection.
pub handle_request : {P : Type 0} → HttpDispatch P
unfolding http_handle web_socket_handle
handle_request =
    add_web_socket_handler (ascii "/") web_socket_handle
      (add_http_handler (ascii "/") http_handle (new_dispatch true))

web_socket_handle-IsServed : IsServed (max_length + 1) web_socket_handle
unfolding web_socket_handle set_payload set_op_code get_payload get_payload_len
web_socket_handle-IsServed q h = (
  record { framed = omega arith; within = omega arith; small = omega (arith, h) },
  omega (arith, h),
)

-- What is found after a handler was put.
put_handler-found :
    {P : Type 0} (key url : Bytes) (h : Handler P) (d : HttpDispatch P)
    → (handler_of (put_handler key h d) url ≡ h)
      ⊎ (handler_of (put_handler key h d) url ≡ handler_of d url)
unfolding put_handler
put_handler-found key url h d = elim (Bool-cases (same_key url key)) [
  | inl same ↦ inl (rw (same, handler_of))
  | inr differs ↦ inr (rw (differs, handler_of))
]

-- The WebSocket handler of every URL, if there is one, is this one.
abbrev Only : {P : Type 0} → HttpDispatch P → Type 0
Only d =
    (url : Bytes)
    → ((handler_of d url).web_socket_handler ≡ none)
      ⊎ ((handler_of d url).web_socket_handler ≡ some web_socket_handle)

put_handler-Only :
    {P : Type 0} (key : Bytes) (h : Handler P) (d : HttpDispatch P)
    → (h.web_socket_handler ≡ none) ⊎ (h.web_socket_handler ≡ some web_socket_handle)
    → Only d
    → Only (put_handler key h d)
put_handler-Only {P} key h d fits others url = elim (put_handler-found key url h d) [
  | inl new ↦
      subst
        (λ (x : Handler P).
          (x.web_socket_handler ≡ none) ⊎ (x.web_socket_handler ≡ some web_socket_handle))
        (sym new) fits
  | inr old ↦
      subst
        (λ (x : Handler P).
          (x.web_socket_handler ≡ none) ⊎ (x.web_socket_handler ≡ some web_socket_handle))
        (sym old) (others url)
]

handle_request-Only : (P : Type 0) → Only (handle_request {P = P})
unfolding handle_request add_http_handler add_web_socket_handler
handle_request-Only P =
    put_handler-Only (ascii "/") _ _ (inr refl)
      (put_handler-Only (ascii "/") _ _ (inl refl) (λ url. inl refl))

some_inj : {A : Type 0} {x y : A} → some x ≡ some y → x ≡ y
some_inj e = cc

only-IsServed :
    (h : WebSocketDecoder → WebSocketEncoder → WebSocketEncoder)
    (found : Option (WebSocketDecoder → WebSocketEncoder → WebSocketEncoder))
    → (found ≡ none) ⊎ (found ≡ some web_socket_handle)
    → found ≡ some h
    → IsServed (max_length + 1) h
only-IsServed h found (inl e) same = cc
only-IsServed h found (inr e) same =
    let own : some web_socket_handle ≡ some h = sym e ∙ same in
    subst (IsServed (max_length + 1)) (some_inj own) web_socket_handle-IsServed

-- The frames of what the server answers come to an end.
pub handle_request-AllServed : (P : Type 0) → AllServed (max_length + 1) (handle_request {P = P})
unfolding handle_request add_http_handler add_web_socket_handler put_handler
handle_request-AllServed P =
    (λ url h found. only-IsServed h _ (handle_request-Only P url) found, λ h e. cc)
