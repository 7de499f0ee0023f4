-- ===== src/Http/Dispatch/Served.antt =====
-- The WebSocket handlers of a server, and what its connections keep.
use co_socket.Prelude.{
  ℕ, ◌-◌, ◌≤◌, ◌<◌, ◌≡◌, ◌∙◌, refl, Bool, true, false, Option, none, some, Bytes, length,
}
use co_socket.Prelude.Text.{c_string}
use co_socket.Http.Decoder.{HttpDecoder, get_url}
use co_socket.Http.Encoder.{HttpEncoder}
use co_socket.WebSocket.Decoder.{WebSocketDecoder}
use co_socket.WebSocket.Parser.{max_length}
use co_socket.WebSocket.Parser.Bounds.{IsBounded}
use co_socket.WebSocket.Encoder.{WebSocketEncoder}
use co_socket.WebSocket.Encoder as Sender
use co_socket.WebSocket.Encoder.Progress.{IsFinite}
use co_socket.Http.Dispatch.{HttpDispatch, handler_of, route, dispatch}
use co_socket.Http.Dispatch.Serve.{Connection}

-- What the handler answers to a message that the parser can deliver comes to an end within the
-- number of frames.
abbrev pub IsServed : ℕ → (WebSocketDecoder → WebSocketEncoder → WebSocketEncoder) → Type 0
IsServed frames h =
    (q : WebSocketDecoder)
    → length q.ws_parser.payload ≤ max_length
    → let e = h q (Sender.new_encoder false) in IsFinite e × (e.len - e.offset < frames)

module _ {P : Type 0} where
  -- The WebSocket handlers of the dispatcher are all such.
  abbrev pub AllServed : ℕ → HttpDispatch P → Type 0
  AllServed frames d =
      ((url : Bytes) (h : WebSocketDecoder → WebSocketEncoder → WebSocketEncoder)
        → (handler_of d url).web_socket_handler ≡ some h
        → IsServed frames h)
      × ((h : WebSocketDecoder → WebSocketEncoder → WebSocketEncoder)
          → d.ws_handler ≡ some h
          → IsServed frames h)

module _ {P : Type 0} (frames : ℕ) (accept_key : Bytes → Bytes) where
  route_upgraded :
      (key : Bytes) (request : HttpDecoder P) (e : HttpEncoder) (d : HttpDispatch P)
      (h : Option (WebSocketDecoder → WebSocketEncoder → WebSocketEncoder))
      → (handler_of d (c_string (get_url request))).web_socket_handler ≡ h
      → AllServed frames d
      → AllServed frames (route accept_key key request e (record d { is_web_socket_req = true })).1
  unfolding route
  route_upgraded key request e d none found all = rw (found, route) all
  route_upgraded key request e d (some h) found all =
      rw (found, route) ((all.0, λ g same. all.0 (c_string (get_url request)) g (found ∙ same)))

  route_plain :
      (key : Bytes) (request : HttpDecoder P) (e : HttpEncoder) (d : HttpDispatch P)
      (h : Option (HttpDecoder P → HttpEncoder → HttpEncoder))
      → (handler_of d (c_string (get_url request))).http_handler ≡ h
      → AllServed frames d
      → AllServed frames (route accept_key key request e (record d { is_web_socket_req = false })).1
  unfolding route
  route_plain key request e d none found all = rw (found, route) all
  route_plain key request e d (some h) found all = rw (found, route) all

  -- `Dispatch` takes its handler from the map.
  route-AllServed :
      (key : Bytes) (request : HttpDecoder P) (e : HttpEncoder) (d : HttpDispatch P) (up : Bool)
      → AllServed frames d
      → AllServed frames (route accept_key key request e (record d { is_web_socket_req = up })).1
  route-AllServed key request e d true all = route_upgraded key request e d _ refl all
  route-AllServed key request e d false all = route_plain key request e d _ refl all

  pub dispatch-AllServed :
      (request : HttpDecoder P) (e : HttpEncoder) (d : HttpDispatch P)
      → AllServed frames d
      → AllServed frames (dispatch accept_key request e d).1
  unfolding dispatch
  dispatch-AllServed request e d all = route-AllServed _ request e d _ all

module _ {P : Type 0} where
  -- What holds of a connection that has read at most `n` bytes.
  pub record Kept (frames n : ℕ) (c : Connection P) : Type 0 where
    pub served : AllServed frames c.dispatcher
    pub bounded : IsBounded c.ws_decoder.ws_parser
    pub cached : length c.ws_decoder.ws_parser.input_cache ≤ n
