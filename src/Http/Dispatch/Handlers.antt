-- ===== src/Http/Dispatch/Handlers.antt =====
-- What `AddHandler` puts into the map, and where a request goes by it.
use co_socket.Prelude.{◌≡◌, ap, ◌∙◌, true, false, some, Bytes}
use co_socket.Http.Table.{text_lt_irrefl}
use co_socket.Http.Dispatch.{
  HttpDispatch, HttpHandler, WebSocketHandler, Handler, same_key, handler_of, put_handler,
  add_http_handler, add_web_socket_handler,
}

same_key_refl : (url : Bytes) → same_key url url ≡ true
unfolding same_key
same_key_refl url = rw (text_lt_irrefl url)

module _ {P : Type 0} where
  put_handler_lem :
      (url : Bytes) (h : Handler P) (d : HttpDispatch P)
      → (put_handler url h d).handlers url ≡ some h
  unfolding put_handler
  put_handler_lem url h d = rw (same_key_refl url)

  put_handler_others :
      (url other : Bytes) (h : Handler P) (d : HttpDispatch P)
      → same_key other url ≡ false
      → (put_handler url h d).handlers other ≡ d.handlers other
  unfolding put_handler
  put_handler_others url other h d differs = rw differs

  abbrev pub add_both : Bytes → HttpHandler P → WebSocketHandler P → HttpDispatch P → HttpDispatch P
  add_both url handler ws d = add_web_socket_handler url ws (add_http_handler url handler d)

  -- What `handler_of` finds of a URL that has handlers.
  handler_of_lem :
      (url : Bytes) (h : Handler P) (d : HttpDispatch P)
      → d.handlers url ≡ some h
      → handler_of d url ≡ h
  handler_of_lem url h d found = rw (found, handler_of)

  add_both-handlers :
      (url : Bytes) (handler : HttpHandler P) (ws : WebSocketHandler P) (d : HttpDispatch P)
      → (add_both url handler ws d).handlers url
        ≡ some (record { http_handler = some handler; web_socket_handler = some ws })
  unfolding add_http_handler add_web_socket_handler
  add_both-handlers url handler ws d =
      put_handler_lem url _ (add_http_handler url handler d)
      ∙ ap {A = Handler P} (λ h. some (record h { web_socket_handler = some ws }))
          (handler_of_lem url _ (add_http_handler url handler d) (put_handler_lem url _ d))

  -- The two forms of `AddHandler` on one URL keep each other's handler there, and leave every other
  -- URL as it was.
  pub add_both_lem :
      (url other : Bytes) (handler : HttpHandler P) (ws : WebSocketHandler P) (d : HttpDispatch P)
      → same_key other url ≡ false
      → ((add_both url handler ws d).handlers url
          ≡ some (record { http_handler = some handler; web_socket_handler = some ws }))
        × ((add_both url handler ws d).handlers other ≡ d.handlers other)
  unfolding add_http_handler add_web_socket_handler
  add_both_lem url other handler ws d differs = (
    add_both-handlers url handler ws d,
    put_handler_others url other _ _ differs ∙ put_handler_others url other _ _ differs,
  )
