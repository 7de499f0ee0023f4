-- ===== src/Http/Parser/Headers.antt =====
-- Which headers the callbacks store.
use co_socket.Prelude.{◌≡◌, refl, ap, ◌∙◌, ◌≢◌, some, List, [], ◌∷◌, Bytes, All}
use co_socket.Http.Table.{Table, find, assign, assign_all}
use co_socket.Http.Table.Lookup.{last_value, find-assign_all}
use co_socket.Http.Parser.{Event, header_name, header_value, HttpParser, on_events}

-- The events of headers whose names and values each arrive in one piece.
abbrev pub header_events : List (Bytes × Bytes) → List Event
header_events [] = []
header_events ((k, v) ∷ rest) = header_name k ∷ header_value v ∷ header_events rest

abbrev pub IsWhole : Bytes × Bytes → Type 0
IsWhole (k, v) = (k ≢ []) × (v ≢ [])

-- The headers that the parser has, and what is under way.
abbrev pub with_headers : {P : Type 0} → HttpParser P → Bytes → Bytes → Table → HttpParser P
with_headers p k v m = record p { header_state = 0; header_name = k; header_value = v; headers = m }

module _ {P : Type 0} where
  one_header :
      (k v : Bytes) (es : List Event) (p : HttpParser P)
      → p.header_state ≡ 0
      → k ≢ []
      → v ≢ []
      → on_events (header_name k ∷ header_value v ∷ es) p
        ≡ on_events es (with_headers p k v (assign k v p.headers))
  unfolding on_events
  one_header [] v es p h nk nv = absurd (nk refl)
  one_header (k ∷ ks) [] es p h nk nv = absurd (nv refl)
  one_header (k ∷ ks) (v ∷ vs) es p h nk nv = rw h refl

  on_events-assign_all :
      (hs : List (Bytes × Bytes)) (p : HttpParser P)
      → All IsWhole hs
      → p.header_state ≡ 0
      → (q : HttpParser P) × (on_events (header_events hs) p ≡ some q)
        × (q.headers ≡ assign_all hs p.headers)
        × (q.header_state ≡ 0)
  unfolding on_events assign_all
  on_events-assign_all [] p whole h = (p, refl, refl, h)
  on_events-assign_all ((k, v) ∷ hs) p whole h =
      let (q, ends, same, none_left) =
        on_events-assign_all hs (with_headers p k v (assign k v p.headers)) whole.1 refl in
      (q, one_header k v (header_events hs) p h whole.0.0 whole.0.1 ∙ ends, same, none_left)

  -- Headers whose names and values are not empty and each arrive in one piece, behind a header that
  -- is finished: for each name the value that is found is the one that came last with it, or, where
  -- none came, what was found before; and no header is left under way.
  pub on_events_headers :
      (hs : List (Bytes × Bytes)) (p : HttpParser P) (key : Bytes)
      → All IsWhole hs
      → p.header_state ≡ 0
      → (q : HttpParser P) × (on_events (header_events hs) p ≡ some q)
        × (find key q.headers ≡ last_value key hs (find key p.headers))
        × (q.header_state ≡ 0)
  on_events_headers hs p key whole h =
      let (q, ends, same, none_left) = on_events-assign_all hs p whole h in
      (q, ends, ap (find key) same ∙ find-assign_all key hs p.headers, none_left)

  -- A value that arrives in two pieces is cut: the header keeps the first piece, and the second is
  -- stored under the name of the next header.
  pub on_events_split :
      (k v1 v2 next : Bytes) (p : HttpParser P)
      → k ≢ []
      → v1 ≢ []
      → v2 ≢ []
      → next ≢ []
      → p.header_state ≡ 0
      → (q : HttpParser P) × (on_events
            (header_name k ∷ header_value v1 ∷ header_value v2 ∷ header_name next ∷ [])
            p
          ≡ some q)
        × (q.headers ≡ assign next v2 (assign k v1 p.headers))
        × (q.header_state ≡ 0)
  unfolding on_events
  on_events_split k v1 [] next p nk nv1 nv2 nn h = absurd (nv2 refl)
  on_events_split k v1 (v ∷ vs) [] p nk nv1 nv2 nn h = absurd (nn refl)
  on_events_split k v1 (v ∷ vs) (n ∷ ns) p nk nv1 nv2 nn h =
      let first = assign k v1 p.headers in
      (
        with_headers p (n ∷ ns) (v ∷ vs) (assign (n ∷ ns) (v ∷ vs) first),
        one_header k v1 (header_value (v ∷ vs) ∷ header_name (n ∷ ns) ∷ []) p h nk nv1,
        refl,
        refl,
      )
