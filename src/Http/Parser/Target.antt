-- ===== src/Http/Parser/Target.antt =====
-- How the target of a request is split into the URL and the parameters.
use co_socket.Prelude.{
  ℕ, suc, ◌+◌, ◌≡◌, sym, ap, ◌∙◌, true, false, some, [], ◌∷◌, ◌++◌, append_assoc, append-nil, Bytes,
  length, length-append, arith, All,
}
use co_socket.Prelude.Text.{before}
use co_socket.UrlCodec.{url_decode}
use co_socket.UrlCodec.RoundTrip.{IsCopied, url_decode_copied}
use co_socket.Http.Table.{Table, assign_all}
use co_socket.Http.Encoder.{HttpEncoder, query, request_target}
use co_socket.Http.Parser.{
  HttpParser, get_string_before, params_loop, parse_url_and_param, on_complete,
}
use co_socket.Http.Parser.Rounds.{
  Lacks, IsPlain, before-append, before_all, params_loop_done, params_loop-query,
}

split_of :
    (url : Bytes) (parameters m : Table)
    → Lacks b'?' url
    → All IsPlain parameters
    → let text = url ++ query true parameters in
      let path = get_string_before b'?' text 0 in
      (path ≡ url)
      × (params_loop (suc (length text)) text (length path + 1) m ≡ some (assign_all parameters m))
unfolding query get_string_before assign_all
split_of url [] m no_question plain =
    let path : before b'?' (url ++ []) ≡ url =
      ap (before b'?') (append-nil url) ∙ before_all b'?' url no_question in
    (path, params_loop_done _ _ _ m (omega (arith, ap length path, length-append url [])))
split_of url ((k, v) ∷ rest) m no_question plain =
    let tail = k ++ (b'=' ∷ (v ++ query false rest)) in
    let path = before-append b'?' url tail no_question in
    let offset : length (before b'?' (url ++ b'?' ∷ tail)) + 1 ≡ length (url ++ b'?' ∷ []) =
      omega (arith, ap length path, length-append url (b'?' ∷ [])) in
    (
      path,
      ap (λ n. params_loop (suc (length (url ++ b'?' ∷ tail))) (url ++ b'?' ∷ tail) n m) offset
          ∙ params_loop-query _ (url ++ b'?' ∷ []) k v rest _ m
              (sym (append_assoc url (b'?' ∷ []) tail)) plain.0 plain.1
              (omega (arith, length-append url (b'?' ∷ []))),
    )

-- The split of a target that `GetRequestString` wrote, in its two parts.
target_split :
    (e : HttpEncoder) (m : Table)
    → Lacks b'?' e.url
    → All IsPlain e.parameters
    → let text = request_target e in
      let path = get_string_before b'?' text 0 in
      (path ≡ e.url)
      × (params_loop (suc (length text)) text (length path + 1) m
          ≡ some (assign_all e.parameters m))
unfolding request_target
target_split e m no_question plain = split_of e.url e.parameters m no_question plain

module _ {P : Type 0} where
  -- `ParseUrlAndParam` from what its parts answer.
  pub parse_url_and_param_parts :
      (fuel : ℕ) (p : HttpParser P) (text path : Bytes) (m : Table)
      → url_decode p.url_and_params ≡ text
      → get_string_before b'?' text 0 ≡ path
      → params_loop fuel text (length path + 1) p.parameters ≡ some m
      → parse_url_and_param fuel p
        ≡ some (record p { url_and_params = text; url = path; parameters = m })
  unfolding parse_url_and_param
  parse_url_and_param_parts fuel p text path m decoded first rest =
      rw (decoded, first, rest, parse_url_and_param, decoded, first)

  -- What `OnComplete` makes of the target that `GetRequestString` writes: the URL and the parameters
  -- are those of the encoder, the later of two parameters with one name in place of the earlier, if
  -- the target has no byte that `UrlDecode` changes, the URL no `?`, no name is empty or has a `=` and
  -- no value has a `&`.
  pub on_complete-request_target :
      (e : HttpEncoder) (p : HttpParser P) (method : Bytes) (status : ℕ)
      → p.url_and_params ≡ request_target e
      → All IsCopied (request_target e)
      → Lacks b'?' e.url
      → All IsPlain e.parameters
      → on_complete method status p
        ≡ some (record p {
          url = e.url;
          url_and_params = request_target e;
          status = status;
          method = method;
          parameters = assign_all e.parameters p.parameters;
          complete = true;
        })
  unfolding on_complete
  on_complete-request_target e p method status same copied no_question plain =
      let (path, split) = target_split e p.parameters no_question plain in
      let q = record p { method = method; status = status } in
      let parts =
        parse_url_and_param_parts (suc (length p.url_and_params)) q (request_target e) e.url
          (assign_all e.parameters p.parameters)
          (ap url_decode same ∙ url_decode_copied (request_target e) copied) path
          (ap (λ t. params_loop (suc (length t)) (request_target e) (length e.url + 1) p.parameters)
              same
            ∙ ap
                (λ t.
                  params_loop (suc (length (request_target e))) (request_target e) (length t + 1)
                    p.parameters)
                (sym path)
            ∙ split) in
      rw (parts, on_complete)
