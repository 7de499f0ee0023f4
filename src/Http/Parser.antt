-- ===== src/Http/Parser.antt =====
-- CoSocket/net/http/HttpParser.cpp and HttpParser.h, which HttpDecoder.h passes on. The tokenizer
-- `http_parser` is another project's: its state is a type `P`, and a run of it on some input a list of
-- the events that it reports, its new state and whether it met no error.
pub mod Access
pub mod Headers
pub mod Rounds
pub mod Target
pub mod Total
pub mod Whole
use Prim.Native.Nat.{bit_or}
use co_socket.Prelude.{
  ℕ, zero, suc, ◌+◌, Bool, true, false, Option, none, some, List, [], ◌∷◌, ◌++◌, ltb, ◌==◌,
  if◌then◌else◌, Bytes, length, drop,
}
use co_socket.Prelude.Text.{before, c_string}
use co_socket.Http.Table.{Table, find, assign}
use co_socket.UrlCodec.{url_decode}

-- The calls of the callbacks that `m_settings` registers, with what they read of the tokenizer.
pub data Event : Type 0 where
  url : Bytes → Event
  header_name : Bytes → Event
  header_value : Bytes → Event
  body : Bytes → Event
  message_complete : (method : Bytes) (status : ℕ) → Event

pub record HttpParser (P : Type 0) : Type 0 where
  pub url : Bytes
  pub url_and_params : Bytes
  pub status : ℕ
  pub method : Bytes
  pub header_state : ℕ
  pub header_name : Bytes
  pub header_value : Bytes
  pub headers : Table
  pub parameters : Table
  pub body : Bytes
  pub complete : Bool
  pub http_parser : P

-- `HeaderState_HasName`, `HeaderState_HasVaule` and `HeaderState_HasAll`; 0 is `HeaderState_None`.
abbrev pub has_name : ℕ
has_name = 0x01

abbrev pub has_value : ℕ
has_value = 0x10

abbrev pub has_all : ℕ
has_all = 0x11

-- `GetStringBefore`.
unfoldable pub get_string_before : ℕ → Bytes → ℕ → Bytes
get_string_before stop text offset = before stop (drop offset text)

abbrev is_empty : Bytes → Bool
is_empty [] = true
is_empty (b ∷ bs) = false

-- The end of a round of `ParseUrlAndParam`.
pub add_parameter : Bytes → Bytes → Table → Table
add_parameter [] [] m = m
add_parameter [] (v ∷ vs) m = assign (v ∷ vs) [] m
add_parameter (k ∷ ks) value m = assign (k ∷ ks) value m

-- The loop of `ParseUrlAndParam`, on fuel: `none` means that it ran out.
pub params_loop : ℕ → Bytes → ℕ → Table → Option Table
unfolding add_parameter
params_loop zero text offset m = none
params_loop (suc fuel) text offset m = elim (ltb offset (length text)) [
  | false ↦ some m
  | true ↦
      let key = get_string_before b'=' text offset in
      let offset' = offset + length key + 1 in
      elim (ltb offset' (length text)) [
        | true ↦
            let value = get_string_before b'&' text offset' in
            params_loop fuel text (offset' + length value + 1) (add_parameter key value m)
        | false ↦ params_loop fuel text offset' (add_parameter key [] m)
      ]
]

module _ {P : Type 0} where
  -- The constructor, with a new tokenizer. It does not set `m_status`, which is what `status` stands
  -- for.
  abbrev pub new_parser : P → ℕ → HttpParser P
  new_parser tokenizer status = record {
    url = [];
    url_and_params = [];
    status = status;
    method = [];
    header_state = 0;
    header_name = [];
    header_value = [];
    headers = [];
    parameters = [];
    body = [];
    complete = false;
    http_parser = tokenizer;
  }

  unfoldable pub reset : P → HttpParser P → HttpParser P
  reset tokenizer p = new_parser tokenizer 0

  -- `GetHeader` and `GetParameter`, as C strings.
  unfoldable pub get_header : HttpParser P → Bytes → Bytes
  get_header p name = elim (find name p.headers) [ none ↦ [] | some value ↦ c_string value ]

  pub get_parameter : HttpParser P → Bytes → Bytes
  get_parameter p name = elim (find name p.parameters) [ none ↦ [] | some value ↦ c_string value ]

  -- The end of `OnHeaderName` and of `OnHeaderValue`.
  pub store_header : HttpParser P → HttpParser P
  store_header p =
      if p.header_state == has_all
      then record p { header_state = 0; headers = assign p.header_name p.header_value p.headers }
      else p

  pub on_header_name : Bytes → HttpParser P → HttpParser P
  unfolding store_header
  on_header_name [] p = p
  on_header_name (b ∷ bs) p =
      store_header
        (record p { header_name = b ∷ bs; header_state = bit_or p.header_state has_name })

  pub on_header_value : Bytes → HttpParser P → HttpParser P
  unfolding store_header
  on_header_value [] p = p
  on_header_value (b ∷ bs) p =
      store_header
        (record p { header_value = b ∷ bs; header_state = bit_or p.header_state has_value })

  -- `ParseUrlAndParam`.
  pub parse_url_and_param : ℕ → HttpParser P → Option (HttpParser P)
  parse_url_and_param fuel p =
      let text = url_decode p.url_and_params in
      let path = get_string_before b'?' text 0 in
      elim (params_loop fuel text (length path + 1) p.parameters) [
        | none ↦ none
        | some m ↦ some (record p { url_and_params = text; url = path; parameters = m })
      ]

  -- `OnComplete`, with the fuel that the decoded text needs.
  pub on_complete : Bytes → ℕ → HttpParser P → Option (HttpParser P)
  on_complete method status p =
      let q = record p { method = method; status = status } in
      elim (parse_url_and_param (suc (length p.url_and_params)) q) [
        | none ↦ none
        | some r ↦ some (record r { complete = true })
      ]

  -- The callbacks.
  pub on_event : Event → HttpParser P → Option (HttpParser P)
  unfolding on_header_name on_header_value
  on_event (url text) p = some (record p { url_and_params = p.url_and_params ++ text })
  on_event (header_name text) p = some (on_header_name text p)
  on_event (header_value text) p = some (on_header_value text p)
  on_event (body text) p = some (record p { body = p.body ++ text })
  on_event (message_complete method status) p = on_complete method status p

  pub on_events : List Event → HttpParser P → Option (HttpParser P)
  unfolding on_event
  on_events [] p = some p
  on_events (e ∷ es) p = elim (on_event e p) [ none ↦ none | some q ↦ on_events es q ]

  -- `Parse`: `execute` is `http_parser_execute`.
  pub parse :
      (P → Bytes → List Event × P × Bool) → HttpParser P → Bytes → Option (Bool × HttpParser P)
  parse execute p input =
      let (events, tokenizer, fine) = execute p.http_parser input in
      elim (on_events events p) [
        | none ↦ none
        | some q ↦ some (fine, record q { http_parser = tokenizer })
      ]
