-- ===== src/Http/Decoder.antt =====
-- CoSocket/net/http/HttpDecoder.h: a parser with the address of the peer.
use co_socket.Prelude.{ℕ, ◌≡◌, Bool, Option, none, some, List, [], Bytes}
use co_socket.Http.Table.{Table}
use co_socket.Http.Parser.{HttpParser, Event, new_parser}
use co_socket.Http.Parser as Inner
use co_socket.Http.Parser.Access as Access
use co_socket.Http.Parser.Total.{parse_total}
use co_socket.Http.Parser.Whole.{ends, Ran, parse-Ran}

pub record HttpDecoder (P : Type 0) : Type 0 where
  pub http_parser : HttpParser P
  pub peer_ip : Bytes
  pub peer_port : ℕ

module _ {P : Type 0} where
  -- The constructor, with a new tokenizer; it sets neither the status nor the port.
  abbrev pub new_decoder : P → ℕ → ℕ → HttpDecoder P
  new_decoder tokenizer status port = record {
    http_parser = new_parser tokenizer status;
    peer_ip = [];
    peer_port = port;
  }

  pub parse :
      (P → Bytes → List Event × P × Bool) → HttpDecoder P → Bytes → Option (Bool × HttpDecoder P)
  parse execute d input = elim (Inner.parse execute d.http_parser input) [
    | none ↦ none
    | some (fine, p) ↦ some (fine, record d { http_parser = p })
  ]

  unfoldable pub is_complete : HttpDecoder P → Bool
  is_complete d = Access.is_complete d.http_parser

  unfoldable pub reset : P → HttpDecoder P → HttpDecoder P
  reset tokenizer d = record d { http_parser = Inner.reset tokenizer d.http_parser }

  unfoldable pub get_url : HttpDecoder P → Bytes
  unfolding Access.get_url
  get_url d = Access.get_url d.http_parser

  pub get_status : HttpDecoder P → ℕ
  get_status d = Access.get_status d.http_parser

  pub get_method : HttpDecoder P → Bytes
  get_method d = Access.get_method d.http_parser

  unfoldable pub get_body : HttpDecoder P → Bytes
  get_body d = Access.get_body d.http_parser

  pub get_headers : HttpDecoder P → Table
  get_headers d = Access.get_headers d.http_parser

  unfoldable pub get_header : HttpDecoder P → Bytes → Bytes
  get_header d name = Inner.get_header d.http_parser name

  pub set_peer_ip : Bytes → HttpDecoder P → HttpDecoder P
  set_peer_ip ip d = record d { peer_ip = ip }

  pub set_peer_port : ℕ → HttpDecoder P → HttpDecoder P
  set_peer_port port d = record d { peer_port = port }

  pub get_peer_ip : HttpDecoder P → Bytes
  get_peer_ip d = d.peer_ip

  pub get_peer_port : HttpDecoder P → ℕ
  get_peer_port d = d.peer_port

  pub to_string : HttpDecoder P → Bytes
  to_string d = Access.to_string d.http_parser

  -- `Parse` returns.
  pub parse_lem :
      (execute : P → Bytes → List Event × P × Bool) (d : HttpDecoder P) (input : Bytes)
      → (fine : Bool) × (q : HttpDecoder P) × (parse execute d input ≡ some (fine, q))
  unfolding parse
  parse_lem execute d input =
      let (fine, p, returns) = parse_total execute d.http_parser input in
      (fine, record d { http_parser = p }, rw (returns, parse))

  -- And it leaves what the tokenizer made of the input.
  pub parse_ran :
      (execute : P → Bytes → List Event × P × Bool) (d : HttpDecoder P) (input : Bytes)
      → (fine : Bool) × (q : HttpDecoder P) × (parse execute d input ≡ some (fine, q))
        × Ran
            (execute d.http_parser.http_parser input).1
            (execute d.http_parser.http_parser input).2
            (ends (execute d.http_parser.http_parser input).0)
            d.http_parser
            (fine, q.http_parser)
  unfolding parse
  parse_ran execute d input =
      let (fine, p, returns) = parse_total execute d.http_parser input in
      (
        fine,
        record d { http_parser = p },
        rw (returns, parse),
        parse-Ran execute d.http_parser input (fine, p) returns,
      )
