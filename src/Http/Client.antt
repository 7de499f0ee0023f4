-- ===== src/Http/Client.antt =====
-- CoSocket/net/http/HttpClient.h. The answers of `WriteAll` and of the rounds of `Read` of the
-- `TcpClient`, with the bytes read, are arguments. The loop runs on fuel: `none` means that it ran
-- out.
pub mod Reply
use co_socket.Prelude.{
  ℕ, zero, suc, ◌+◌, Bool, true, false, Option, none, some, List, [], ◌∷◌, Bytes,
}
use co_socket.Prelude.Int.{ℤ, pos, negsuc, sub_ℕ}
use co_socket.Tcp.{Received, failed, received}
use co_socket.Http.Table.{Table}
use co_socket.Http.Parser.{Event}
use co_socket.Http.Decoder.{HttpDecoder, new_decoder}
use co_socket.Http.Decoder as Decoder
use co_socket.Http.Encoder.{HttpEncoder, new_encoder, get_request_string}
use co_socket.Http.Encoder as Encoder

-- `-EPIPE` and `-EINVAL`.
abbrev pub no_more_input : ℤ
no_more_input = sub_ℕ 0 32

abbrev pub bad_input : ℤ
bad_input = sub_ℕ 0 22

pub record HttpClient (P : Type 0) : Type 0 where
  pub http_decoder : HttpDecoder P
  pub http_encoder : HttpEncoder

module _ {P : Type 0} (execute : P → Bytes → List Event × P × Bool) where
  -- The loop of `Request`, with the index of the round.
  pub receive_loop : ℕ → ℕ → (ℕ → Received) → HttpDecoder P → Option (ℤ × HttpDecoder P)
  receive_loop zero round read d = none
  receive_loop (suc fuel) round read d = elim (read round) [
    | failed e ↦ some (negsuc e, d)
    | received [] ↦ some (no_more_input, d)
    | received (b ∷ bs) ↦ elim (Decoder.parse execute d (b ∷ bs)) [
      | none ↦ none
      | some (false, q) ↦ some (bad_input, q)
      | some (true, q) ↦ elim (Decoder.is_complete q) [
        | true ↦ some (pos 0, q)
        | false ↦ receive_loop fuel (round + 1) read q
      ]
    ]
  ]

  -- The request with the decoder that the loop ends with.
  abbrev pub with_decoder : HttpClient P → Option (ℤ × HttpDecoder P) → Option (ℤ × HttpClient P)
  with_decoder c none = none
  with_decoder c (some (ret, d)) = some (ret, record c { http_decoder = d })

  pub request : (Bytes → ℤ) → P → ℕ → (ℕ → Received) → HttpClient P → Option (ℤ × HttpClient P)
  unfolding receive_loop
  request write tokenizer fuel read c = elim (write (get_request_string c.http_encoder)) [
    | negsuc n ↦ some (negsuc n, c)
    | pos n ↦ with_decoder c (receive_loop fuel 0 read (Decoder.reset tokenizer c.http_decoder))
  ]

module _ {P : Type 0} where
  -- The constructor, with a new tokenizer; it leaves the status and the port unset.
  abbrev pub new_client : P → ℕ → ℕ → HttpClient P
  new_client tokenizer status port = record {
    http_decoder = new_decoder tokenizer status port;
    http_encoder = new_encoder false;
  }

  pub get_status : HttpClient P → ℕ
  get_status c = Decoder.get_status c.http_decoder

  pub get_body : HttpClient P → Bytes
  get_body c = Decoder.get_body c.http_decoder

  pub get_headers : HttpClient P → Table
  get_headers c = Decoder.get_headers c.http_decoder

  pub get_header : HttpClient P → Bytes → Bytes
  get_header c name = Decoder.get_header c.http_decoder name

  pub add_header : Bytes → Bytes → HttpClient P → HttpClient P
  add_header key value c = record c { http_encoder = Encoder.add_header key value c.http_encoder }

  pub set_body : Bytes → HttpClient P → HttpClient P
  set_body body c = record c { http_encoder = Encoder.set_body body c.http_encoder }

  pub set_method : Bytes → HttpClient P → HttpClient P
  set_method name c = record c { http_encoder = Encoder.set_method name c.http_encoder }

  unfoldable pub set_url : Bytes → HttpClient P → HttpClient P
  set_url url c = record c { http_encoder = Encoder.set_url url c.http_encoder }

  unfoldable pub add_parameter : Bytes → Bytes → HttpClient P → HttpClient P
  add_parameter key value c = record c {
    http_encoder = Encoder.add_parameter key value c.http_encoder;
  }
