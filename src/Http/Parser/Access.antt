-- ===== src/Http/Parser/Access.antt =====
-- CoSocket/net/http/HttpParser.cpp: what the parser shows of a message, and `ToString`.
use co_socket.Prelude.{ℕ, Bool, [], ◌∷◌, ◌++◌, ◌==◌, Bytes}
use co_socket.Prelude.Text.{ascii}
use co_socket.Http.Table.{Table}
use co_socket.Http.Parser.{HttpParser, has_all}

abbrev pub newline : Bytes
newline = ascii "\n"

-- The loop over the parameters, and the one over the headers.
unfoldable pub entry_lines : Table → Bytes
entry_lines [] = []
entry_lines ((k, v) ∷ rest) = k ++ ascii ", " ++ v ++ newline ++ entry_lines rest

module _ {P : Type 0} where
  unfoldable pub is_complete : HttpParser P → Bool
  is_complete p = p.complete

  unfoldable pub get_url : HttpParser P → Bytes
  get_url p = p.url

  pub get_status : HttpParser P → ℕ
  get_status p = p.status

  pub get_method : HttpParser P → Bytes
  get_method p = p.method

  unfoldable pub get_body : HttpParser P → Bytes
  get_body p = p.body

  pub get_headers : HttpParser P → Table
  get_headers p = p.headers

  pub get_parameters : HttpParser P → Table
  get_parameters p = p.parameters

  pub header_ready : HttpParser P → Bool
  header_ready p = p.header_state == has_all

  pub to_string : HttpParser P → Bytes
  unfolding entry_lines
  to_string p =
      ascii "\nmethod: "
      ++ p.method
      ++ ascii " url: "
      ++ p.url
      ++ ascii "\nParameters:\n"
      ++ entry_lines p.parameters
      ++ ascii "\nHeaders:\n"
      ++ entry_lines p.headers
      ++ ascii "\nbody:\n"
      ++ p.body
      ++ newline
