-- ===== src/Http/Encoder.antt =====
-- CoSocket/net/http/HttpEncoder.h: the text of requests and responses.
pub mod Reader
pub mod Framed
pub mod Messages
use co_socket.Prelude.{ℕ, Bool, true, false, [], ◌∷◌, ◌++◌, if◌then◌else◌, Bytes, length}
use co_socket.Prelude.Text.{ascii, decimal}
use co_socket.Http.Table.{Table, assign}

pub record HttpEncoder : Type 0 where
  pub headers : Table
  pub status_code : ℕ
  pub status_message : Bytes
  pub close_connection : Bool
  pub body : Bytes
  pub method : Bytes
  pub url : Bytes
  pub parameters : Table

-- The constructor; the first of the `StatusCode`s, `StatusCode_Unknown`, is 0.
abbrev pub new_encoder : Bool → HttpEncoder
new_encoder close = record {
  headers = [];
  status_code = 0;
  status_message = [];
  close_connection = close;
  body = [];
  method = [];
  url = [];
  parameters = [];
}

unfoldable pub set_status_code : ℕ → HttpEncoder → HttpEncoder
set_status_code code e = record e { status_code = code }

pub set_status_message : Bytes → HttpEncoder → HttpEncoder
set_status_message message e = record e { status_message = message }

unfoldable pub set_close_connection : Bool → HttpEncoder → HttpEncoder
set_close_connection on e = record e { close_connection = on }

-- `CloseConnection`.
pub closes_connection : HttpEncoder → Bool
closes_connection e = e.close_connection

unfoldable pub set_body : Bytes → HttpEncoder → HttpEncoder
set_body bytes e = record e { body = bytes }

unfoldable pub set_method : Bytes → HttpEncoder → HttpEncoder
set_method name e = record e { method = name }

unfoldable pub set_url : Bytes → HttpEncoder → HttpEncoder
set_url text e = record e { url = text }

unfoldable pub add_header : Bytes → Bytes → HttpEncoder → HttpEncoder
add_header key value e = record e { headers = assign key value e.headers }

pub set_content_type : Bytes → HttpEncoder → HttpEncoder
unfolding add_header
set_content_type value e = add_header (ascii "Content-Type") value e

unfoldable pub add_parameter : Bytes → Bytes → HttpEncoder → HttpEncoder
add_parameter key value e = record e { parameters = assign key value e.parameters }

abbrev pub crlf : Bytes
crlf = ascii "\r\n"

-- The loop over the headers in `AppendToStream`.
pub header_lines : Table → Bytes
header_lines [] = []
header_lines ((k, v) ∷ rest) = k ++ ascii ": " ++ v ++ crlf ++ header_lines rest

-- `AppendToStream`.
pub append_to_stream : HttpEncoder → Bytes
unfolding header_lines
append_to_stream e =
    ascii "Content-Length: "
    ++ decimal (length e.body)
    ++ crlf
    ++ (if e.close_connection
        then ascii "Connection: close\r\n"
        else ascii "Connection: Keep-Alive\r\n")
    ++ header_lines e.headers
    ++ crlf
    ++ e.body

pub get_reponse_string : HttpEncoder → Bytes
unfolding append_to_stream
get_reponse_string e =
    ascii "HTTP/1.1 "
    ++ decimal e.status_code
    ++ ascii " "
    ++ e.status_message
    ++ crlf
    ++ append_to_stream e

-- The loop over the parameters in `GetRequestString`; the flag is `it == m_parameters.begin()`.
unfoldable pub query : Bool → Table → Bytes
query first [] = []
query first ((k, v) ∷ rest) =
    (if first then b'?' else b'&') ∷ (k ++ (b'=' ∷ (v ++ query false rest)))

-- What `GetRequestString` writes between the method and the version.
unfoldable pub request_target : HttpEncoder → Bytes
request_target e = e.url ++ query true e.parameters

pub get_request_string : HttpEncoder → Bytes
unfolding append_to_stream
get_request_string e =
    e.method ++ ascii " " ++ request_target e ++ ascii " HTTP/1.1\r\n" ++ append_to_stream e
