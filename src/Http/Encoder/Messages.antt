-- ===== src/Http/Encoder/Messages.antt =====
-- Whole requests and responses on a stream.
use co_socket.Prelude.{◌++◌, Bytes}
use co_socket.Prelude.Text.{ascii, decimal}
use co_socket.Http.Table.{Table}
use co_socket.Http.Encoder.{HttpEncoder, request_target}
use co_socket.Http.Encoder.Reader.{Message}
use co_socket.Http.Encoder.Framed.{IsLine, written_fields}

-- The lines at the start of a response and of a request.
abbrev pub status_line : HttpEncoder → Bytes
status_line e = ascii "HTTP/1.1 " ++ decimal e.status_code ++ ascii " " ++ e.status_message

abbrev pub request_line : HttpEncoder → Bytes
request_line e = e.method ++ ascii " " ++ request_target e ++ ascii " HTTP/1.1"

-- The message with a start line, and the fields and the body of the encoder.
abbrev pub message_of : Bytes → HttpEncoder → Message
message_of start e = record { start = start; fields = written_fields e; body = e.body }

-- Names and values without a carriage return.
abbrev pub IsPlain : Bytes × Bytes → Type 0
IsPlain (key, value) = IsLine key × IsLine value
