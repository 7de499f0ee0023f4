-- ===== src/WebSocket/Decoder.antt =====
-- CoSocket/net/http/WebSocketDecoder.h, and what WebSocketParser.h shows of a message.
use co_socket.Prelude.{ℕ, Bool, Bytes, length}
use co_socket.WebSocket.Parser.{WebSocketParser, fresh}
use co_socket.WebSocket.Parser as Frames

pub record WebSocketDecoder : Type 0 where
  pub ws_parser : WebSocketParser

abbrev pub new_decoder : WebSocketDecoder
new_decoder = record { ws_parser = fresh }

unfoldable pub parse : WebSocketDecoder → Bytes → Bool × WebSocketDecoder
parse d input = let (fine, p) = Frames.parse d.ws_parser input in (fine, record d { ws_parser = p })

unfoldable pub is_complete : WebSocketDecoder → Bool
is_complete d = d.ws_parser.complete

unfoldable pub get_payload : WebSocketDecoder → Bytes
get_payload d = d.ws_parser.payload

unfoldable pub get_payload_len : WebSocketDecoder → ℕ
get_payload_len d = length d.ws_parser.payload

unfoldable pub reset : WebSocketDecoder → WebSocketDecoder
reset d = record d { ws_parser = Frames.reset d.ws_parser }
