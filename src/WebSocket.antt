-- ===== src/WebSocket.antt =====
-- CoSocket/net/http/WebSocketParser.h, WebSocketDecoder.h and WebSocketEncoder.h: the frames of
-- RFC 6455.
pub mod Parser
pub mod Decoder
pub mod Encoder
