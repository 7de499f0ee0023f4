-- ===== src/Http/Dispatch/Refused.antt =====
-- What a connection does after an upgrade that was refused.
use co_socket.WebSocket.Decoder as Messages
