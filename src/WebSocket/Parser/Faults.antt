-- ===== src/WebSocket/Parser/Faults.antt =====
-- Where the parser does other than what it means to.
use co_socket.Prelude.{◌+◌, ◌^◌, ◌≤◌, ◌<◌, ◌≡◌, ◌≢◌, true, [], arith, length}
use co_socket.WebSocket.Parser.{WebSocketParser, max_length, is_valid_frame}

-- The limit of 10 MB is checked on a sum of 64 bits. A continuation frame that announces nearly
-- 2 ^ 64 bytes, so many that the sum wraps to at most `kMaxLength`, passes the check.
pub is_valid_frame_wrap :
    (p : WebSocketParser)
    → p.mask_key ≢ []
    → p.op_code ≡ 0
    → length p.payload ≤ max_length
    → 2 ^ 64 ≤ length p.payload + p.payload_len
    → p.payload_len < 2 ^ 64
    → (is_valid_frame p ≡ true) × (max_length < p.payload_len)
unfolding is_valid_frame
is_valid_frame_wrap p key code short over word = ground arith
