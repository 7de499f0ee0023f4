-- ===== src/WebSocket/Encoder/Progress.antt =====
-- What `GetFrame` leaves to be sent.
use co_socket.Prelude.{◌-◌, ◌^◌, ◌≤◌, ◌<◌, ◌≡◌, false, Bytes, arith}
use co_socket.WebSocket.Encoder.{WebSocketEncoder, is_complete, left_over, encode, get_frame}

-- What an encoder holds whose frames come to an end.
pub record IsFinite (e : WebSocketEncoder) : Type 0 where
  pub framed : 0 < e.frame_size
  pub within : e.offset ≤ e.len
  pub small : e.len < 2 ^ 64

-- A frame leaves less to be sent.
pub get_frame-IsFinite :
    (mask : Bytes) (e : WebSocketEncoder)
    → IsFinite e
    → is_complete e ≡ false
    → IsFinite (get_frame mask e).1
      × ((get_frame mask e).1.len - (get_frame mask e).1.offset < e.len - e.offset)
unfolding get_frame encode is_complete left_over
get_frame-IsFinite mask e h more = (
  record { framed = h.framed; within = ground (arith, h.within, h.small); small = h.small },
  ground (arith, h.within, h.small, h.framed),
)
