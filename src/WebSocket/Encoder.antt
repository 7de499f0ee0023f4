-- ===== src/WebSocket/Encoder.antt =====
-- CoSocket/net/http/WebSocketEncoder.h: a message in frames of a fixed size. `m_data` is the list of
-- the bytes from that pointer on; `random()` is an argument, the four bytes of the mask. The host is
-- little-endian.
pub mod Frames
pub mod Rounds
pub mod Message
pub mod Faults
pub mod Progress
pub mod Stream
pub mod Answer
use Prim.Native.Nat.{bit_or, bit_xor}
use co_socket.Prelude.{
  ℕ, ◌+◌, ◌/◌, ◌%◌, ◌^◌, Bool, [], ◌∷◌, ◌++◌, ltb, ◌==◌, if◌then◌else◌, Bytes, get_or, take, drop,
}
use co_socket.Prelude.Words.{sub64, be16, be32}

pub record WebSocketEncoder : Type 0 where
  pub is_client : Bool
  pub op_code : ℕ
  pub frame_size : ℕ
  pub content : Bytes
  pub len : ℕ
  pub offset : ℕ
  pub output_buf : Bytes

-- The constructor; 2 is `OpCodeType_Binary`, 1446 is `kFrameSize`.
abbrev pub new_encoder : Bool → WebSocketEncoder
new_encoder is_client = record {
  is_client = is_client;
  op_code = 2;
  frame_size = 1446;
  content = [];
  len = 0;
  offset = 0;
  output_buf = [];
}

unfoldable pub set_payload : WebSocketEncoder → Bytes → ℕ → WebSocketEncoder
set_payload e bytes len = record e { content = bytes; len = len }

unfoldable pub set_op_code : WebSocketEncoder → ℕ → WebSocketEncoder
set_op_code e code = record e { op_code = code }

pub set_frame_size : WebSocketEncoder → ℕ → WebSocketEncoder
set_frame_size e size = record e { frame_size = size }

unfoldable pub is_complete : WebSocketEncoder → Bool
is_complete e = e.offset == e.len

-- `static_cast<int>(m_isClient) << 7 | code`, as a byte.
unfoldable pub length_byte : Bool → ℕ → ℕ
length_byte is_client code = bit_or (if is_client then 0x80 else 0) code % 256

-- The mask bit, the length code and the extended length. The 64-bit length is written by
-- `append(..., 4)`: the first four of its eight bytes in network order.
unfoldable pub length_field : Bool → ℕ → Bytes
unfolding length_byte
length_field is_client size =
    if ltb 0xffff size
    then length_byte is_client 127 ∷ take 4 (be32 (size / 2 ^ 32) ++ be32 size)
    else if ltb 126 size
    then length_byte is_client 126 ∷ be16 (size % 65536)
    else length_byte is_client size ∷ []

-- The loop over the payload of a client: byte `i` under byte `i % 4` of the mask.
unfoldable pub mask_loop : Bytes → ℕ → Bytes → Bytes
mask_loop mask i [] = []
mask_loop mask i (b ∷ bs) = bit_xor b (get_or mask (i % 4) 0) ∷ mask_loop mask (i + 1) bs

-- `m_len - m_offset`.
unfoldable pub left_over : WebSocketEncoder → ℕ
left_over e = sub64 e.len e.offset

-- `Encode`.
unfoldable pub encode : Bytes → WebSocketEncoder → WebSocketEncoder
encode mask e =
    let code : ℕ = if e.offset == 0 then e.op_code else 0 in
    let last = ltb (left_over e) e.frame_size in
    let size = if last then left_over e else e.frame_size in
    let fin : ℕ = if last then 0x80 else 0 in
    let body =
      if e.is_client then mask ++ mask_loop mask 0 (take size e.content) else take size e.content in
    record e {
      op_code = code;
      output_buf = (bit_or fin code % 256) ∷ (length_field e.is_client size ++ body);
      content = drop size e.content;
      offset = e.offset + size;
    }

-- `GetFrame`: the frame, and the encoder after it.
unfoldable pub get_frame : Bytes → WebSocketEncoder → Bytes × WebSocketEncoder
get_frame mask e = let e' = encode mask e in (e'.output_buf, e')
