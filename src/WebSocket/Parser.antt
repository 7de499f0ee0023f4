-- ===== src/WebSocket/Parser.antt =====
-- CoSocket/net/http/WebSocketParser.h: an incremental parser of client frames. The `int`, `bool` and
-- `uint64_t` members are numbers and Booleans, the strings lists of bytes; `*GetDataPtr()` at the
-- end of the cache reads the string's closing zero. The host is little-endian.
pub mod Masking
pub mod Header
pub mod Decode
pub mod Pieces
pub mod Bounds
pub mod Faults
pub mod Prefix
pub mod Stages
pub mod Retries
pub mod Chunks
use Prim.Native.Nat.{bit_and, bit_xor}
use co_socket.Prelude.{
  ℕ, zero, suc, ◌+◌, ◌*◌, ◌%◌, ◌^◌, Bool, true, false, not, ◌&&◌, ◌||◌, [], ◌∷◌, ◌++◌, ltb, leb,
  ◌==◌, if◌then◌else◌, Bytes, length, get_or, take, drop,
}
use co_socket.Prelude.Words.{add64, sub64, read_be16, read_be32}

pub record WebSocketParser : Type 0 where
  pub complete : Bool
  pub header_complete : Bool
  pub fin : Bool
  pub op_code : ℕ
  pub payload_len : ℕ
  pub offset : ℕ
  pub mask_key : Bytes
  pub input_cache : Bytes
  pub payload : Bytes

-- The constructor.
abbrev pub fresh : WebSocketParser
fresh = record {
  complete = false;
  header_complete = false;
  fin = false;
  op_code = 0;
  payload_len = 0;
  offset = 0;
  mask_key = [];
  input_cache = [];
  payload = [];
}

-- `kMaxLength`.
abbrev pub max_length : ℕ
max_length = 10 * 1024 * 1024

pub reset_current_frame : WebSocketParser → WebSocketParser
reset_current_frame p = record p {
  header_complete = false;
  fin = false;
  payload_len = 0;
  offset = 0;
  input_cache = [];
}

pub reset : WebSocketParser → WebSocketParser
unfolding reset_current_frame
reset p = record (reset_current_frame p) { complete = false; payload = [] }

-- `*GetDataPtr()`.
unfoldable pub current_byte : WebSocketParser → ℕ
current_byte p = get_or p.input_cache p.offset 0

unfoldable pub have_bytes : WebSocketParser → ℕ → Bool
have_bytes p n = leb n (sub64 (length p.input_cache) p.offset)

-- `ParseHeader` from `m_maskKey.clear()` on.
pub header_mask : Bool → WebSocketParser → Bool × WebSocketParser
unfolding have_bytes
header_mask mask p =
    let q = record p { mask_key = [] } in
    if mask
    then if have_bytes q 4
      then (
        true,
        record q { mask_key = take 4 (drop q.offset q.input_cache); offset = q.offset + 4 },
      )
      else (false, q)
    else (true, q)

-- `ParseHeader` from the test for an extended length on.
pub header_length : Bool → WebSocketParser → Bool × WebSocketParser
unfolding have_bytes header_mask
header_length mask p =
    if p.payload_len == 126
    then if have_bytes p 2
      then header_mask mask
          (record p { payload_len = read_be16 p.input_cache p.offset; offset = p.offset + 2 })
      else (false, p)
    else if p.payload_len == 127
    then if have_bytes p 8
      then header_mask mask (record p {
        payload_len =
            read_be32 p.input_cache p.offset * 2 ^ 32 + read_be32 p.input_cache (p.offset + 4);
        offset = p.offset + 8;
      })
      else (false, p)
    else header_mask mask p

-- `ParseHeader` from the second byte on.
unfoldable pub header_second : WebSocketParser → Bool × WebSocketParser
unfolding have_bytes header_length current_byte
header_second p =
    if have_bytes p 1
    then header_length (not (bit_and 0x80 (current_byte p) == 0))
        (record p { payload_len = bit_and 0x7f (current_byte p); offset = p.offset + 1 })
    else (false, p)

-- The result says whether the whole header was there; the fields read so far are kept either way.
unfoldable pub parse_header : WebSocketParser → Bool × WebSocketParser
unfolding have_bytes header_second current_byte
parse_header p =
    let q = record p { offset = 0 } in
    if have_bytes q 1
    then header_second (record q {
      op_code = bit_and 0x0f (current_byte q);
      fin = not (bit_and 0x80 (current_byte q) == 0);
      offset = q.offset + 1;
    })
    else (false, q)

abbrev is_empty : Bytes → Bool
is_empty [] = true
is_empty (b ∷ bs) = false

pub check_op_code : WebSocketParser → Bool
check_op_code p =
    if p.op_code == 0
    then not (is_empty p.payload)
    else p.op_code == 1 || p.op_code == 2 || p.op_code == 8 || p.op_code == 9 || p.op_code == 10

-- The sum of the two lengths is taken in 64 bits.
pub is_valid_frame : WebSocketParser → Bool
unfolding check_op_code
is_valid_frame p =
    not (is_empty p.mask_key)
    && check_op_code p
    && leb (add64 (length p.payload) p.payload_len) max_length

-- The loop of `ProcessPayload`, with the rounds left and the index of the round.
pub unmask_loop : ℕ → ℕ → WebSocketParser → WebSocketParser
unfolding current_byte
unmask_loop zero i p = p
unmask_loop (suc n) i p = unmask_loop n (i + 1) (record p {
  payload =
      p.payload ++ bit_xor (current_byte p) (get_or p.mask_key (i % length p.mask_key) 0) ∷ [];
  offset = p.offset + 1;
})

pub process_payload : WebSocketParser → WebSocketParser
unfolding have_bytes unmask_loop reset_current_frame
process_payload p =
    if have_bytes p p.payload_len
    then (let q = unmask_loop p.payload_len 0 p in
        reset_current_frame (record q { complete = q.fin }))
    else p

-- `Parse` from the test of the header on.
unfoldable pub parse_cached : WebSocketParser → Bool × WebSocketParser
unfolding is_valid_frame process_payload
parse_cached p =
    if not p.header_complete
    then (true, p)
    else if not (is_valid_frame p)
    then (false, p)
    else (true, process_payload p)

-- `if (!m_headerComplete) m_headerComplete = ParseHeader();`
unfoldable pub refresh_header : WebSocketParser → WebSocketParser
refresh_header p =
    if p.header_complete
    then p
    else let (whole, q) = parse_header p in record q { header_complete = whole }

-- `Parse`: false refuses the frame. The caller passes the bytes that it has read.
unfoldable pub parse : WebSocketParser → Bytes → Bool × WebSocketParser
parse p [] = (true, p)
parse p (b ∷ bs) =
    parse_cached (refresh_header (record p { input_cache = p.input_cache ++ b ∷ bs }))
