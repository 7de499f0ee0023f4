-- ===== src/CoSocket/Buffer.antt =====
-- CoSocket/net/CoQueue.h: `Buffer`. The bytes behind `m_data` are a list; what `new char[]` left there
-- is an argument.
use co_socket.Prelude.{ℕ, Bool, true, false, Bytes}
use co_socket.CoSocket.Conditions.{CoQueue}

pub record Buffer : Type 0 where
  pub stopped : Bool
  pub size : ℕ
  pub capacity : ℕ
  pub content : Bytes

-- The constructor.
abbrev pub new_buffer : ℕ → Bytes → Buffer
new_buffer capacity unset = record {
  stopped = false;
  size = 0;
  capacity = capacity;
  content = unset;
}

unfoldable pub stop : Buffer → Buffer
stop b = record b { stopped = true }

unfoldable pub is_stop : Buffer → Bool
is_stop b = b.stopped

unfoldable pub set_size : ℕ → Buffer → Buffer
set_size n b = record b { size = n }

abbrev pub BufferQueue : Type 0
BufferQueue = CoQueue Buffer
