-- ===== src/Examples/Throughput.antt =====
-- CoSocket/example/throughput/ThroughputServer.cpp: a connection whose reader and writer are two
-- coroutines with a `BufferQueue` between them. Each round of a coroutine is a step of the two; the
-- answers of `Read` and `WriteAll` are arguments.
pub mod Queued
pub mod Relayed
use co_socket.Prelude.{
  ℕ, Bool, true, false, Option, none, some, List, [], ◌∷◌, ◌++◌, ◌==◌, ◌≡◌, Bytes, length, take,
  drop, if◌then◌else◌,
}
use co_socket.Prelude.Int.{ℤ}
use co_socket.Tcp.{Received, failed, received}
use co_socket.CoSocket.State.{CoSocket}
use co_socket.CoSocket.Conditions.{CoQueue, new_queue, enque, deque}
use co_socket.CoSocket.Buffer.{Buffer, new_buffer, stop, is_stop, set_size}
use co_socket.Examples.Forward.{wrote_all}

-- Where the writer is: in its loop, after the stop buffer, or after a write that was cut short.
pub data Writing : Type 0 where
  writes stopped gave_up : Writing

-- `read` and `written` are the bytes that were read, and those of the writes that were completed.
pub record Relay (K : Type 0) : Type 0 where
  pub queue : CoQueue Buffer
  pub reads_on : Bool
  pub writing : Writing
  pub read : Bytes
  pub written : Bytes
  pub scheduler : CoSocket K

module _ {K : Type 0} where
  abbrev pub put : Buffer → Relay K → Relay K
  put b r = let (q, s) = enque b r.queue r.scheduler in record r { queue = q; scheduler = s }

  -- The last lines of `RequestHandle`; `unset` is what the new buffer holds.
  abbrev pub stop_writer : Bytes → Relay K → Relay K
  stop_writer unset r = put (stop (new_buffer 4 unset)) (record r { reads_on = false })

  -- One round of the loop of `RequestHandle`. `Read` writes at the start of the new buffer.
  pub read_round : ℕ → Bytes → Received → Relay K → Relay K
  read_round buffer_size unset (failed e) r = stop_writer unset r
  read_round buffer_size unset (received []) r = stop_writer unset r
  read_round buffer_size unset (received (b ∷ bs)) r =
      let content = (b ∷ bs) ++ drop (length (b ∷ bs)) unset in
      put (set_size (length (b ∷ bs)) (new_buffer buffer_size content))
        (record r { read = r.read ++ b ∷ bs })

  -- What the writer does with a buffer.
  pub write_buffer : (Bytes → ℤ) → Buffer → Relay K → Relay K
  write_buffer write b r =
      let bytes = take b.size b.content in
      if is_stop b
      then record r { writing = stopped }
      else if wrote_all (write bytes) b.size
      then record r { written = r.written ++ bytes }
      else record r { writing = gave_up }

  after_deque : (Bytes → ℤ) → Option Buffer → Relay K → Relay K
  unfolding write_buffer
  after_deque write none r = r
  after_deque write (some b) r = write_buffer write b r

  -- One round of `WriteCoroutine`; it waits where the queue is empty.
  pub write_round : (Bytes → ℤ) → Relay K → Relay K
  unfolding after_deque
  write_round write r =
      let (taken, q, s) = deque r.queue r.scheduler in
      after_deque write taken (record r { queue = q; scheduler = s })

  -- A connection at its start, with its queue.
  abbrev pub start_relay : CoQueue Buffer → CoSocket K → Relay K
  start_relay q s = record {
    queue = q;
    reads_on = true;
    writing = writes;
    read = [];
    written = [];
    scheduler = s;
  }

  infix 4 ◌⟶◌
  -- The steps of the two coroutines, in any order.
  pub data ◌⟶◌ : Relay K → Relay K → Type 0 where
    reads :
        {r : Relay K} (buffer_size : ℕ) (unset : Bytes) (answer : Received)
        → r.reads_on ≡ true
        → r ⟶ read_round buffer_size unset answer r
    writes_one : {r : Relay K} (write : Bytes → ℤ) → r.writing ≡ writes → r ⟶ write_round write r
    elsewhere : {r : Relay K} (s : CoSocket K) → r ⟶ record r { scheduler = s }

  -- What a connection can become.
  pub data Reach : Relay K → Type 0 where
    begun :
        (s : CoSocket K) {q : CoQueue Buffer} {s' : CoSocket K}
        → new_queue s ≡ some (q, s')
        → Reach (start_relay q s')
    next : {r t : Relay K} → Reach r → r ⟶ t → Reach t
