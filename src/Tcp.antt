-- ===== src/Tcp.antt =====
-- CoSocket/net/TcpClient.cpp and TcpConnector.cpp: a descriptor with the calls of `CoSocket` on it. A
-- descriptor of -1, which a closed one has, is `none`; the system calls refuse it with `EBADF`.
pub mod Client
pub mod Connector
use co_socket.Prelude.{
  ℕ, Bool, true, false, not, ◌||◌, ◌==◌, if◌then◌else◌, Option, none, some, Bytes, [], ◌∷◌,
}
use co_socket.Prelude.Int.{ℤ, pos}
use co_socket.Timestamp.{Timestamp}
use co_socket.Epoller.{EpollKernel}
use co_socket.CoSocket.State.{CoSocket}
use co_socket.CoSocket.Blocking.{Answer, negative, Outcome, returned}
use co_socket.CoSocket.Blocking as Calls

-- What a call of `Read` brings: an error, or the bytes read, none of them at the end of the input.
pub data Received : Type 0 where
  failed : ℕ → Received
  received : Bytes → Received

-- Some bytes were read.
abbrev pub IsSome : Received → Type 0
IsSome (failed e) = ⊥
IsSome (received []) = ⊥
IsSome (received (b ∷ bs)) = Unit

-- `EBADF`.
abbrev pub ebadf : ℕ
ebadf = 9

-- `::close(m_fd)` where there is a descriptor: what is closed, and the descriptor after it.
pub close_fd : Option ℕ → Option ℕ × Option ℕ
close_fd fd = (fd, none)

module _ {K : Type 0} (kernel : EpollKernel K) where
  -- `CoSocket::Read` on the descriptor.
  pub read_fd : Option ℕ → ℤ → Timestamp → Answer → Answer → CoSocket K → Outcome K
  read_fd none timeout now first second s = returned (negative ebadf) s
  read_fd (some fd) timeout now first second s = Calls.read kernel fd timeout now first second s

  -- `CoSocket::Write` on the descriptor: nothing to write is answered before the system call.
  pub write_fd : Option ℕ → ℕ → Bool → ℤ → Timestamp → Answer → Answer → CoSocket K → Outcome K
  write_fd none size has_buffer timeout now first second s =
      if size == 0 || not has_buffer then returned (pos 0) s else returned (negative ebadf) s
  write_fd (some fd) size has_buffer timeout now first second s =
      Calls.write kernel fd size has_buffer timeout now first second s

  -- `CoSocket::Connect` on the descriptor.
  pub connect_fd : Option ℕ → ℤ → Timestamp → Answer → Answer → CoSocket K → Outcome K
  connect_fd none timeout now first second s = returned (negative ebadf) s
  connect_fd (some fd) timeout now first second s =
      Calls.connect kernel fd timeout now first second s
