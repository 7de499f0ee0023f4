-- ===== src/Tcp/Client.antt =====
-- CoSocket/net/TcpClient.cpp.
use co_socket.Prelude.{ℕ, ◌≡◌, refl, Bool, Option, none, some, Bytes}
use co_socket.Prelude.Int.{ℤ}
use co_socket.Prelude.Words.{be16}
use co_socket.Timestamp.{Timestamp}
use co_socket.Epoller.{EpollKernel}
use co_socket.CoSocket.State.{CoSocket}
use co_socket.CoSocket.Blocking.{Answer, Outcome}
use co_socket.CoSocket.Transfer as Transfer
use co_socket.Tcp.{close_fd, read_fd, write_fd, connect_fd}

pub record TcpClient : Type 0 where
  pub fd : Option ℕ

-- The constructor, with the socket that it made; `none` is its exit.
pub new_client : Option ℕ → Option TcpClient
new_client none = none
new_client (some fd) = some (record { fd = some fd })

-- The address that `Connect` builds: `s_addr` is what `inet_addr` makes of the text.
pub record SockAddr : Type 0 where
  pub sin_family : ℕ
  pub sin_port : Bytes
  pub s_addr : ℕ

-- 2 is `AF_INET`.
pub sock_addr : (Bytes → ℕ) → Bytes → ℕ → SockAddr
sock_addr inet_addr ip port = record { sin_family = 2; sin_port = be16 port; s_addr = inet_addr ip }

-- `Close`, also in the destructor: the descriptor that is closed, if any, and the client after it.
pub close : TcpClient → Option ℕ × TcpClient
unfolding close_fd
close c = let (closed, fd) = close_fd c.fd in (closed, record c { fd = fd })

module _ {K : Type 0} (kernel : EpollKernel K) where
  -- `first` is what the system call answers for an address.
  pub connect :
      (Bytes → ℕ)
      → Bytes
      → ℕ
      → ℤ
      → Timestamp
      → (SockAddr → Answer)
      → Answer
      → TcpClient
      → CoSocket K
      → Outcome K
  unfolding sock_addr
  connect inet_addr ip port timeout now first second c s =
      connect_fd kernel c.fd timeout now (first (sock_addr inet_addr ip port)) second s

  pub read : ℤ → Timestamp → Answer → Answer → TcpClient → CoSocket K → Outcome K
  read timeout now first second c s = read_fd kernel c.fd timeout now first second s

  pub write : ℕ → Bool → ℤ → Timestamp → Answer → Answer → TcpClient → CoSocket K → Outcome K
  write size has_buffer timeout now first second c s =
      write_fd kernel c.fd size has_buffer timeout now first second s

-- The answers of `CoSocket::Read` and `CoSocket::Write` are a function of the descriptor, the round
-- and the bytes asked for.
pub read_full : ℕ → ℕ → (Option ℕ → ℕ → ℕ → ℤ) → TcpClient → Option ℤ
read_full fuel size answers c = Transfer.read_full fuel 0 size 0 (answers c.fd)

pub write_all : ℕ → ℕ → (Option ℕ → ℕ → ℕ → ℤ) → TcpClient → Option ℤ
write_all fuel size answers c = Transfer.write_all fuel 0 size 0 (answers c.fd)

-- A client that was closed closes nothing again, whether by `Close` or by its destructor.
close_twice : (c : TcpClient) → close (close c).1 ≡ (none, (close c).1)
unfolding close
close_twice c = refl
