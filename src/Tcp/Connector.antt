-- ===== src/Tcp/Connector.antt =====
-- CoSocket/net/TcpConnector.cpp: an accepted connection.
use co_socket.Prelude.{ℕ, Bool, Option, some}
use co_socket.Prelude.Int.{ℤ}
use co_socket.Timestamp.{Timestamp}
use co_socket.Epoller.{EpollKernel}
use co_socket.CoSocket.State.{CoSocket}
use co_socket.CoSocket.Blocking.{Answer, Outcome}
use co_socket.CoSocket.Transfer as Transfer
use co_socket.Tcp.{close_fd, read_fd, write_fd}

pub record TcpConnector : Type 0 where
  pub fd : Option ℕ

abbrev pub new_connector : ℕ → TcpConnector
new_connector fd = record { fd = some fd }

pub close : TcpConnector → Option ℕ × TcpConnector
unfolding close_fd
close c = let (closed, fd) = close_fd c.fd in (closed, record c { fd = fd })

pub get_fd : TcpConnector → Option ℕ
get_fd c = c.fd

module _ {K : Type 0} (kernel : EpollKernel K) where
  pub read : ℤ → Timestamp → Answer → Answer → TcpConnector → CoSocket K → Outcome K
  read timeout now first second c s = read_fd kernel c.fd timeout now first second s

  pub write : ℕ → Bool → ℤ → Timestamp → Answer → Answer → TcpConnector → CoSocket K → Outcome K
  write size has_buffer timeout now first second c s =
      write_fd kernel c.fd size has_buffer timeout now first second s

pub read_full : ℕ → ℕ → (Option ℕ → ℕ → ℕ → ℤ) → TcpConnector → Option ℤ
read_full fuel size answers c = Transfer.read_full fuel 0 size 0 (answers c.fd)

pub write_all : ℕ → ℕ → (Option ℕ → ℕ → ℕ → ℤ) → TcpConnector → Option ℤ
write_all fuel size answers c = Transfer.write_all fuel 0 size 0 (answers c.fd)
