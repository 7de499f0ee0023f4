-- ===== src/Examples/Forward.antt =====
-- CoSocket/example/tcp_proxy/TcpProxy.cpp, and echo/Echo.cpp and
-- dont_use_other_routine_local_variable/Echo.cpp: the loops that write what they read. The answers of
-- `Read`, with the bytes, and of `WriteAll` are functions of the round. A loop that returns gives the
-- bytes of the writes that were completed; on fuel, `none` means that it ran out.
pub mod Order
use co_socket.Prelude.{
  ℕ, zero, suc, ◌+◌, Bool, true, false, not, Option, none, some, List, [], ◌∷◌, ◌++◌, ◌==◌, Bytes,
  length, if◌then◌else◌,
}
use co_socket.Prelude.Int.{ℤ, pos, negsuc}
use co_socket.Tcp.{Received, failed, received}

-- `writeBytes != readBytes`.
abbrev pub wrote_all : ℤ → ℕ → Bool
wrote_all (pos n) len = n == len
wrote_all (negsuc n) len = false

-- `ReadServerCoroutine`, and the same loop in `HandleRequest`.
pub forward_loop : ℕ → ℕ → (ℕ → Received) → (ℕ → Bytes → ℤ) → Bytes → Option Bytes
forward_loop zero round read write written = none
forward_loop (suc fuel) round read write written = elim (read round) [
  | failed e ↦ some written
  | received [] ↦ some written
  | received (b ∷ bs) ↦ elim (wrote_all (write round (b ∷ bs)) (length (b ∷ bs))) [
    | false ↦ some written
    | true ↦ forward_loop fuel (round + 1) read write (written ++ b ∷ bs)
  ]
]

-- What a proxy's connection did: none of it if the local server did not take the connection.
pub data Proxied : Type 0 where
  refused : Proxied
  forwarded : (to_server to_client : Bytes) → Proxied

abbrev both_ways : Option Bytes → Option Bytes → Option Proxied
both_ways (some a) (some b) = some (forwarded a b)
both_ways (some a) none = none
both_ways none r = none

-- `HandleRequest` of the proxy: `connected` is the answer of `Connect`. Each direction is a coroutine
-- of its own, with reads and writes of its own.
pub proxy_request :
    ℕ → ℤ → (ℕ → Received) → (ℕ → Bytes → ℤ) → (ℕ → Received) → (ℕ → Bytes → ℤ) → Option Proxied
unfolding forward_loop
proxy_request fuel (negsuc n) read write read_server write_client = some refused
proxy_request fuel (pos n) read write read_server write_client =
    both_ways (forward_loop fuel 0 read write []) (forward_loop fuel 0 read_server write_client [])

-- `HandleRequest` of the echo server: it looks at the sign of the answer only.
unfoldable pub echo_loop : ℕ → ℕ → (ℕ → Received) → (ℕ → Bytes → ℤ) → Bytes → Option Bytes
echo_loop zero round read write written = none
echo_loop (suc fuel) round read write written = elim (read round) [
  | failed e ↦ some written
  | received [] ↦ some written
  | received (b ∷ bs) ↦ elim (write round (b ∷ bs)) [
    | negsuc n ↦ some written
    | pos n ↦ echo_loop fuel (round + 1) read write (written ++ b ∷ bs)
  ]
]
