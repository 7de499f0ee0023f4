-- ===== src/Examples/Clients.antt =====
-- CoSocket/example: throughput/ThroughputClient.cpp, echo/EchoClient.cpp, http_server/HttpClient.cpp
-- and sigpipe_test/SigPipeTest.cpp. The answers of the calls are arguments; of the loops that do not
-- end one round is modelled.
use co_socket.Prelude.{
  ℕ, zero, suc, ◌+◌, ◌-◌, Bool, true, false, not, Option, none, some, ◌++◌, ◌==◌, ltb, Bytes, set,
  List, [], ◌∷◌, replicate, if◌then◌else◌,
}
use co_socket.Prelude.Int.{ℤ, pos, negsuc, pos_part}
use co_socket.Prelude.Text.{ascii, decimal}
use co_socket.Prelude.Words.{read_be32}
use co_socket.Http.Client.{HttpClient, add_header, add_parameter, set_method, set_url, set_body}

-- `ret != expected`, for a size.
abbrev pub is_size : ℤ → ℕ → Bool
is_size (pos n) size = n == size
is_size (negsuc n) size = false

-- The loop of `SendFunc`: write `i` and read `i` answer a result, and the read what it left in the
-- buffer. The result is what the loop added to `g_numSendAndAckPer1Sec`; `none` means that the fuel
-- ran out.
pub send_loop : ℕ → ℕ → ℕ → (ℕ → ℤ) → (ℕ → ℤ × Bytes) → ℕ → Option ℕ
send_loop zero i size write read counted = none
send_loop (suc fuel) i size write read counted = elim (is_size (write i) size) [
  | false ↦ some counted
  | true ↦ elim (is_size (read i).0 size) [
    | false ↦ some counted
    | true ↦
        send_loop fuel (i + 1) size write read
          (if read_be32 (read i).1 0 == size - 4 then counted + size else counted)
  ]
]

-- `SendFunc`, for a buffer of `size` bytes; 4 is `sizeof(int)`.
pub send_func : ℕ → ℕ → ℤ → (ℕ → ℤ) → (ℕ → ℤ × Bytes) → Option ℕ
unfolding send_loop
send_func fuel size connected write read =
    if ltb size 4
    then some 0
    else if not (is_size connected 0)
    then some 0
    else send_loop fuel 0 size write read 0

-- A round of the loop of EchoClient.cpp: the text that it sends, and what it makes of the buffer by
-- the answer of `Read`. `none` is the write of the closing zero in front of the buffer.
pub echo_text : ℕ → Bytes
echo_text i = ascii "echo test: " ++ decimal i

pub close_text : ℤ → Bytes → Option Bytes
close_text (pos n) buffer = some (set buffer n 0)
close_text (negsuc n) buffer = none

-- The request of a round of HttpClient.cpp.
pub example_request : {P : Type 0} → HttpClient P → HttpClient P
example_request c = set_body (ascii "test body") (
    set_url (ascii "/") (
      set_method (ascii "POST") (
        add_parameter (ascii "p2") (ascii "v2") (
          add_parameter (ascii "p1") (ascii "v1")
            (add_header (ascii "h2") (ascii "v2") (add_header (ascii "h1") (ascii "v1") c))))))

-- `if (ssize_t ret = … != 0)`: the number that is logged as the error, if any.
pub logged_error : ℤ → Option ℕ
logged_error ret = if is_size ret 0 then none else some 1

-- A round of `TimerFunc`: what it logs of `g_numSendAndAckPer1Sec`, and what it leaves there.
pub timer_round : ℕ → ℕ × ℕ
timer_round counted = (counted, 0)

-- The coroutines that `main` of ThroughputClient.cpp starts, by the number of its arguments and the
-- number that `atoi` makes of the last.
pub data Started : Type 0 where
  sends times : Started

pub client_main : ℕ → ℤ → Option (List Started)
client_main argc co_num =
    if argc == 3 then some (replicate (pos_part co_num) sends ++ times ∷ []) else none

-- What SigPipeTest.cpp logs: the answer of `Connect`, and that of `Write` in each round, if it is an
-- error. It goes on after either.
pub log_connect : ℤ → Option ℤ
log_connect ret = if is_size ret 0 then none else some ret

pub log_write : ℤ → Option ℤ
log_write (pos n) = none
log_write (negsuc n) = some (negsuc n)
