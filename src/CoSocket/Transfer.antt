-- ===== src/CoSocket/Transfer.antt =====
-- CoSocket/net/CoSocket.cpp: `ReadFull` and `WriteAll`. The answers of the calls of `Read` and `Write`
-- are a function of the round and of the bytes asked for. The loops run on fuel: `none` means that it
-- ran out.
pub mod Total
use co_socket.Prelude.{
  ℕ, zero, suc, ◌+◌, ◌-◌, Bool, true, false, Option, none, some, ltb, ◌==◌, if◌then◌else◌,
}
use co_socket.Prelude.Int.{ℤ, pos, negsuc}

-- One round of `ReadFull` after the answer of `Read`: a result, or the bytes read so far.
pub data Progress : Type 0 where
  stop : ℤ → Progress
  go : ℕ → Progress

pub read_answer : ℕ → ℤ → Progress
read_answer read_bytes (negsuc n) = stop (negsuc n)
read_answer read_bytes (pos zero) = stop (pos read_bytes)
read_answer read_bytes (pos (suc n)) = go (read_bytes + suc n)

pub read_full : ℕ → ℕ → ℕ → ℕ → (ℕ → ℕ → ℤ) → Option ℤ
unfolding read_answer
read_full zero round size read_bytes read = none
read_full (suc fuel) round size read_bytes read = elim (ltb read_bytes size) [
  | false ↦ some (pos read_bytes)
  | true ↦ elim (read_answer read_bytes (read round (size - read_bytes))) [
    | stop ret ↦ some ret
    | go total ↦ read_full fuel (round + 1) size total read
  ]
]

-- `WriteAll` goes on after an answer of 0.
pub write_answer : ℕ → ℤ → Progress
write_answer write_bytes (negsuc n) = stop (negsuc n)
write_answer write_bytes (pos n) = go (write_bytes + n)

pub write_all : ℕ → ℕ → ℕ → ℕ → (ℕ → ℕ → ℤ) → Option ℤ
unfolding write_answer
write_all zero round size write_bytes write = none
write_all (suc fuel) round size write_bytes write = elim (ltb write_bytes size) [
  | false ↦ some (pos write_bytes)
  | true ↦ elim (write_answer write_bytes (write round (size - write_bytes))) [
    | stop ret ↦ some ret
    | go total ↦ write_all fuel (round + 1) size total write
  ]
]
