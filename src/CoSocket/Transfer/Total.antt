-- ===== src/CoSocket/Transfer/Total.antt =====
-- When the transfer loops end, and with what.
use co_socket.Prelude.{
  ℕ, zero, suc, ◌+◌, ◌-◌, ◌≤◌, ◌<◌, ◌≡◌, ◌⊎◌, refl, inl, inr, false, Option, some, arith, ltb,
  lt→ltb,
}
use native.Mathlib.Decide.{dec_lt}
use co_socket.Prelude.Int.{ℤ, pos, negsuc}
use co_socket.CoSocket.Transfer.{read_full, write_all}

-- What read(2) and write(2) document: never more than was asked for.
abbrev pub IsBoundedAnswer : ℕ → ℤ → Type 0
IsBoundedAnswer asked (pos n) = n ≤ asked
IsBoundedAnswer asked (negsuc n) = Unit

-- A short result of `ReadFull` is one that `Read` caused: an error of some round, or the end of the
-- input.
abbrev pub ReadResult : ℕ → (ℕ → ℕ → ℤ) → ℤ → Type 0
ReadResult size read (pos n) =
    (n ≤ size) × ((n ≡ size) ⊎ ((round : ℕ) × (asked : ℕ) × (read round asked ≡ pos 0)))
ReadResult size read (negsuc n) = (round : ℕ) × (asked : ℕ) × (read round asked ≡ negsuc n)

abbrev ReadEnds : ℕ → (ℕ → ℕ → ℤ) → Option ℤ → Type 0
ReadEnds size read r = (ret : ℤ) × (r ≡ some ret) × ReadResult size read ret

-- One round with the answer of `Read`, and what holds of the loop after it.
read_round :
    (fuel round size read_bytes : ℕ) (read : ℕ → ℕ → ℤ) (answer : ℤ)
    → read round (size - read_bytes) ≡ answer
    → read_bytes < size
    → IsBoundedAnswer (size - read_bytes) answer
    → ((total : ℕ)
        → read_bytes < total
        → total ≤ size
        → ReadEnds size read (read_full fuel (round + 1) size total read))
    → ReadEnds size read (read_full (suc fuel) round size read_bytes read)
unfolding read_full
read_round fuel round size read_bytes read (negsuc n) e more bounded rest =
    (negsuc n, rw (lt→ltb _ _ more, e, read_full), (round, size - read_bytes, e))
read_round fuel round size read_bytes read (pos zero) e more bounded rest = (
  pos read_bytes,
  rw (lt→ltb _ _ more, e, read_full),
  (omega arith, inr (round, size - read_bytes, e)),
)
read_round fuel round size read_bytes read (pos (suc n)) e more bounded rest =
    let (ret, ends, result) = rest (read_bytes + suc n) (omega arith) (omega arith) in
    (ret, rw (lt→ltb _ _ more, e, read_full) ends, result)

read_full_from :
    (fuel round size read_bytes : ℕ) (read : ℕ → ℕ → ℤ)
    → ((r asked : ℕ) → IsBoundedAnswer asked (read r asked))
    → read_bytes ≤ size
    → size - read_bytes < fuel
    → ReadEnds size read (read_full fuel round size read_bytes read)
unfolding read_full
read_full_from zero round size read_bytes read bounded le enough = absurd (omega arith)
read_full_from (suc fuel) round size read_bytes read bounded le enough =
    elim (dec_lt read_bytes size) [
      | yes more ↦
          read_round fuel round size read_bytes read _ refl more (bounded round (size - read_bytes))
            λ total h k. read_full_from fuel (round + 1) size total read bounded k (omega arith)
      | no all ↦
          let done : ltb read_bytes size ≡ false = ground arith in
          (pos read_bytes, rw (done, read_full), (le, inl (omega arith)))
    ]

-- `ReadFull` ends after at most as many rounds as it has bytes to read. Its result is the size asked
-- for, or fewer bytes if a round of `Read` met the end of the input, or the error of a round.
pub read_full_lem :
    (size : ℕ) (read : ℕ → ℕ → ℤ)
    → ((r asked : ℕ) → IsBoundedAnswer asked (read r asked))
    → (ret : ℤ) × (read_full (size + 1) 0 size 0 read ≡ some ret) × ReadResult size read ret
read_full_lem size read bounded =
    read_full_from (size + 1) 0 size 0 read bounded (omega arith) (omega arith)

-- What `WriteAll` needs to end: a round that writes something, and not more than was asked for.
abbrev pub IsProgress : ℕ → ℤ → Type 0
IsProgress asked (pos n) = (0 < n) × (n ≤ asked)
IsProgress asked (negsuc n) = Unit

abbrev pub WriteResult : ℕ → (ℕ → ℕ → ℤ) → ℤ → Type 0
WriteResult size write (pos n) = n ≡ size
WriteResult size write (negsuc n) = (round : ℕ) × (asked : ℕ) × (write round asked ≡ negsuc n)

abbrev WriteEnds : ℕ → (ℕ → ℕ → ℤ) → Option ℤ → Type 0
WriteEnds size write r = (ret : ℤ) × (r ≡ some ret) × WriteResult size write ret

write_round :
    (fuel round size write_bytes : ℕ) (write : ℕ → ℕ → ℤ) (answer : ℤ)
    → write round (size - write_bytes) ≡ answer
    → write_bytes < size
    → IsProgress (size - write_bytes) answer
    → ((total : ℕ)
        → write_bytes < total
        → total ≤ size
        → WriteEnds size write (write_all fuel (round + 1) size total write))
    → WriteEnds size write (write_all (suc fuel) round size write_bytes write)
unfolding write_all
write_round fuel round size write_bytes write (negsuc n) e more bounded rest =
    (negsuc n, rw (lt→ltb _ _ more, e, write_all), (round, size - write_bytes, e))
write_round fuel round size write_bytes write (pos n) e more bounded rest =
    let (ret, ends, result) = rest (write_bytes + n) (omega arith) (omega arith) in
    (ret, rw (lt→ltb _ _ more, e, write_all) ends, result)

write_all_from :
    (fuel round size write_bytes : ℕ) (write : ℕ → ℕ → ℤ)
    → ((r asked : ℕ) → 0 < asked → IsProgress asked (write r asked))
    → write_bytes ≤ size
    → size - write_bytes < fuel
    → WriteEnds size write (write_all fuel round size write_bytes write)
unfolding write_all
write_all_from zero round size write_bytes write progress le enough = absurd (omega arith)
write_all_from (suc fuel) round size write_bytes write progress le enough =
    elim (dec_lt write_bytes size) [
      | yes more ↦
          write_round fuel round size write_bytes write _ refl more
            (progress round (size - write_bytes) (omega arith))
            λ total h k. write_all_from fuel (round + 1) size total write progress k (omega arith)
      | no all ↦
          let done : ltb write_bytes size ≡ false = ground arith in
          (pos write_bytes, rw (done, write_all), omega arith)
    ]

-- `WriteAll` ends after at most as many rounds as it has bytes to write, if each round writes
-- something or fails. Its result is the size, or the error of a round.
pub write_all_lem :
    (size : ℕ) (write : ℕ → ℕ → ℤ)
    → ((r asked : ℕ) → 0 < asked → IsProgress asked (write r asked))
    → (ret : ℤ) × (write_all (size + 1) 0 size 0 write ≡ some ret) × WriteResult size write ret
write_all_lem size write progress =
    write_all_from (size + 1) 0 size 0 write progress (omega arith) (omega arith)
