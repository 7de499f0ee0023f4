-- ===== src/Timestamp/Order.antt =====
-- The order of timestamps, and the arithmetic in milliseconds.
use co_socket.Prelude.{ℕ, ◌+◌, ◌*◌, ◌<◌, ◌≡◌, true, false, not, ◌&&◌, ◌||◌, arith}
use co_socket.Prelude.Int.{ℤ, pos, negsuc, ◌+ℤ◌, ◌-ℤ◌, ◌*ℤ◌, ◌≤ℤ◌, int_laws}
use co_socket.Timestamp.{Timestamp, quot, rem, add_millisecond, before, same, after, minus}

-- The operators agree: `>` is `<` the other way round, and of `<`, `==`, `>` exactly one holds.
pub before_total :
    (a b : Timestamp)
    → (after a b ≡ before b a)
      × (before a b ≡ not (same a b || after a b))
      × ((before a b && after a b) ≡ false)
      × ((before a b && same a b) ≡ false)
unfolding before same after
before_total a b = ground arith

-- Times that compare equal are equal.
pub same_eq : (a b : Timestamp) → same a b ≡ true → a ≡ b
unfolding same
same_eq a b h = ground arith

pub before_trans : (a b c : Timestamp) → before a b ≡ true → before b c ≡ true → before a c ≡ true
unfolding before
before_trans a b c h k = ground arith

before_irrefl : (a : Timestamp) → before a a ≡ false
unfolding before
before_irrefl a = ground arith

+ℤ-ℤ_left : (a b : ℤ) → a +ℤ b -ℤ a ≡ b
+ℤ-ℤ_left a b = omega int_laws

quot-rem : (ms : ℤ) → pos 1000 *ℤ quot ms 1000 +ℤ quot (rem ms 1000 *ℤ pos 1000) 1000 ≡ ms
unfolding ◌*ℤ◌ ◌+ℤ◌
quot-rem (pos n) = ground arith
quot-rem (negsuc n) = ground arith

-- The difference to a time so many milliseconds later is that number, of either sign.
pub minus-add_millisecond : (t : Timestamp) (ms : ℤ) → minus (add_millisecond t ms) t ≡ ms
unfolding minus add_millisecond
minus-add_millisecond t ms =
    rw (+ℤ-ℤ_left t.tv_sec (quot ms 1000), +ℤ-ℤ_left t.tv_usec (rem ms 1000 *ℤ pos 1000))
      (quot-rem ms)

-- The time in microseconds.
abbrev pub micros : Timestamp → ℤ
micros t = pos 1000000 *ℤ t.tv_sec +ℤ t.tv_usec

-- `AddMillisecond` leaves more than a second's microseconds in `tv_usec`. A deadline of less than a
-- second that passes the end of the current second is then not after the start of the next second,
-- though it lies after that time.
pub add_millisecond_carry :
    (sec usec ms now_usec : ℕ)
    → ms < 1000
    → 1000000 + now_usec < usec + ms * 1000
    → let deadline = add_millisecond (record { tv_sec = pos sec; tv_usec = pos usec }) (pos ms) in
      let now : Timestamp = record { tv_sec = pos (sec + 1); tv_usec = pos now_usec } in
      (after deadline now ≡ false) × (micros now +ℤ pos 1 ≤ℤ micros deadline)
unfolding add_millisecond after ◌+ℤ◌ ◌*ℤ◌
add_millisecond_carry sec usec ms now_usec h k = ground arith
