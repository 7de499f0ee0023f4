-- ===== src/Timestamp.antt =====
-- CoSocket/base/Timestamp.h and Timestamp.cpp: a `timeval`, whose two members are signed numbers. The
-- current time, which the constructor reads, is an argument where it is used; the times are far from
-- the ends of `int64_t`, so that no operation overflows.
pub mod Order
pub mod Within
use co_socket.Prelude.{ℕ, ◌/◌, ◌%◌, Bool, ◌&&◌, ◌==◌, ltb, if◌then◌else◌, true, false, ◌+◌}
use co_socket.Prelude.Int.{ℤ, pos, pos_part, neg_part, sub_ℕ, ◌+ℤ◌, ◌-ℤ◌, ◌*ℤ◌, ltb_ℤ}

pub record Timestamp : Type 0 where
  pub tv_sec : ℤ
  pub tv_usec : ℤ

-- `/` and `%` of C++ by a positive number: towards zero, with the sign of the dividend.
abbrev pub quot : ℤ → ℕ → ℤ
quot a k = sub_ℕ (pos_part a / k) (neg_part a / k)

abbrev pub rem : ℤ → ℕ → ℤ
rem a k = sub_ℕ (pos_part a % k) (neg_part a % k)

abbrev pub eq_ℤ : ℤ → ℤ → Bool
eq_ℤ a b = pos_part a + neg_part b == pos_part b + neg_part a

unfoldable pub add_millisecond : Timestamp → ℤ → Timestamp
add_millisecond t ms = record {
  tv_sec = t.tv_sec +ℤ quot ms 1000;
  tv_usec = t.tv_usec +ℤ rem ms 1000 *ℤ pos 1000;
}

-- The operators `<`, `==` and `>`.
unfoldable pub before : Timestamp → Timestamp → Bool
before a b =
    if ltb_ℤ a.tv_sec b.tv_sec
    then true
    else if eq_ℤ a.tv_sec b.tv_sec
    then ltb_ℤ a.tv_usec b.tv_usec
    else false

unfoldable pub same : Timestamp → Timestamp → Bool
same a b = eq_ℤ a.tv_sec b.tv_sec && eq_ℤ a.tv_usec b.tv_usec

unfoldable pub after : Timestamp → Timestamp → Bool
after a b =
    if ltb_ℤ b.tv_sec a.tv_sec
    then true
    else if eq_ℤ a.tv_sec b.tv_sec
    then ltb_ℤ b.tv_usec a.tv_usec
    else false

-- The operator `-`, in milliseconds.
unfoldable pub minus : Timestamp → Timestamp → ℤ
minus a b = pos 1000 *ℤ (a.tv_sec -ℤ b.tv_sec) +ℤ quot (a.tv_usec -ℤ b.tv_usec) 1000
