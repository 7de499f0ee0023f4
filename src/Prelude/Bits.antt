-- ===== src/Prelude/Bits.antt =====
-- Bytes, and the laws of `bit_and`, `bit_or` and `bit_xor` over bytes that the frame codec uses.
use Prim.Native.Nat.{ℕ, zero, suc, ◌+◌, ◌*◌, ◌/◌, ◌%◌, ◌<◌, bit_and, bit_or, bit_xor}
use mathlib.Core.Path.{◌≡◌, refl}
use mathlib.Core.Bool.{Bool, true, ◌&&◌}
use native.Mathlib.Omega.{arith}
use co_socket.Prelude.Tests.{◌==◌, ltb, ==_iff}

-- The test holds at all numbers below a bound, by evaluation.
every : (ℕ → Bool) → ℕ → Bool
every test zero = true
every test (suc bound) = every test bound && test bound

every_lem : (test : ℕ → Bool) {bound a : ℕ} → a < bound → every test bound ≡ true → test a ≡ true
unfolding every
every_lem test {bound = zero} below checked = absurd (omega arith)
every_lem test {bound = suc k} {a = a} below checked =
    ground (arith, every_lem test {bound = k} {a = a})

low_nibble_table : every (λ x. bit_and 0x0f x == x % 16) 256 ≡ true
unfolding every
low_nibble_table = refl

low_seven_table : every (λ x. bit_and 0x7f x == x % 128) 256 ≡ true
unfolding every
low_seven_table = refl

top_bit_table : every (λ x. bit_and 0x80 x == x / 128 * 128) 256 ≡ true
unfolding every
top_bit_table = refl

xor_twice_table : every (λ x. every (λ y. bit_xor (bit_xor x y) y == x) 256) 256 ≡ true
unfolding every
xor_twice_table = refl

xor_byte_table : every (λ x. every (λ y. ltb (bit_xor x y) 256) 256) 256 ≡ true
unfolding every
xor_byte_table = refl

pub bit_and_low_nibble : (x : ℕ) → x < 256 → bit_and 0x0f x ≡ x % 16
bit_and_low_nibble x h = (==_iff _ _).0 (every_lem _ h low_nibble_table)

pub bit_and_low_seven : (x : ℕ) → x < 256 → bit_and 0x7f x ≡ x % 128
bit_and_low_seven x h = (==_iff _ _).0 (every_lem _ h low_seven_table)

pub bit_and_top : (x : ℕ) → x < 256 → bit_and 0x80 x ≡ x / 128 * 128
bit_and_top x h = (==_iff _ _).0 (every_lem _ h top_bit_table)

pub bit_xor_twice : (x y : ℕ) → x < 256 → y < 256 → bit_xor (bit_xor x y) y ≡ x
bit_xor_twice x y h k = (==_iff _ _).0 (every_lem _ k (every_lem _ h xor_twice_table))

no_top_table : every (λ x. bit_or 0 x % 256 == x) 256 ≡ true
unfolding every
no_top_table = refl

mask_bit_table : every (λ x. bit_or 0x80 x % 256 == 128 + x) 128 ≡ true
unfolding every
mask_bit_table = refl

-- `fin | m_opCode`, with and without the top bit.
pub bit_or_top : (x : ℕ) → x < 128 → bit_or 0x80 x % 256 ≡ 128 + x
bit_or_top x h = (==_iff _ _).0 (every_lem _ h mask_bit_table)

pub bit_or_zero : (x : ℕ) → x < 256 → bit_or 0 x % 256 ≡ x
bit_or_zero x h = (==_iff _ _).0 (every_lem _ h no_top_table)
