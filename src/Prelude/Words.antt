-- ===== src/Prelude/Words.antt =====
-- Unsigned 64-bit arithmetic of `size_t` and `uint64_t`, and big-endian fields.
use Prim.Native.Nat.{ℕ, ◌+◌, ◌-◌, ◌*◌, ◌/◌, ◌%◌, ◌^◌}
use mathlib.Core.List.{[], ◌∷◌}
use co_socket.Prelude.Lists.{Bytes, get_or}

abbrev pub u64_mod : ℕ
u64_mod = 2 ^ 64

abbrev pub add64 : ℕ → ℕ → ℕ
add64 a b = (a + b) % u64_mod

abbrev pub sub64 : ℕ → ℕ → ℕ
sub64 a b = (a + u64_mod - b) % u64_mod

-- Two bytes from position `i` on, in network order.
abbrev pub read_be16 : Bytes → ℕ → ℕ
read_be16 bytes i = get_or bytes i 0 * 256 + get_or bytes (i + 1) 0

-- Four bytes from position `i` on, in network order.
abbrev pub read_be32 : Bytes → ℕ → ℕ
read_be32 bytes i = read_be16 bytes i * 65536 + read_be16 bytes (i + 2)

-- The bytes of a 16-bit and of a 32-bit number in network order.
abbrev pub be16 : ℕ → Bytes
be16 n = (n / 256 % 256) ∷ (n % 256) ∷ []

abbrev pub be32 : ℕ → Bytes
be32 n = (n / 2 ^ 24 % 256) ∷ (n / 65536 % 256) ∷ (n / 256 % 256) ∷ (n % 256) ∷ []
