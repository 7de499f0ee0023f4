-- ===== src/WebSocket/Parser/Masking.antt =====
-- The loop of `ProcessPayload` against the masking of RFC 6455.
use Prim.Native.Nat.{bit_xor}
use co_socket.Prelude.{
  ℕ, zero, suc, ◌+◌, ◌%◌, ◌≤◌, ◌<◌, ◌≡◌, refl, ap, [], ◌∷◌, ◌++◌, append-nil, append_assoc, arith,
  Bytes, IsByte, All, length, get_or, take, drop,
}
use co_socket.Prelude.Bits.{bit_xor_twice}
use native.Mathlib.Numerals.{add-one}
use co_socket.WebSocket.Parser.{WebSocketParser, current_byte, unmask_loop}

-- Byte `i` under byte `i % length key` of the key.
abbrev pub masked : Bytes → ℕ → Bytes → Bytes
masked key i [] = []
masked key i (b ∷ bs) = bit_xor b (get_or key (i % length key) 0) ∷ masked key (i + 1) bs

pub length-masked : (key : Bytes) (i : ℕ) (bs : Bytes) → length (masked key i bs) ≡ length bs
length-masked key i [] = refl
length-masked key i (b ∷ bs) = ap suc (length-masked key (i + 1) bs)

get_or-IsByte : (key : Bytes) (i : ℕ) → All IsByte key → get_or key i 0 < 256
get_or-IsByte [] i h = omega arith
get_or-IsByte (k ∷ key) zero h = h.0
get_or-IsByte (k ∷ key) (suc i) h = get_or-IsByte key i h.1

-- Masking twice with the same key gives the bytes back.
pub masked_twice :
    (key : Bytes) (i : ℕ) (bs : Bytes)
    → All IsByte key
    → All IsByte bs
    → masked key i (masked key i bs) ≡ bs
masked_twice key i [] h k = refl
masked_twice key i (b ∷ bs) h k = ground (
  arith,
  bit_xor_twice b (get_or key (i % length key) 0) k.0 (get_or-IsByte key (i % length key) h),
  masked_twice key (i + 1) bs h k.1,
)

take-suc-drop :
    (xs : Bytes) (i n : ℕ)
    → i < length xs
    → take (suc n) (drop i xs) ≡ get_or xs i 0 ∷ take n (drop (suc i) xs)
take-suc-drop [] i n h = absurd (omega arith)
take-suc-drop (x ∷ xs) zero n h = refl
take-suc-drop (x ∷ xs) (suc i) n h = take-suc-drop xs i n (omega arith)

-- The rounds of the loop append the masked bytes from the offset on, and move the offset.
pub unmask_loop-masked :
    (n i : ℕ) (p : WebSocketParser)
    → p.offset + n ≤ length p.input_cache
    → unmask_loop n i p ≡ record p {
      payload = p.payload ++ masked p.mask_key i (take n (drop p.offset p.input_cache));
      offset = p.offset + n;
    }
unfolding unmask_loop current_byte
unmask_loop-masked zero i p h = ground (arith, append-nil p.payload)
unmask_loop-masked (suc n) i p h =
    let b = bit_xor (current_byte p) (get_or p.mask_key (i % length p.mask_key) 0) in
    let q = record p { payload = p.payload ++ b ∷ []; offset = p.offset + 1 } in
    ground (
      arith,
      unmask_loop-masked n (i + 1) q (omega arith),
      take-suc-drop p.input_cache p.offset n (omega arith),
      add-one p.offset,
      append_assoc p.payload (b ∷ [])
          (masked p.mask_key (i + 1) (take n (drop (suc p.offset) p.input_cache))),
    )
