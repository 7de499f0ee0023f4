-- ===== src/Prelude/Text.antt =====
-- Texts as lists of bytes: literals, C strings, decimal numbers and the order of `std::string`.
use Prim.Native.Char.{code}
use Prim.Native.String.{String}
use Prim.Native.Nat.{ℕ, zero, suc, ◌+◌, ◌-◌, ◌*◌, ◌/◌, ◌%◌, ◌≤◌, ◌<◌}
use mathlib.Core.Bool.{Bool, true, false}
use mathlib.Core.List.{List, [], ◌∷◌}
use mathlib.Core.Path.{◌≡◌, ap, ◌∙◌}
use mathlib.Core.Logic.{inl, inr}
use native.Mathlib.Omega.{arith}
use co_socket.Prelude.Lists.{All}
use co_socket.Prelude.Tests.{ltb, ◌==◌, if◌then◌else◌, Bool-cases}

-- The bytes of an ASCII literal.
abbrev pub ascii : String → List ℕ
ascii String.[] = []
ascii (String.◌∷◌ c rest) = code c ∷ ascii rest

-- `substr` up to a byte that `find` finds, or to the end.
abbrev pub before : ℕ → List ℕ → List ℕ
before stop [] = []
before stop (b ∷ bs) = if b == stop then [] else b ∷ before stop bs

-- What a reader of `c_str()` sees: the text up to its first zero byte.
abbrev pub c_string : List ℕ → List ℕ
c_string text = before 0 text

-- `operator <` of `std::string`, of texts whose bytes are below 256.
abbrev pub text_lt : List ℕ → List ℕ → Bool
text_lt [] [] = false
text_lt [] (y ∷ ys) = true
text_lt (x ∷ xs) [] = false
text_lt (x ∷ xs) (y ∷ ys) =
    let rest = text_lt xs ys in if ltb x y then true else if ltb y x then false else rest

decimal_loop : ℕ → ℕ → List ℕ → List ℕ
decimal_loop zero n digits = digits
decimal_loop (suc fuel) n digits = elim (ltb n 10) [
  | true ↦ (b'0' + n) ∷ digits
  | false ↦ decimal_loop fuel (n / 10) ((b'0' + n % 10) ∷ digits)
]

-- `<<` of a number: a number has at most as many digits as it counts, and one if it is zero.
pub decimal : ℕ → List ℕ
unfolding decimal_loop
decimal n = decimal_loop (suc n) n []

-- The number that a text of digits stands for, behind the digits of `n`.
abbrev pub number : ℕ → List ℕ → ℕ
number n [] = n
number n (d ∷ ds) = number (n * 10 + (d - b'0')) ds

number-decimal_loop :
    (fuel n : ℕ) (digits : List ℕ)
    → n < fuel
    → number 0 (decimal_loop fuel n digits) ≡ number n digits
unfolding decimal_loop
number-decimal_loop zero n digits h = absurd (omega arith)
number-decimal_loop (suc fuel) n digits h = elim (Bool-cases (ltb n 10)) [
  | inl last ↦
      let value : 0 * 10 + (b'0' + n - b'0') ≡ n = omega arith in
      rw (last, decimal_loop) (ap (λ m. number m digits) value)
  | inr more ↦
      let value : n / 10 * 10 + (b'0' + n % 10 - b'0') ≡ n = omega arith in
      rw (more, decimal_loop)
        (number-decimal_loop fuel (n / 10) _ (ground arith) ∙ ap (λ m. number m digits) value)
]

-- The number that was written is read back.
pub number-decimal : (n : ℕ) → number 0 (decimal n) ≡ n
unfolding decimal
number-decimal n = number-decimal_loop (suc n) n [] (omega arith)

abbrev pub IsDigit : ℕ → Type 0
IsDigit b = (b'0' ≤ b) × (b ≤ b'9')

decimal_loop-IsDigit :
    (fuel n : ℕ) (digits : List ℕ) → All IsDigit digits → All IsDigit (decimal_loop fuel n digits)
unfolding decimal_loop
decimal_loop-IsDigit zero n digits h = h
decimal_loop-IsDigit (suc fuel) n digits h = elim (Bool-cases (ltb n 10)) [
  | inl last ↦ rw (last, decimal_loop) (ground arith, h)
  | inr more ↦ rw (more, decimal_loop) (decimal_loop-IsDigit fuel (n / 10) _ (omega arith, h))
]

pub decimal-IsDigit : (n : ℕ) → All IsDigit (decimal n)
unfolding decimal
decimal-IsDigit n = decimal_loop-IsDigit (suc n) n [] tt
