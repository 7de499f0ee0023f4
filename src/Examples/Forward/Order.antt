-- ===== src/Examples/Forward/Order.antt =====
-- What is written is what was read, in its order.
use native.Mathlib.Decide.{ℕ_discrete}
use co_socket.Prelude.{
  ℕ, zero, suc, ◌+◌, ◌≡◌, ◌≤◌, ◌<◌, inl, inr, refl, sym, ap, ◌∙◌, subst, true, false, Bool-cases,
  Option, some, [], ◌∷◌, ◌++◌, append_assoc, append-nil, arith, Bytes, length,
}
use co_socket.Prelude.Int.{ℤ, pos, negsuc}
use co_socket.Tcp.{Received, failed, received, IsSome}
use co_socket.Examples.Forward.{wrote_all, forward_loop, echo_loop}

abbrev pub read_bytes : Received → Bytes
read_bytes (failed e) = []
read_bytes (received bs) = bs

-- The bytes of `n` rounds of reading from round `i` on.
abbrev pub read_from : (ℕ → Received) → ℕ → ℕ → Bytes
read_from read i zero = []
read_from read i (suc n) = read_bytes (read i) ++ read_from read (i + 1) n

-- Why a round was the last.
abbrev pub Stops : (ℕ → Bytes → ℤ) → ℕ → Received → Type 0
Stops write i (failed e) = Unit
Stops write i (received []) = Unit
Stops write i (received (b ∷ bs)) = wrote_all (write i (b ∷ bs)) (length (b ∷ bs)) ≡ false

module _ (read : ℕ → Received) (write : ℕ → Bytes → ℤ) where
  abbrev Forwards : ℕ → ℕ → Bytes → Option Bytes → Type 0
  Forwards i last written r =
      (n : ℕ) × (i + n ≤ last)
      × Stops write (i + n) (read (i + n))
      × (r ≡ some (written ++ read_from read i n))

  ends_here :
      (i last : ℕ) (written : Bytes) (r : Option Bytes) (answer : Received)
      → read i ≡ answer
      → i ≤ last
      → Stops write i answer
      → r ≡ some written
      → Forwards i last written r
  ends_here i last written r answer e le stops same = (
    0,
    omega arith,
    subst (λ k. Stops write k (read k)) (omega arith) (subst (Stops write i) (sym e) stops),
    same ∙ ap some (sym (append-nil written)),
  )

  goes_on :
      (i last : ℕ) (written : Bytes) (r : Option Bytes) (b : ℕ) (bs : Bytes)
      → read i ≡ received (b ∷ bs)
      → Forwards (i + 1) last (written ++ b ∷ bs) r
      → Forwards i last written r
  goes_on i last written r b bs e (n, le, stops, same) = (
    suc n,
    omega arith,
    subst (λ k. Stops write k (read k)) (omega arith) stops,
    same ∙ cc (append_assoc written (b ∷ bs) (read_from read (i + 1) n), ap read_bytes e),
  )

  forward_round :
      (fuel i last : ℕ) (written : Bytes) (answer : Received)
      → read i ≡ answer
      → i ≤ last
      → ((more : Bytes)
          → IsSome answer
          → Forwards (i + 1) last more (forward_loop fuel (i + 1) read write more))
      → Forwards i last written (forward_loop (suc fuel) i read write written)
  unfolding forward_loop
  forward_round fuel i last written (failed e) same le rest =
      ends_here i last written _ (failed e) same le tt (rw (same, forward_loop))
  forward_round fuel i last written (received []) same le rest =
      ends_here i last written _ (received []) same le tt (rw (same, forward_loop))
  forward_round fuel i last written (received (b ∷ bs)) same le rest =
      elim (Bool-cases (wrote_all (write i (b ∷ bs)) (length (b ∷ bs)))) [
        | inl whole ↦
            goes_on i last written _ b bs same
              (rw (same, forward_loop, whole) (rest (written ++ b ∷ bs) tt))
        | inr cut ↦
            ends_here i last written _ (received (b ∷ bs)) same le cut
              (rw (same, forward_loop, cut))
      ]

  forward_from :
      (fuel i last : ℕ) (written : Bytes)
      → ¬ (IsSome (read last))
      → i ≤ last
      → last < i + fuel
      → Forwards i last written (forward_loop fuel i read write written)
  forward_from zero i last written over le enough = absurd (omega arith)
  forward_from (suc fuel) i last written over le enough =
      forward_round fuel i last written (read i) refl le λ more some_read.
        elim (ℕ_discrete i last) [
          | yes e ↦ absurd (over (subst (λ n. IsSome (read n)) e some_read))
          | no n ↦ forward_from fuel (i + 1) last more over (omega arith) (omega arith)
        ]

  -- The loop of the proxy returns at the latest in the round in which the connection that it reads
  -- fails or ends. What it has written in whole is what it read, in its order and without a gap, up
  -- to a round of which either the read brought nothing or the write was cut short.
  pub forward_loop_lem :
      (last : ℕ)
      → ¬ (IsSome (read last))
      → (n : ℕ) × (n ≤ last)
        × Stops write n (read n)
        × (forward_loop (last + 1) 0 read write [] ≡ some (read_from read 0 n))
  forward_loop_lem last over =
      let (n, le, stops, same) =
        forward_from (last + 1) 0 last [] over (omega arith) (omega arith) in
      (n, omega arith, subst (λ k. Stops write k (read k)) (omega arith) stops, same)

  echo_answer :
      (answer : ℤ) (len : ℕ) (cut whole : Option Bytes)
      → ((n : ℕ) → answer ≡ pos n → n ≡ len)
      → (elim answer [ negsuc n ↦ cut | pos n ↦ whole ])
        ≡ (elim (wrote_all answer len) [ false ↦ cut | true ↦ whole ])
  echo_answer (negsuc n) len cut whole h = refl
  echo_answer (pos n) len cut whole h = ground (arith, h n refl)

  echo_round :
      (fuel i : ℕ) (written : Bytes) (answer : Received)
      → read i ≡ answer
      → ((j : ℕ) (bs : Bytes) (n : ℕ) → write j bs ≡ pos n → n ≡ length bs)
      → ((more : Bytes)
          → echo_loop fuel (i + 1) read write more ≡ forward_loop fuel (i + 1) read write more)
      → echo_loop (suc fuel) i read write written ≡ forward_loop (suc fuel) i read write written
  unfolding echo_loop forward_loop
  echo_round fuel i written (failed e) same whole rest = rw (same, echo_loop, forward_loop)
  echo_round fuel i written (received []) same whole rest = rw (same, echo_loop, forward_loop)
  echo_round fuel i written (received (b ∷ bs)) same whole rest =
      rw (same, echo_loop, forward_loop)
        (ap (λ r. elim (write i (b ∷ bs)) [ negsuc n ↦ some written | pos n ↦ r ])
            (rest (written ++ b ∷ bs))
          ∙ echo_answer (write i (b ∷ bs)) (length (b ∷ bs)) (some written) _ (whole i (b ∷ bs)))

  -- The echo server looks at the sign of `WriteAll`'s answer only, the proxy at the number; as
  -- `WriteAll` answers the size or an error, the two loops do the same.
  echo_loop-forward_loop :
      (fuel i : ℕ) (written : Bytes)
      → ((j : ℕ) (bs : Bytes) (n : ℕ) → write j bs ≡ pos n → n ≡ length bs)
      → echo_loop fuel i read write written ≡ forward_loop fuel i read write written
  unfolding echo_loop forward_loop
  echo_loop-forward_loop zero i written whole = refl
  echo_loop-forward_loop (suc fuel) i written whole =
      echo_round fuel i written (read i) refl whole
        λ more. echo_loop-forward_loop fuel (i + 1) more whole
