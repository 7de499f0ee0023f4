-- ===== src/TimeoutSet/Order.antt =====
-- The order of the deadlines.
use co_socket.Prelude.{◌≡◌, ◌⊎◌, ◌<◌, true, false, List, [], ◌∷◌, arith, All}
use co_socket.Timestamp.{Timestamp, before, same}
use co_socket.Timestamp.Order.{before_trans, same_eq}
use co_socket.TimeoutSet.{CoIdTimeout, timeout_lt}

-- The order is lexicographic.
abbrev Precedes : CoIdTimeout → CoIdTimeout → Type 0
Precedes a b =
    (before a.timestamp b.timestamp ≡ true) ⊎ ((a.timestamp ≡ b.timestamp) × (a.co_id < b.co_id))

timeout_lt-Precedes : (a b : CoIdTimeout) → timeout_lt a b ≡ true → Precedes a b
unfolding timeout_lt
timeout_lt-Precedes a b h = ground (arith, same_eq a.timestamp b.timestamp)

same_refl : (t : Timestamp) → same t t ≡ true
unfolding same
same_refl t = ground arith

Precedes-timeout_lt : (a b : CoIdTimeout) → Precedes a b → timeout_lt a b ≡ true
unfolding timeout_lt
Precedes-timeout_lt a b h = ground (arith, same_refl a.timestamp)

Precedes-trans : (a b c : CoIdTimeout) → Precedes a b → Precedes b c → Precedes a c
Precedes-trans a b c h k = ground (arith, before_trans a.timestamp b.timestamp c.timestamp)

timeout_lt_trans :
    (a b c : CoIdTimeout) → timeout_lt a b ≡ true → timeout_lt b c ≡ true → timeout_lt a c ≡ true
timeout_lt_trans a b c h k =
    Precedes-timeout_lt a c
      (Precedes-trans a b c (timeout_lt-Precedes a b h) (timeout_lt-Precedes b c k))

pub timeout_lt_irrefl : (a : CoIdTimeout) → timeout_lt a a ≡ false
unfolding timeout_lt before
timeout_lt_irrefl a = ground arith

pub timeout_lt_asym : (a b : CoIdTimeout) → timeout_lt a b ≡ true → timeout_lt b a ≡ false
unfolding timeout_lt before same
timeout_lt_asym a b h = ground arith

-- Strictly ascending.
abbrev pub IsSorted : List CoIdTimeout → Type 0
IsSorted [] = Unit {0}
IsSorted (x ∷ xs) = All (λ y. timeout_lt x y ≡ true) xs × IsSorted xs

-- The element stands in the list.
abbrev pub Holds : CoIdTimeout → List CoIdTimeout → Type 0
Holds e [] = ⊥
Holds e (x ∷ xs) = (e ≡ x) ⊎ Holds e xs

pub All-timeout_lt :
    (e x : CoIdTimeout) (xs : List CoIdTimeout)
    → timeout_lt e x ≡ true
    → All (λ y. timeout_lt x y ≡ true) xs
    → All (λ y. timeout_lt e y ≡ true) xs
All-timeout_lt e x [] h k = tt
All-timeout_lt e x (y ∷ ys) h k = (timeout_lt_trans e x y h k.0, All-timeout_lt e x ys h k.1)
