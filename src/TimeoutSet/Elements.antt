-- ===== src/TimeoutSet/Elements.antt =====
-- Inserting into and erasing from the ordered set of deadlines.
use co_socket.Prelude.{
  ℕ, ◌≡◌, ◌≢◌, ◌⊎◌, ◌↔◌, ◌∙◌, refl, sym, ap, inl, inr, true, false, List, [], ◌∷◌, arith, All,
  Bool-cases,
}
use co_socket.Timestamp.{before, same}
use co_socket.TimeoutSet.Order.{timeout_lt_irrefl, timeout_lt_asym, IsSorted, Holds, All-timeout_lt}
use co_socket.TimeoutSet.{CoIdTimeout, timeout_lt, set_insert, set_erase}

-- An element that differs from all others by its coroutine is new.
abbrev pub IsNew : ℕ → List CoIdTimeout → Type 0
IsNew co xs = All (λ e. e.co_id ≢ co) xs

timeout_lt_total :
    (a b : CoIdTimeout) → a.co_id ≢ b.co_id → timeout_lt a b ≡ false → timeout_lt b a ≡ true
unfolding timeout_lt before same
timeout_lt_total a b h k = ground arith

set_insert-All :
    (P : CoIdTimeout → Type 0) (e : CoIdTimeout) (xs : List CoIdTimeout)
    → P e
    → All P xs
    → All P (set_insert e xs).1
unfolding set_insert
set_insert-All P e [] h k = (h, tt)
set_insert-All P e (x ∷ xs) h k = elim (Bool-cases (timeout_lt e x)) [
  | inl less ↦ rw less (h, k)
  | inr other ↦ elim (Bool-cases (timeout_lt x e)) [
    | inl more ↦ rw (other, more) (k.0, set_insert-All P e xs h k.1)
    | inr equal ↦ rw (other, equal) k
  ]
]

-- A new element is added in its place.
pub set_insert-IsSorted :
    (e : CoIdTimeout) (xs : List CoIdTimeout)
    → IsNew e.co_id xs
    → IsSorted xs
    → ((set_insert e xs).0 ≡ true) × IsSorted (set_insert e xs).1
unfolding set_insert
set_insert-IsSorted e [] h k = (refl, (tt, tt))
set_insert-IsSorted e (x ∷ xs) h k = elim (Bool-cases (timeout_lt e x)) [
  | inl less ↦ rw less (refl, ((less, All-timeout_lt e x xs less k.0), k))
  | inr other ↦
      let more = timeout_lt_total e x (λ q. h.0 (sym q)) other in
      let rest = set_insert-IsSorted e xs h.1 k.1 in
      rw (other, more) (rest.0, (set_insert-All _ e xs more k.0, rest.1))
]

-- Erasing a new element gives the set back.
pub set_erase-set_insert :
    (e : CoIdTimeout) (xs : List CoIdTimeout)
    → IsNew e.co_id xs
    → set_erase e (set_insert e xs).1 ≡ xs
unfolding set_insert set_erase
set_erase-set_insert e [] h = rw (timeout_lt_irrefl e)
set_erase-set_insert e (x ∷ xs) h = elim (Bool-cases (timeout_lt e x)) [
  | inl less ↦ rw less (rw (timeout_lt_irrefl e))
  | inr other ↦
      let more = timeout_lt_total e x (λ q. h.0 (sym q)) other in
      rw (other, more) (rw (other, more) (ap (◌∷◌ x) (set_erase-set_insert e xs h.1)))
]

pub Holds-set_insert :
    (e y : CoIdTimeout) (xs : List CoIdTimeout)
    → IsNew e.co_id xs
    → Holds y (set_insert e xs).1 ↔ ((y ≡ e) ⊎ Holds y xs)
unfolding set_insert
Holds-set_insert e y [] h = ((λ p. p), (λ p. p))
Holds-set_insert e y (x ∷ xs) h = elim (Bool-cases (timeout_lt e x)) [
  | inl less ↦ rw less ((λ p. p), (λ p. p))
  | inr other ↦
      let more = timeout_lt_total e x (λ q. h.0 (sym q)) other in
      let rest = Holds-set_insert e y xs h.1 in
      rw (other, more) ((λ p. ground (arith, rest.0)), (λ p. ground (arith, rest.1)))
]

pub Holds-All :
    (P : CoIdTimeout → Type 0) (e : CoIdTimeout) (xs : List CoIdTimeout)
    → All P xs
    → Holds e xs
    → P e
Holds-All P e [] h k = absurd k
Holds-All P e (x ∷ xs) h (inl k) = rw k h.0
Holds-All P e (x ∷ xs) h (inr k) = Holds-All P e xs h.1 k

pub All-Holds :
    (P : CoIdTimeout → Type 0) (xs : List CoIdTimeout)
    → ((e : CoIdTimeout) → Holds e xs → P e)
    → All P xs
All-Holds P [] h = tt
All-Holds P (x ∷ xs) h = (h x (inl refl), All-Holds P xs (λ e k. h e (inr k)))

set_erase-All :
    (P : CoIdTimeout → Type 0) (e : CoIdTimeout) (xs : List CoIdTimeout)
    → All P xs
    → All P (set_erase e xs)
unfolding set_erase
set_erase-All P e [] h = tt
set_erase-All P e (x ∷ xs) h = elim (Bool-cases (timeout_lt e x)) [
  | inl less ↦ rw less h
  | inr other ↦ elim (Bool-cases (timeout_lt x e)) [
    | inl more ↦ rw (other, more) (h.0, set_erase-All P e xs h.1)
    | inr equal ↦ rw (other, equal) h.1
  ]
]

-- Erasing an element of an ordered set keeps the order and takes out that element alone.
pub set_erase-IsSorted :
    (e : CoIdTimeout) (xs : List CoIdTimeout) → IsSorted xs → IsSorted (set_erase e xs)
unfolding set_erase
set_erase-IsSorted e [] h = tt
set_erase-IsSorted e (x ∷ xs) h = elim (Bool-cases (timeout_lt e x)) [
  | inl less ↦ rw less h
  | inr other ↦ elim (Bool-cases (timeout_lt x e)) [
    | inl more ↦ rw (other, more) (set_erase-All _ e xs h.0, set_erase-IsSorted e xs h.1)
    | inr equal ↦ rw (other, equal) h.1
  ]
]

ne_of_timeout_lt : (a b : CoIdTimeout) → timeout_lt a b ≡ true → a ≢ b
ne_of_timeout_lt a b h q = cc (timeout_lt_irrefl b, ap (λ x. timeout_lt x b) q)

pub Holds-of_set_erase :
    (e y : CoIdTimeout) (xs : List CoIdTimeout)
    → IsSorted xs
    → Holds e xs
    → Holds y (set_erase e xs)
    → Holds y xs × (y ≢ e)
unfolding set_erase
Holds-of_set_erase e y [] s h k = absurd h
Holds-of_set_erase e y (x ∷ xs) s (inl h) k =
    let left : Holds y xs = rw (h, timeout_lt_irrefl x, set_erase) at k in
    (inr left, λ q. ne_of_timeout_lt x y (Holds-All _ y xs s.0 left) (sym (q ∙ h)))
Holds-of_set_erase e y (x ∷ xs) s (inr h) k =
    let less = Holds-All _ e xs s.0 h in
    let left : (y ≡ x) ⊎ Holds y (set_erase e xs) =
      rw (timeout_lt_asym x e less, less, set_erase) at k in
    elim left [
      | inl q ↦ (inl q, λ r. ne_of_timeout_lt x e less (sym q ∙ r))
      | inr r ↦ let rest = Holds-of_set_erase e y xs s.1 h r in (inr rest.0, rest.1)
    ]

pub Holds-set_erase :
    (e y : CoIdTimeout) (xs : List CoIdTimeout)
    → IsSorted xs
    → Holds e xs
    → y ≢ e
    → Holds y xs
    → Holds y (set_erase e xs)
unfolding set_erase
Holds-set_erase e y [] s h n k = absurd h
Holds-set_erase e y (x ∷ xs) s (inl h) n k =
    rw (h, timeout_lt_irrefl x, set_erase) (elim k [ inl q ↦ absurd (n (q ∙ sym h)) | inr r ↦ r ])
Holds-set_erase e y (x ∷ xs) s (inr h) n k =
    let less = Holds-All _ e xs s.0 h in
    rw (timeout_lt_asym x e less, less, set_erase)
      (elim k [ inl q ↦ inl q | inr r ↦ inr (Holds-set_erase e y xs s.1 h n r) ])
