-- ===== src/Http/Table/Lookup.antt =====
-- What is found in a table after an assignment, by the bytes of the keys only.
use co_socket.Prelude.{
  ◌≡◌, refl, ap, ◌∙◌, subst, Bool, true, false, ◌&&◌, ◌==◌, Option, some, List, [], ◌∷◌, Bytes,
  if◌then◌else◌, arith, Bool-cases, inl, inr,
}
use co_socket.Prelude.Text.{text_lt}
use co_socket.Http.Table.{Table, find, assign, assign_all, find-assign}

abbrev pub same_bytes : Bytes → Bytes → Bool
same_bytes [] [] = true
same_bytes [] (y ∷ ys) = false
same_bytes (x ∷ xs) [] = false
same_bytes (x ∷ xs) (y ∷ ys) = x == y && same_bytes xs ys

same_bytes_refl : (a : Bytes) → same_bytes a a ≡ true
same_bytes_refl [] = refl
same_bytes_refl (x ∷ xs) = ground (arith, same_bytes_refl xs)

-- Of two different texts one is before the other, of the same neither.
text_lt_or : (a b : Bytes) → same_bytes a b ≡ false → text_lt a b ≡ false → text_lt b a ≡ true
text_lt_or [] [] h k = cc
text_lt_or [] (y ∷ ys) h k = ground arith
text_lt_or (x ∷ xs) [] h k = ground arith
text_lt_or (x ∷ xs) (y ∷ ys) h k = ground (arith, text_lt_or xs ys)

text_lt_neither : (a b : Bytes) → text_lt a b ≡ false → text_lt b a ≡ false → a ≡ b
text_lt_neither [] [] h k = refl
text_lt_neither [] (y ∷ ys) h k = ground arith
text_lt_neither (x ∷ xs) [] h k = ground arith
text_lt_neither (x ∷ xs) (y ∷ ys) h k = ground (arith, text_lt_neither xs ys)

text_lt_trans : (a b c : Bytes) → text_lt a b ≡ true → text_lt b c ≡ true → text_lt a c ≡ true
text_lt_trans [] [] c h k = ground arith
text_lt_trans [] (y ∷ ys) [] h k = ground arith
text_lt_trans [] (y ∷ ys) (z ∷ zs) h k = ground arith
text_lt_trans (x ∷ xs) [] c h k = ground arith
text_lt_trans (x ∷ xs) (y ∷ ys) [] h k = ground arith
text_lt_trans (x ∷ xs) (y ∷ ys) (z ∷ zs) h k = ground (arith, text_lt_trans xs ys zs)

text_lt_asym : (a b : Bytes) → text_lt a b ≡ true → text_lt b a ≡ false
text_lt_asym [] [] h = ground arith
text_lt_asym [] (y ∷ ys) h = ground arith
text_lt_asym (x ∷ xs) [] h = ground arith
text_lt_asym (x ∷ xs) (y ∷ ys) h = ground (arith, text_lt_asym xs ys)

module _ (k key v : Bytes) (differs : same_bytes k key ≡ false) where
  find-assign_other : (m : Table) → find key (assign k v m) ≡ find key m
  unfolding find assign
  find-assign_other [] = ground (arith, text_lt_or k key differs)
  find-assign_other ((x, w) ∷ rest) = ground (
    arith,
    find-assign_other rest,
    text_lt_or k key differs,
    text_lt_trans key k x,
    text_lt_trans k x key,
    text_lt_asym key x,
    text_lt_neither x k,
    text_lt_neither k x,
  )

same_bytes_eq : (a b : Bytes) → same_bytes a b ≡ true → a ≡ b
same_bytes_eq [] [] h = refl
same_bytes_eq [] (y ∷ ys) h = cc
same_bytes_eq (x ∷ xs) [] h = cc
same_bytes_eq (x ∷ xs) (y ∷ ys) h = ground (arith, same_bytes_eq xs ys)

find-assign_lem :
    (k key v : Bytes) (m : Table)
    → find key (assign k v m) ≡ (if same_bytes k key then some v else find key m)
find-assign_lem k key v m = elim (Bool-cases (same_bytes k key)) [
  | inl e ↦
      rw e (subst (λ x. find x (assign k v m) ≡ some v) (same_bytes_eq k key e) (find-assign k v m))
  | inr e ↦ rw e (find-assign_other k key v e m)
]

-- The value that a list of entries has last for a key, and `old` where it has none.
abbrev pub last_value : Bytes → List (Bytes × Bytes) → Option Bytes → Option Bytes
last_value key [] old = old
last_value key ((k, v) ∷ rest) old = last_value key rest (if same_bytes k key then some v else old)

pub find-assign_all :
    (key : Bytes) (hs : List (Bytes × Bytes)) (m : Table)
    → find key (assign_all hs m) ≡ last_value key hs (find key m)
unfolding assign_all
find-assign_all key [] m = refl
find-assign_all key ((k, v) ∷ rest) m =
    find-assign_all key rest (assign k v m) ∙ ap (last_value key rest) (find-assign_lem k key v m)
