-- ===== src/Http/Table.antt =====
-- `std::map<std::string, std::string>` as the list of its entries in ascending order of the keys.
pub mod Lookup
use co_socket.Prelude.{
  ◌≡◌, refl, false, Option, none, some, List, [], ◌∷◌, Bytes, if◌then◌else◌, arith,
}
use co_socket.Prelude.Text.{text_lt}

abbrev pub Table : Type 0
Table = List (Bytes × Bytes)

-- `find`.
unfoldable pub find : Bytes → Table → Option Bytes
find key [] = none
find key ((k, v) ∷ rest) =
    let later = find key rest in
    if text_lt k key then later else if text_lt key k then none else some v

-- `m[key] = value`.
unfoldable pub assign : Bytes → Bytes → Table → Table
assign key value [] = (key, value) ∷ []
assign key value ((k, v) ∷ rest) =
    let later = assign key value rest in
    if text_lt k key
    then (k, v) ∷ later
    else if text_lt key k
    then (key, value) ∷ (k, v) ∷ rest
    else (key, value) ∷ rest

-- The entries assigned in turn.
unfoldable pub assign_all : List (Bytes × Bytes) → Table → Table
assign_all [] m = m
assign_all ((k, v) ∷ rest) m = assign_all rest (assign k v m)

pub text_lt_irrefl : (a : Bytes) → text_lt a a ≡ false
text_lt_irrefl [] = refl
text_lt_irrefl (x ∷ xs) = ground (arith, text_lt_irrefl xs)

-- What was assigned to a key is found there.
pub find-assign : (key value : Bytes) (m : Table) → find key (assign key value m) ≡ some value
unfolding find assign
find-assign key value [] = ground (arith, text_lt_irrefl key)
find-assign key value ((k, v) ∷ rest) =
    ground (arith, text_lt_irrefl key, find-assign key value rest)
