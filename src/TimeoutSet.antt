-- ===== src/TimeoutSet.antt =====
-- CoSocket/net/CoSocket.cpp: `CoSocket::TimeoutSet`, the deadlines of the coroutines that wait with a
-- timeout. The `std::set` is the list of its elements in ascending order, the map from coroutines to
-- iterators a function to the elements that they point at.
pub mod Order
pub mod Elements
pub mod Laws
pub mod Deadlines
pub mod Refinement
pub mod Times
pub mod Entries
use co_socket.Prelude.{
  ℕ, Bool, true, false, Option, none, some, List, [], ◌∷◌, ltb, ◌==◌, if◌then◌else◌,
}
use co_socket.Prelude.Int.{ℤ, pos, negsuc, ltb_ℤ}
use co_socket.Timestamp.{Timestamp, add_millisecond, before, same, after, minus}

pub record CoIdTimeout : Type 0 where
  pub co_id : ℕ
  pub timestamp : Timestamp

pub record TimeoutSet : Type 0 where
  pub timeout_set : List CoIdTimeout
  pub timeout_ptr_map : ℕ → Option CoIdTimeout

abbrev pub empty : TimeoutSet
empty = record { timeout_set = []; timeout_ptr_map = λ _. none }

-- `operator <` of the elements: by the time, then by the coroutine.
unfoldable pub timeout_lt : CoIdTimeout → CoIdTimeout → Bool
timeout_lt a b =
    if before a.timestamp b.timestamp
    then true
    else if same a.timestamp b.timestamp
    then ltb a.co_id b.co_id
    else false

-- `std::set::insert`: whether the element is new, and the set with it.
unfoldable pub set_insert : CoIdTimeout → List CoIdTimeout → Bool × List CoIdTimeout
set_insert e [] = (true, e ∷ [])
set_insert e (x ∷ xs) =
    if timeout_lt e x
    then (true, e ∷ x ∷ xs)
    else let (added, rest) = set_insert e xs in
      if timeout_lt x e then (added, x ∷ rest) else (false, x ∷ xs)

-- `std::set::erase` of the element that an iterator points at.
unfoldable pub set_erase : CoIdTimeout → List CoIdTimeout → List CoIdTimeout
set_erase e [] = []
set_erase e (x ∷ xs) =
    let rest = set_erase e xs in
    if timeout_lt e x then x ∷ xs else if timeout_lt x e then x ∷ rest else xs

abbrev update {ℓ} : {A : Type ℓ} → (ℕ → Option A) → ℕ → Option A → ℕ → Option A
update m k v j = if k == j then v else m j

-- `map::insert` keeps an entry that is there already.
abbrev map_insert {ℓ} : {A : Type ℓ} → (ℕ → Option A) → ℕ → A → ℕ → Option A
map_insert m k v = update m k (elim (m k) [ none ↦ some v | some old ↦ some old ])

abbrev pub deadline : ℕ → ℤ → Timestamp → CoIdTimeout
deadline co timeout_ms now = record { co_id = co; timestamp = add_millisecond now timeout_ms }

-- `now` is the time that the constructor of the timestamp reads.
unfoldable pub insert : ℕ → ℤ → Timestamp → TimeoutSet → TimeoutSet
insert co timeout_ms now s =
    let e = deadline co timeout_ms now in
    let (added, elements) = set_insert e s.timeout_set in
    if added
    then record s { timeout_set = elements; timeout_ptr_map = map_insert s.timeout_ptr_map co e }
    else s

unfoldable pub delete : ℕ → TimeoutSet → TimeoutSet
delete co s = elim (s.timeout_ptr_map co) [
  | some e ↦ record s {
    timeout_set = set_erase e s.timeout_set;
    timeout_ptr_map = update s.timeout_ptr_map co none;
  }
  | none ↦ s
]

unfoldable pub first_expired : List CoIdTimeout → Timestamp → Option ℕ
first_expired [] now = none
first_expired (e ∷ es) now = if after e.timestamp now then none else some e.co_id

-- `none` is the result -1.
unfoldable pub get_expired : TimeoutSet → Timestamp → Option ℕ
unfolding first_expired
get_expired s now = first_expired s.timeout_set now

first_gap : List CoIdTimeout → Timestamp → ℤ
first_gap [] now = negsuc 0
first_gap (e ∷ es) now = let gap = minus now e.timestamp in if ltb_ℤ gap (pos 0) then pos 0 else gap

pub get_neareast_time_gap : TimeoutSet → Timestamp → ℤ
unfolding first_gap
get_neareast_time_gap s now = first_gap s.timeout_set now
