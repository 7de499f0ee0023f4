-- ===== src/TimeoutSet/Deadlines.antt =====
-- The earliest deadline: `GetExpired` and `GetNeareastTimeGap`.
use co_socket.Prelude.{
  ℕ, suc, subst, ◌<◌, ◌*◌, ◌+◌, ◌≡◌, refl, inl, inr, true, false, Option, none, some, List, [], ◌∷◌,
  arith, All, if◌then◌else◌, Bool-cases,
}
use co_socket.Prelude.Int.{ℤ, pos, negsuc, pos_part, neg_part, ◌+ℤ◌, ◌-ℤ◌, ◌*ℤ◌, ◌≤ℤ◌, int_laws}
use co_socket.Timestamp.{Timestamp, add_millisecond, before, same, after, minus, quot}
use co_socket.Timestamp.Order.{minus-add_millisecond, micros}
use co_socket.TimeoutSet.Order.{timeout_lt_irrefl}
use co_socket.TimeoutSet.Laws.{IsConsistent}
use co_socket.TimeoutSet.{
  CoIdTimeout, TimeoutSet, timeout_lt, set_erase, delete, get_expired, get_neareast_time_gap,
}

after_later :
    (e x : CoIdTimeout) (now : Timestamp)
    → timeout_lt e x ≡ true
    → after e.timestamp now ≡ true
    → after x.timestamp now ≡ true
unfolding timeout_lt before same after
after_later e x now h k = ground arith

after-All :
    (e : CoIdTimeout) (xs : List CoIdTimeout) (now : Timestamp)
    → after e.timestamp now ≡ true
    → All (λ y. timeout_lt e y ≡ true) xs
    → All (λ y. after y.timestamp now ≡ true) xs
after-All e [] now h k = tt
after-All e (x ∷ xs) now h k = (after_later e x now k.0 h, after-All e xs now h k.1)

not_before : (e x : CoIdTimeout) → timeout_lt e x ≡ true → before x.timestamp e.timestamp ≡ false
unfolding timeout_lt before same
not_before e x h = ground arith

none_before :
    (e : CoIdTimeout) (xs : List CoIdTimeout)
    → All (λ y. timeout_lt e y ≡ true) xs
    → All (λ y. before y.timestamp e.timestamp ≡ false) xs
none_before e [] h = tt
none_before e (x ∷ xs) h = (not_before e x h.0, none_before e xs h.1)

before_self : (t : Timestamp) → before t t ≡ false
unfolding before
before_self t = ground arith

-- What `GetExpired` may answer: nothing where all deadlines are still to come, or a coroutine whose
-- deadline has been reached and is none's later.
abbrev pub ExpiredAnswer : TimeoutSet → Timestamp → Option ℕ → Type 0
ExpiredAnswer s now none = All (λ e. after e.timestamp now ≡ true) s.timeout_set
ExpiredAnswer s now (some co) =
    (e : CoIdTimeout) × (s.timeout_ptr_map co ≡ some e)
    × (after e.timestamp now ≡ false)
    × All (λ y. before y.timestamp e.timestamp ≡ false) s.timeout_set

abbrev of_parts : List CoIdTimeout → (ℕ → Option CoIdTimeout) → TimeoutSet
of_parts xs m = record { timeout_set = xs; timeout_ptr_map = m }

expired_of :
    (xs : List CoIdTimeout) (m : ℕ → Option CoIdTimeout) (now : Timestamp)
    → IsConsistent (of_parts xs m)
    → ExpiredAnswer (of_parts xs m) now (get_expired (of_parts xs m) now)
unfolding get_expired
expired_of [] m now c = tt
expired_of (x ∷ xs) m now c = elim (Bool-cases (after x.timestamp now)) [
  | inl later ↦ rw later (later, after-All x xs now later c.sorted.0)
  | inr reached ↦
      rw reached
        (x, c.indexed x (inl refl), reached, (before_self x.timestamp, none_before x xs c.sorted.0))
]

-- `GetExpired` answers none exactly where every deadline is still to come, and otherwise a coroutine
-- that waits with the earliest deadline, which has been reached.
pub get_expired_lem :
    (s : TimeoutSet) (now : Timestamp) → IsConsistent s → ExpiredAnswer s now (get_expired s now)
get_expired_lem s now c = expired_of s.timeout_set s.timeout_ptr_map now c

-- How many deadlines have been reached.
abbrev pub expired_count : Timestamp → List CoIdTimeout → ℕ
expired_count now [] = 0
expired_count now (e ∷ es) =
    if after e.timestamp now then expired_count now es else suc (expired_count now es)

expired_of_delete :
    (now : Timestamp) (co : ℕ) (xs : List CoIdTimeout) (m : ℕ → Option CoIdTimeout)
    → IsConsistent (of_parts xs m)
    → get_expired (of_parts xs m) now ≡ some co
    → expired_count now (delete co (of_parts xs m)).timeout_set < expired_count now xs
unfolding get_expired delete set_erase
expired_of_delete now co [] m c h = cc
expired_of_delete now co (x ∷ xs) m c h = elim (Bool-cases (after x.timestamp now)) [
  | inl later ↦ ground arith
  | inr reached ↦
      let own : x.co_id ≡ co = ground arith in
      let entry : m co ≡ some x = subst (λ k. m k ≡ some x) own (c.indexed x (inl refl)) in
      rw (entry, timeout_lt_irrefl x, reached) (omega arith)
]

-- A coroutine whose deadline has been reached leaves fewer such deadlines when it takes its own out.
pub expired_count-delete :
    (now : Timestamp) (co : ℕ) (s : TimeoutSet)
    → IsConsistent s
    → get_expired s now ≡ some co
    → expired_count now (delete co s).timeout_set < expired_count now s.timeout_set
expired_count-delete now co s c h = expired_of_delete now co s.timeout_set s.timeout_ptr_map c h

gap_sign : (x y : ℤ) → pos 1000000 *ℤ x +ℤ y ≤ℤ pos 0 → pos 1000 *ℤ x +ℤ quot y 1000 ≤ℤ pos 0
unfolding ◌*ℤ◌ ◌+ℤ◌
gap_sign (pos x) (pos y) h = ground arith
gap_sign (pos x) (negsuc y) h = ground arith
gap_sign (negsuc x) (pos y) h = ground arith
gap_sign (negsuc x) (negsuc y) h = ground arith

million_parts :
    (a : ℤ)
    → pos_part (pos 1000000 *ℤ a) + 1000000 * neg_part a
      ≡ neg_part (pos 1000000 *ℤ a) + 1000000 * pos_part a
unfolding ◌*ℤ◌
million_parts a = ground arith

minus-le_zero : (a b : Timestamp) → micros a ≤ℤ micros b → minus a b ≤ℤ pos 0
unfolding minus
minus-le_zero a b h =
    gap_sign (a.tv_sec -ℤ b.tv_sec) (a.tv_usec -ℤ b.tv_usec) (omega (int_laws, million_parts))

-- The gap is measured from the deadline to the present. While the earliest deadline is still to come
-- the gap is zero, however far off it is; once it is `d` milliseconds late the gap is `d`, so that
-- the event loop waits the longer the later it is.
pub get_neareast_time_gap_inverted :
    (s : TimeoutSet) (e : CoIdTimeout) (es : List CoIdTimeout) (early : Timestamp) (d : ℕ)
    → s.timeout_set ≡ e ∷ es
    → micros early ≤ℤ micros e.timestamp
    → (get_neareast_time_gap s early ≡ pos 0)
      × (get_neareast_time_gap s (add_millisecond e.timestamp (pos d)) ≡ pos d)
unfolding get_neareast_time_gap
get_neareast_time_gap_inverted s e es early d h k = (
  rw h (ground (arith, minus-le_zero early e.timestamp k)),
  rw (h, minus-add_millisecond e.timestamp (pos d)) (ground arith),
)
