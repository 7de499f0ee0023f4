-- ===== src/TimeoutSet/Entries.antt =====
-- Whose deadlines a call changes.
use co_socket.Prelude.{
  ℕ, ◌≡◌, ◌≢◌, none, some, false, arith, ==_refl, Option-cases, Bool-cases, inl, inr, ◌==◌,
}
use co_socket.Prelude.Int.{ℤ}
use co_socket.Timestamp.{Timestamp}
use co_socket.TimeoutSet.Elements.{set_insert-IsSorted}
use co_socket.TimeoutSet.Laws.{IsConsistent, IsConsistent-IsNew}
use co_socket.TimeoutSet.{TimeoutSet, set_insert, deadline, insert, delete}

differs : (co j : ℕ) → co ≢ j → (co == j) ≡ false
differs co j h = ground arith

pub insert-others :
    (co : ℕ) (ms : ℤ) (now : Timestamp) (s : TimeoutSet) (j : ℕ)
    → co ≢ j
    → (insert co ms now s).timeout_ptr_map j ≡ s.timeout_ptr_map j
unfolding insert
insert-others co ms now s j h =
    elim (Bool-cases (set_insert (deadline co ms now) s.timeout_set).0) [
      | inl added ↦ rw (added, differs co j h)
      | inr kept ↦ rw kept
    ]

pub insert-own :
    (co : ℕ) (ms : ℤ) (now : Timestamp) (s : TimeoutSet)
    → s.timeout_ptr_map co ≡ none
    → IsConsistent s
    → (insert co ms now s).timeout_ptr_map co ≡ some (deadline co ms now)
unfolding insert
insert-own co ms now s h c =
    let fresh = IsConsistent-IsNew s co c h in
    let added = set_insert-IsSorted (deadline co ms now) s.timeout_set fresh c.sorted in
    rw (added.0, ==_refl co, h)

pub delete-others :
    (co : ℕ) (s : TimeoutSet) (j : ℕ)
    → co ≢ j
    → (delete co s).timeout_ptr_map j ≡ s.timeout_ptr_map j
unfolding delete
delete-others co s j h = elim (Option-cases (s.timeout_ptr_map co)) [
  | inl e ↦ rw (e, delete)
  | inr (x, e) ↦ rw (e, delete, differs co j h)
]

pub delete-own : (co : ℕ) (s : TimeoutSet) → (delete co s).timeout_ptr_map co ≡ none
unfolding delete
delete-own co s = elim (Option-cases (s.timeout_ptr_map co)) [
  | inl e ↦ rw (e, delete) e
  | inr (x, e) ↦ rw (e, delete, ==_refl co)
]
