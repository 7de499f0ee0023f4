-- ===== src/CoSocket/Blocking/Guards.antt =====
-- What the guard of a call does to the deadlines.
use co_socket.Prelude.{ℕ, ◌≡◌, ◌≢◌, true, false, none, some, Bool-cases, inl, inr}
use co_socket.Prelude.Int.{ℤ, pos, ltb_ℤ}
use co_socket.Timestamp.{Timestamp}
use co_socket.TimeoutSet.{deadline}
use co_socket.TimeoutSet.Laws.{IsConsistent, insert-IsConsistent, delete-IsConsistent}
use co_socket.TimeoutSet.Entries.{insert-others, insert-own, delete-others, delete-own}
use co_socket.CoSocket.State.{CoSocket}
use co_socket.CoSocket.Blocking.{guard_open, guard_close}

module _ {K : Type 0} (co : ℕ) (timeout : ℤ) (now : Timestamp) (s : CoSocket K) where
  pub guard_open-IsConsistent :
      s.timeouts.timeout_ptr_map co ≡ none
      → IsConsistent s.timeouts
      → IsConsistent (guard_open (some co) timeout now s).timeouts
  unfolding guard_open
  guard_open-IsConsistent free c = elim (Bool-cases (ltb_ℤ (pos 0) timeout)) [
    | inl timed ↦ rw timed (insert-IsConsistent co timeout now s.timeouts free c)
    | inr untimed ↦ rw untimed c
  ]

  pub guard_open-others :
      (j : ℕ)
      → co ≢ j
      → (guard_open (some co) timeout now s).timeouts.timeout_ptr_map j
        ≡ s.timeouts.timeout_ptr_map j
  unfolding guard_open
  guard_open-others j h = elim (Bool-cases (ltb_ℤ (pos 0) timeout)) [
    | inl timed ↦ rw timed (insert-others co timeout now s.timeouts j h)
    | inr untimed ↦ rw untimed
  ]

  -- A call without a timeout sets no deadline.
  pub guard_open-untimed :
      s.timeouts.timeout_ptr_map co ≡ none
      → ltb_ℤ (pos 0) timeout ≡ false
      → (guard_open (some co) timeout now s).timeouts.timeout_ptr_map co ≡ none
  unfolding guard_open
  guard_open-untimed free untimed = rw untimed free

  -- A call with a timeout sets one.
  pub guard_open-timed :
      s.timeouts.timeout_ptr_map co ≡ none
      → IsConsistent s.timeouts
      → ltb_ℤ (pos 0) timeout ≡ true
      → (guard_open (some co) timeout now s).timeouts.timeout_ptr_map co
        ≡ some (deadline co timeout now)
  unfolding guard_open
  guard_open-timed free c timed = rw timed (insert-own co timeout now s.timeouts free c)

module _ {K : Type 0} (co : ℕ) (timeout : ℤ) (s : CoSocket K) where
  pub guard_close-IsConsistent :
      IsConsistent s.timeouts → IsConsistent (guard_close (some co) timeout s).timeouts
  unfolding guard_close
  guard_close-IsConsistent c = elim (Bool-cases (ltb_ℤ (pos 0) timeout)) [
    | inl timed ↦ rw timed (delete-IsConsistent co s.timeouts c)
    | inr untimed ↦ rw untimed c
  ]

  pub guard_close-others :
      (j : ℕ)
      → co ≢ j
      → (guard_close (some co) timeout s).timeouts.timeout_ptr_map j ≡ s.timeouts.timeout_ptr_map j
  unfolding guard_close
  guard_close-others j h = elim (Bool-cases (ltb_ℤ (pos 0) timeout)) [
    | inl timed ↦ rw timed (delete-others co s.timeouts j h)
    | inr untimed ↦ rw untimed
  ]

  -- A call that ends leaves no deadline of its coroutine.
  pub guard_close-own :
      (ltb_ℤ (pos 0) timeout ≡ false → s.timeouts.timeout_ptr_map co ≡ none)
      → (guard_close (some co) timeout s).timeouts.timeout_ptr_map co ≡ none
  unfolding guard_close
  guard_close-own free = elim (Bool-cases (ltb_ℤ (pos 0) timeout)) [
    | inl timed ↦ rw timed (delete-own co s.timeouts)
    | inr untimed ↦ rw untimed (free untimed)
  ]
