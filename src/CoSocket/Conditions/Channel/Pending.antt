-- ===== src/CoSocket/Conditions/Channel/Pending.antt =====
-- The list of those to be resumed and the waiters of a condition, under the calls on conditions.
use co_socket.Prelude.{
  ℕ, zero, suc, ◌≤◌, ◌≡◌, ◌≢◌, ◌⊎◌, refl, false, none, some, List, [], ◌∷◌, ◌++◌, ◌==◌, get_elem?,
  length, length-append, drop, arith, ==_refl,
}
use co_socket.CoSocket.State.{CoSocket}
use co_socket.CoSocket.Conditions.{condition_key, condition_wait, condition_notify}
use co_socket.CoSocket.Conditions.Wakeups.{
  Holds, Holds-append_right, Holds-append_left, Holds-insert_id,
}

drop-append_le : (n : ℕ) (xs ys : List ℕ) → n ≤ length xs → drop n (xs ++ ys) ≡ drop n xs ++ ys
drop-append_le zero xs ys h = refl
drop-append_le (suc n) [] ys h = absurd (omega arith)
drop-append_le (suc n) (x ∷ xs) ys h = drop-append_le n xs ys (omega arith)

pub drop_at :
    (n : ℕ) (xs : List ℕ) (x : ℕ) → get_elem? xs n ≡ some x → drop n xs ≡ x ∷ drop (suc n) xs
drop_at n [] x h = cc
drop_at zero (y ∷ xs) x h = cc
drop_at (suc n) (y ∷ xs) x h = drop_at n xs x h

pub drop_end : (n : ℕ) (xs : List ℕ) → get_elem? xs n ≡ none → drop n xs ≡ []
drop_end zero [] h = refl
drop_end (suc n) [] h = refl
drop_end zero (y ∷ xs) h = cc
drop_end (suc n) (y ∷ xs) h = drop_end n xs h

module _ {K : Type 0} (s : CoSocket K) (position condition : ℕ) where
  -- A notification leaves who is to be resumed, and puts those that waited behind them.
  pub notify_kept :
      (co : ℕ)
      → position ≤ length s.wait_resume_list
      → Holds co (drop position s.wait_resume_list)
      → Holds co (drop position (condition_notify condition s).wait_resume_list)
  unfolding condition_notify
  notify_kept co within h =
      rw (drop-append_le position s.wait_resume_list _ within) (Holds-append_left co _ _ h)

  pub notify_moved :
      (co : ℕ)
      → position ≤ length s.wait_resume_list
      → Holds co (s.condition_map (condition_key condition))
      → Holds co (drop position (condition_notify condition s).wait_resume_list)
  unfolding condition_notify
  notify_moved co within h =
      rw (drop-append_le position s.wait_resume_list _ within) (Holds-append_right co _ _ h)

  pub notify_within :
      position ≤ length s.wait_resume_list
      → position ≤ length (condition_notify condition s).wait_resume_list
  unfolding condition_notify
  notify_within within =
      omega (arith, length-append s.wait_resume_list (s.condition_map (condition_key condition)))

  pub notify_others :
      (key : ℕ)
      → condition_key condition ≢ key
      → (condition_notify condition s).condition_map key ≡ s.condition_map key
  unfolding condition_notify
  notify_others key n =
      let miss : (condition_key condition == key) ≡ false = ground arith in rw miss

  pub wait_others :
      (key : ℕ)
      → condition_key condition ≢ key
      → (condition_wait condition s).condition_map key ≡ s.condition_map key
  unfolding condition_wait
  wait_others key n = let miss : (condition_key condition == key) ≡ false = ground arith in rw miss

  pub wait_list : (condition_wait condition s).wait_resume_list ≡ s.wait_resume_list
  unfolding condition_wait
  wait_list = refl

  pub wait_entered :
      (co j : ℕ)
      → s.running ≡ some co
      → (j ≡ co) ⊎ Holds j (s.condition_map (condition_key condition))
      → Holds j ((condition_wait condition s).condition_map (condition_key condition))
  unfolding condition_wait
  wait_entered co j running h =
      rw (running, ==_refl (condition_key condition)) (Holds-insert_id co j _ h)
