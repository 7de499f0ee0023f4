-- ===== src/CoSocket/Conditions/Wakeups.antt =====
-- Who is woken by a notification, and where two conditions are one.
use co_socket.Prelude.{
  ℕ, ◌+◌, ◌%◌, ◌^◌, ◌≡◌, ◌⊎◌, refl, inl, inr, Option, none, some, List, [], ◌∷◌, ◌++◌, arith,
  ==_refl,
}
use co_socket.CoSocket.State.{CoSocket}
use co_socket.CoSocket.Conditions.{
  condition_key, insert_id, condition_wait, condition_notify, CoQueue, enque, deque, queue_of,
  new_queue, get_condition,
}

-- The coroutine stands in the list.
abbrev pub Holds : ℕ → List ℕ → Type 0
Holds co [] = ⊥
Holds co (x ∷ xs) = (co ≡ x) ⊎ Holds co xs

pub Holds-append_right : (co : ℕ) (xs ys : List ℕ) → Holds co ys → Holds co (xs ++ ys)
Holds-append_right co [] ys h = h
Holds-append_right co (x ∷ xs) ys h = inr (Holds-append_right co xs ys h)

pub Holds-append_left : (co : ℕ) (xs ys : List ℕ) → Holds co xs → Holds co (xs ++ ys)
Holds-append_left co [] ys h = absurd h
Holds-append_left co (x ∷ xs) ys (inl h) = inl h
Holds-append_left co (x ∷ xs) ys (inr h) = inr (Holds-append_left co xs ys h)

pub Holds-insert_id : (co j : ℕ) (xs : List ℕ) → (j ≡ co) ⊎ Holds j xs → Holds j (insert_id co xs)
unfolding insert_id
Holds-insert_id co j [] h = h
Holds-insert_id co j (x ∷ xs) h = ground (arith, Holds-insert_id co j xs)

module _ {K : Type 0} (s : CoSocket K) (co condition : ℕ) where
  -- No wakeup is lost: a coroutine that waits on a condition, all that waited on it before, and all
  -- that were to be resumed already, stand in the list of those to be resumed after the next
  -- notification, and nobody waits on the condition any more.
  pub notify-wait :
      (j : ℕ)
      → s.running ≡ some co
      → (j ≡ co) ⊎ Holds j (s.condition_map (condition_key condition)) ⊎ Holds j s.wait_resume_list
      → let t = condition_notify condition (condition_wait condition s) in
        Holds j t.wait_resume_list × (t.condition_map (condition_key condition) ≡ [])
  unfolding condition_notify condition_wait
  notify-wait j running waits =
      let waiters = s.condition_map (condition_key condition) in
      let here = ==_refl (condition_key condition) in
      rw (running, here)
        (
          elim waits [
            | inl own ↦
                Holds-append_right j s.wait_resume_list _ (Holds-insert_id co j waiters (inl own))
            | inr (inl waited) ↦
                Holds-append_right j s.wait_resume_list _
                  (Holds-insert_id co j waiters (inr waited))
            | inr (inr listed) ↦ Holds-append_left j s.wait_resume_list _ listed
          ],
          refl,
        )

  -- `GetCondition` means its numbers to be unique up to 2 ^ 64. But two conditions whose numbers
  -- differ by 2 ^ 32 are one: a notification of the one is a notification of the other.
  pub condition_collision :
      (condition_notify (condition + 2 ^ 32) s ≡ condition_notify condition s)
      × (condition_wait (condition + 2 ^ 32) s ≡ condition_wait condition s)
  unfolding condition_notify condition_wait
  condition_collision =
      let key : (condition + 2 ^ 32) % 2 ^ 32 ≡ condition % 2 ^ 32 = omega arith in (rw key, rw key)

-- A reader that finds the queue empty waits on the queue's condition. The next `Enque` puts it in the
-- list of the coroutines to be resumed, and when it is resumed it takes out what was put in.
pub deque-enque :
    {K A : Type 0} (q : CoQueue A) (s t : CoSocket K) (co : ℕ) (a : A)
    → s.running ≡ some co
    → q.queue ≡ []
    → let (got, q', s') = deque q s in
      let (q'', s'') = enque a q' s' in
      (got ≡ none)
      × Holds co s''.wait_resume_list
      × ((deque q'' t).0 ≡ some a)
      × ((deque q'' t).1 ≡ q)
unfolding deque enque
deque-enque q s t co a running empty =
    rw empty (refl, (notify-wait s co q.condition co running (inl refl)).0, refl, refl)

-- A queue gives back first what was put in first: putting in behind a queue that is not empty does
-- not change what is taken out next, and what is left is the rest with the new element behind it.
pub deque_fifo :
    {K A : Type 0} (q : CoQueue A) (s t : CoSocket K) (a b : A) (rest : List A)
    → q.queue ≡ b ∷ rest
    → ((deque (enque a q s).0 t).0 ≡ some b)
      × ((deque (enque a q s).0 t).1.queue ≡ rest ++ a ∷ [])
      × ((deque (enque a q s).0 t).2 ≡ t)
unfolding deque enque
deque_fifo q s t a b rest h = rw h (refl, refl, refl)

module _ {K A : Type 0} where
  queue_of-empty :
      (c : Option (ℕ × CoSocket K)) (t : CoSocket K) (q : CoQueue A)
      → queue_of c ≡ some (q, t)
      → q.queue ≡ []
  unfolding queue_of
  queue_of-empty none t q h = cc
  queue_of-empty (some (condition, s')) t q h = cc

  -- A new queue is empty.
  pub new_queue-empty :
      (s t : CoSocket K) (q : CoQueue A) → new_queue s ≡ some (q, t) → q.queue ≡ []
  unfolding new_queue
  new_queue-empty s t q e = queue_of-empty (get_condition s) t q e

  pub deque-cons :
      (q : CoQueue A) (s : CoSocket K) (a : A) (rest : List A)
      → q.queue ≡ a ∷ rest
      → deque q s ≡ (some a, record q { queue = rest }, s)
  unfolding deque
  deque-cons q s a rest e = simp (e, deque)

  pub deque-nil :
      (q : CoQueue A) (s : CoSocket K)
      → q.queue ≡ []
      → deque q s ≡ (none, q, condition_wait q.condition s)
  unfolding deque
  deque-nil q s e = simp (e, deque)
