-- ===== src/CoSocket/Conditions.antt =====
-- CoSocket/net/CoSocket.cpp: `GetCondition`, `ConditionWait` and `ConditionNotify`; and the queue of
-- CoSocket/net/CoQueue.h that is built on them.
pub mod Wakeups
pub mod Channel
use co_socket.Prelude.{
  ℕ, ◌+◌, ◌-◌, ◌%◌, ◌^◌, Bool, true, false, Option, none, some, List, [], ◌∷◌, ◌++◌, ltb, ◌==◌,
  if◌then◌else◌,
}
use co_socket.CoSocket.State.{CoSocket, assign}

-- The key of a condition: `ConditionMap` is a map from `int`, to which a `uint64_t` is cut down.
abbrev pub condition_key : ℕ → ℕ
condition_key condition = condition % 2 ^ 32

-- `std::set<int>::insert`.
pub insert_id : ℕ → List ℕ → List ℕ
insert_id co [] = co ∷ []
insert_id co (x ∷ xs) =
    let rest = x ∷ insert_id co xs in
    if ltb co x then co ∷ x ∷ xs else if ltb x co then rest else x ∷ xs

abbrev insert_running : Option ℕ → List ℕ → List ℕ
insert_running none xs = xs
insert_running (some co) xs = insert_id co xs

module _ {K : Type 0} where
  -- `none` is `abort`.
  unfoldable pub get_condition : CoSocket K → Option (ℕ × CoSocket K)
  get_condition s =
      if s.condition_counter == 2 ^ 64 - 1
      then none
      else some (s.condition_counter, record s { condition_counter = s.condition_counter + 1 })

  -- `ConditionWait` up to the yield.
  pub condition_wait : ℕ → CoSocket K → CoSocket K
  unfolding insert_id
  condition_wait condition s =
      let key = condition_key condition in
      record s {
        condition_map = assign s.condition_map key (insert_running s.running (s.condition_map key));
        running = none;
      }

  pub condition_notify : ℕ → CoSocket K → CoSocket K
  condition_notify condition s =
      let key = condition_key condition in
      record s {
        wait_resume_list = s.wait_resume_list ++ s.condition_map key;
        condition_map = assign s.condition_map key [];
      }

-- `CoQueue<T>`: its condition and its deque of pointers.
pub record CoQueue (A : Type 0) : Type 0 where
  pub condition : ℕ
  pub queue : List A

module _ {K A : Type 0} where
  unfoldable pub queue_of : Option (ℕ × CoSocket K) → Option (CoQueue A × CoSocket K)
  queue_of none = none
  queue_of (some (condition, s)) = some (record { condition = condition; queue = [] }, s)

  -- The constructor; `none` is the `abort` of `GetCondition`.
  unfoldable pub new_queue : CoSocket K → Option (CoQueue A × CoSocket K)
  unfolding get_condition queue_of
  new_queue s = queue_of (get_condition s)

  unfoldable pub enque : A → CoQueue A → CoSocket K → CoQueue A × CoSocket K
  unfolding condition_notify
  enque a q s = (record q { queue = q.queue ++ a ∷ [] }, condition_notify q.condition s)

  -- One round of the loop of `Deque`: it waits on the queue's condition while that is empty, and is
  -- entered again when it is resumed.
  unfoldable pub deque : CoQueue A → CoSocket K → Option A × CoQueue A × CoSocket K
  unfolding condition_wait
  deque q s = elim q.queue [
    | [] ↦ (none, q, condition_wait q.condition s)
    | a ∷ rest ↦ (some a, record q { queue = rest }, s)
  ]
