-- ===== src/CoSocket/Conditions/Channel.antt =====
-- CoSocket/net/CoQueue.h with any number of coroutines that call `Enque` and `Deque` of one queue: a
-- step for each call, for each round of `RunWaitResumeCo`, and for what happens elsewhere.
pub mod Pending
pub mod Calls
pub mod Delivered
use co_socket.Prelude.{
  ℕ, zero, suc, ◌+◌, ◌≤◌, ◌≡◌, ◌≢◌, Bool, true, false, Option, none, some, List, [], ◌∷◌, ◌++◌,
  ◌==◌, get_elem?, length,
}
use co_socket.CoSocket.State.{CoSocket, assign}
use co_socket.CoSocket.Conditions.{
  CoQueue, new_queue, enque, deque, condition_key, condition_wait, condition_notify,
}

-- `asleep` says which coroutines yielded in `ConditionWait` of the queue, `position` where the
-- iterator of `RunWaitResumeCo` stands, 0 between two passes; `put` and `got` are what was put into
-- the queue and what was taken out, each in its order.
pub record Channel (K A : Type 0) : Type 0 where
  pub queue : CoQueue A
  pub scheduler : CoSocket K
  pub asleep : ℕ → Bool
  pub position : ℕ
  pub put : List A
  pub got : List A

module _ {K A : Type 0} where
  abbrev pub waiters : Channel K A → List ℕ
  waiters c = c.scheduler.condition_map (condition_key c.queue.condition)

  abbrev pub enque_call : A → Channel K A → Channel K A
  enque_call a c =
      let (q, s) = enque a c.queue c.scheduler in
      record c { queue = q; scheduler = s; put = c.put ++ a ∷ [] }

  abbrev pub after_deque : ℕ → Option A → Channel K A → Channel K A
  after_deque co none c = record c { asleep = assign c.asleep co true }
  after_deque co (some a) c = record c { got = c.got ++ a ∷ [] }

  -- One round of the loop of `Deque`, in the coroutine `co`.
  abbrev pub deque_round : ℕ → Channel K A → Channel K A
  deque_round co c =
      let (taken, q, s) = deque c.queue c.scheduler in
      after_deque co taken (record c { queue = q; scheduler = s })

  abbrev pub start_channel : CoQueue A → ℕ → CoSocket K → Channel K A
  start_channel q position s = record {
    queue = q;
    scheduler = s;
    asleep = λ co. false;
    position = position;
    put = [];
    got = [];
  }

  infix 4 ◌⟶◌
  pub data ◌⟶◌ : Channel K A → Channel K A → Type 0 where
    enques : {c : Channel K A} (a : A) → c ⟶ enque_call a c
    deques : {c : Channel K A} (co : ℕ) → c.scheduler.running ≡ some co → c ⟶ deque_round co c
    -- A round of `RunWaitResumeCo`.
    resumes :
        {c : Channel K A} (co : ℕ)
        → c.scheduler.running ≡ none
        → get_elem? c.scheduler.wait_resume_list c.position ≡ some co
        → c ⟶ record c {
          scheduler = record c.scheduler { running = some co };
          asleep = assign c.asleep co false;
          position = suc c.position;
        }
    -- Its end.
    pass_ends :
        {c : Channel K A}
        → get_elem? c.scheduler.wait_resume_list c.position ≡ none
        → c ⟶ record c { scheduler = record c.scheduler { wait_resume_list = [] }; position = 0 }
    -- Calls on other conditions; a notification may be one of a condition that shares the key.
    other_waits :
        {c : Channel K A} (condition : ℕ)
        → condition_key condition ≢ condition_key c.queue.condition
        → c ⟶ record c { scheduler = condition_wait condition c.scheduler }
    other_notifies :
        {c : Channel K A} (condition : ℕ)
        → c ⟶ record c { scheduler = condition_notify condition c.scheduler }
    -- Everything else: who runs, the descriptors, the deadlines, the new functions.
    elsewhere :
        {c : Channel K A} (s : CoSocket K)
        → s.condition_map ≡ c.scheduler.condition_map
        → s.wait_resume_list ≡ c.scheduler.wait_resume_list
        → c ⟶ record c { scheduler = s }

  -- What a new queue and its coroutines can become; it may be made during a pass.
  pub data Reach : Channel K A → Type 0 where
    begun :
        (s : CoSocket K) (position : ℕ) {q : CoQueue A} {s' : CoSocket K}
        → new_queue s ≡ some (q, s')
        → position ≤ length s'.wait_resume_list
        → Reach (start_channel q position s')
    next : {c d : Channel K A} → Reach c → c ⟶ d → Reach d
