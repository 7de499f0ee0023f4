-- ===== src/CoSocket/Conditions/Channel/Calls.antt =====
-- The calls of `Enque` and `Deque`, and who sleeps in `Deque`.
use native.Mathlib.Decide.{ℕ_discrete}
use co_socket.Prelude.{
  ℕ, ◌≤◌, ◌≡◌, ◌⊎◌, sym, ap, subst, ◌∙◌, inl, inr, Bool, true, false, some, List, [], ◌∷◌, ◌++◌,
  ◌==◌, length, drop, append_assoc, Bool-cases, ==_iff,
}
use co_socket.CoSocket.State.{assign}
use co_socket.CoSocket.Conditions.{enque, condition_key, condition_notify}
use co_socket.CoSocket.Conditions.Wakeups.{Holds, deque-cons, deque-nil}
use co_socket.CoSocket.Conditions.Channel.{Channel, waiters, enque_call, deque_round}
use co_socket.CoSocket.Conditions.Channel.Pending.{
  notify_kept, notify_moved, notify_within, notify_others, wait_list, wait_entered,
}

-- The part of the list that the pass has still to resume.
abbrev pub pending : {K A : Type 0} → Channel K A → List ℕ
pending c = drop c.position c.scheduler.wait_resume_list

cons_not_nil : {A : Type 0} (a : A) (rest : List A) → a ∷ rest ≡ [] → ⊥
cons_not_nil a rest e = cc

-- Who sleeps after an assignment.
pub assigned_other :
    (m : ℕ → Bool) (co j : ℕ) (b : Bool) → (co == j) ≡ false → assign m co b j ≡ m j
assigned_other m co j b n = rw n

pub assigned_own : (m : ℕ → Bool) (co j : ℕ) (b : Bool) → (co == j) ≡ true → assign m co b j ≡ b
assigned_own m co j b e = rw e

pub false_not_true : false ≡ true → ⊥
false_not_true e = cc

pub Holds-later : (co j : ℕ) (xs : List ℕ) → (co == j) ≡ false → Holds j (co ∷ xs) → Holds j xs
Holds-later co j xs n (inl e) = absurd (false_not_true (sym n ∙ (==_iff co j).1 (sym e)))
Holds-later co j xs n (inr h) = h

module _ {K A : Type 0} where
  -- Where a coroutine that sleeps stands: it waits and the queue is empty, or the pass will resume it.
  abbrev pub IsServed : Channel K A → ℕ → Type 0
  IsServed c co = ((c.queue.queue ≡ []) × Holds co (waiters c)) ⊎ Holds co (pending c)

  pub record IsDelivering (c : Channel K A) : Type 0 where
    pub ordered : c.put ≡ c.got ++ c.queue.queue
    pub within : c.position ≤ length c.scheduler.wait_resume_list
    pub served : (co : ℕ) → c.asleep co ≡ true → IsServed c co

  -- A notification of any condition, of this queue's or of another's.
  pub notified-IsServed :
      (c : Channel K A) (condition co : ℕ)
      → c.position ≤ length c.scheduler.wait_resume_list
      → IsServed c co
      → IsServed (record c { scheduler = condition_notify condition c.scheduler }) co
  notified-IsServed c condition co within (inr listed) =
      inr (notify_kept c.scheduler c.position condition co within listed)
  notified-IsServed c condition co within (inl (empty, waits)) =
      let own = condition_key c.queue.condition in
      elim (ℕ_discrete (condition_key condition) own) [
        | yes same ↦ inr (
            notify_moved c.scheduler c.position condition co within
              (subst (λ k. Holds co (c.scheduler.condition_map k)) (sym same) waits))
        | no n ↦ inl (
          empty,
          subst (Holds co) (sym (notify_others c.scheduler c.position condition own n)) waits,
        )
      ]

  pub enques-IsDelivering :
      (c : Channel K A) (a : A) → IsDelivering c → IsDelivering (enque_call a c)
  unfolding enque
  enques-IsDelivering c a h = record {
    ordered = ap (λ xs. xs ++ a ∷ []) h.ordered ∙ append_assoc c.got c.queue.queue (a ∷ []);
    within = notify_within c.scheduler c.position c.queue.condition h.within;
    served = λ co sleeps. elim (h.served co sleeps) [
      | inl (empty, waits) ↦
          inr (notify_moved c.scheduler c.position c.queue.condition co h.within waits)
      | inr listed ↦ inr (notify_kept c.scheduler c.position c.queue.condition co h.within listed)
    ];
  }

  -- A coroutine takes an element.
  taken-IsDelivering :
      (c : Channel K A) (co : ℕ) (a : A) (rest : List A)
      → c.queue.queue ≡ a ∷ rest
      → IsDelivering c
      → IsDelivering (deque_round co c)
  taken-IsDelivering c co a rest e h = rw (deque-cons c.queue c.scheduler a rest e) (record {
    ordered = h.ordered ∙ ap (◌++◌ c.got) e ∙ sym (append_assoc c.got (a ∷ []) rest);
    within = h.within;
    served = λ j sleeps. elim (h.served j sleeps) [
      | inl (empty, waits) ↦ absurd (cons_not_nil a rest (sym e ∙ empty))
      | inr listed ↦ inr listed
    ];
  })

  -- A coroutine finds the queue empty and waits.
  waits-IsDelivering :
      (c : Channel K A) (co : ℕ)
      → c.scheduler.running ≡ some co
      → c.queue.queue ≡ []
      → IsDelivering c
      → IsDelivering (deque_round co c)
  waits-IsDelivering c co running e h = rw (deque-nil c.queue c.scheduler e) (record {
    ordered = h.ordered;
    within =
        subst (λ xs. c.position ≤ length xs) (sym (wait_list c.scheduler c.position _)) h.within;
    served = λ j sleeps.
        let entered = wait_entered c.scheduler c.position c.queue.condition co j running in
        elim (Bool-cases (co == j)) [
          | inl same ↦ inl (e, entered (inl (sym ((==_iff co j).0 same))))
          | inr n ↦ elim (h.served j (sym (assigned_other c.asleep co j true n) ∙ sleeps)) [
            | inl (empty, waits) ↦ inl (e, entered (inr waits))
            | inr listed ↦ inr (
                subst (λ xs. Holds j (drop c.position xs))
                  (sym (wait_list c.scheduler c.position c.queue.condition)) listed)
          ]
        ];
  })

  pub deques-IsDelivering :
      (c : Channel K A) (co : ℕ) (elements : List A)
      → c.queue.queue ≡ elements
      → c.scheduler.running ≡ some co
      → IsDelivering c
      → IsDelivering (deque_round co c)
  deques-IsDelivering c co [] e running h = waits-IsDelivering c co running e h
  deques-IsDelivering c co (a ∷ rest) e running h = taken-IsDelivering c co a rest e h
