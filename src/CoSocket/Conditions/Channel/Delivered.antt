-- ===== src/CoSocket/Conditions/Channel/Delivered.antt =====
-- What the coroutines of a queue take out, and who is woken for it.
use co_socket.Prelude.{
  ℕ, suc, ◌≤◌, ◌≡◌, ◌≢◌, refl, sym, subst, ◌∙◌, inl, inr, false, none, some, List, [], ◌==◌,
  get_elem?, get_elem?-within, length, drop, arith, Bool-cases,
}
use co_socket.CoSocket.State.{CoSocket, assign}
use co_socket.CoSocket.Conditions.{condition_key, condition_wait}
use co_socket.CoSocket.Conditions.Wakeups.{Holds, new_queue-empty}
use co_socket.CoSocket.Conditions.Channel.{
  Channel, ◌⟶◌, enques, deques, resumes, pass_ends, other_waits, other_notifies, elsewhere, Reach,
  begun, next,
}
use co_socket.CoSocket.Conditions.Channel.Pending.{
  drop_at, drop_end, notify_within, wait_others, wait_list,
}
use co_socket.CoSocket.Conditions.Channel.Calls.{
  assigned_other, assigned_own, false_not_true, Holds-later, IsDelivering, notified-IsServed,
  enques-IsDelivering, deques-IsDelivering,
}

module _ {K A : Type 0} where
  resumes-IsDelivering :
      (c : Channel K A) (co : ℕ)
      → get_elem? c.scheduler.wait_resume_list c.position ≡ some co
      → IsDelivering c
      → IsDelivering (record c {
        scheduler = record c.scheduler { running = some co };
        asleep = assign c.asleep co false;
        position = suc c.position;
      })
  resumes-IsDelivering c co at h = record {
    ordered = h.ordered;
    within = omega (arith, get_elem?-within c.scheduler.wait_resume_list c.position co at);
    served = λ j sleeps. elim (Bool-cases (co == j)) [
      | inl same ↦ absurd (false_not_true (sym (assigned_own c.asleep co j false same) ∙ sleeps))
      | inr n ↦ elim (h.served j (sym (assigned_other c.asleep co j false n) ∙ sleeps)) [
        | inl waits ↦ inl waits
        | inr listed ↦
            let here = drop_at c.position c.scheduler.wait_resume_list co at in
            inr (Holds-later co j _ n (subst (Holds j) here listed))
      ]
    ];
  }

  pass_ends-IsDelivering :
      (c : Channel K A)
      → get_elem? c.scheduler.wait_resume_list c.position ≡ none
      → IsDelivering c
      → IsDelivering
          (record c { scheduler = record c.scheduler { wait_resume_list = [] }; position = 0 })
  pass_ends-IsDelivering c at h = record {
    ordered = h.ordered;
    within = omega arith;
    served = λ j sleeps. elim (h.served j sleeps) [
      | inl waits ↦ inl waits
      | inr listed ↦
          absurd (subst (Holds j) (drop_end c.position c.scheduler.wait_resume_list at) listed)
    ];
  }

  other_waits-IsDelivering :
      (c : Channel K A) (condition : ℕ)
      → condition_key condition ≢ condition_key c.queue.condition
      → IsDelivering c
      → IsDelivering (record c { scheduler = condition_wait condition c.scheduler })
  other_waits-IsDelivering c condition n h =
      let same = sym (wait_list c.scheduler c.position condition) in
      record {
        ordered = h.ordered;
        within = subst (λ xs. c.position ≤ length xs) same h.within;
        served = λ j sleeps. elim (h.served j sleeps) [
          | inl (empty, waits) ↦ inl (
            empty,
            subst (Holds j) (sym (wait_others c.scheduler c.position condition _ n)) waits,
          )
          | inr listed ↦ inr (subst (λ xs. Holds j (drop c.position xs)) same listed)
        ];
      }

  elsewhere-IsDelivering :
      (c : Channel K A) (s : CoSocket K)
      → s.condition_map ≡ c.scheduler.condition_map
      → s.wait_resume_list ≡ c.scheduler.wait_resume_list
      → IsDelivering c
      → IsDelivering (record c { scheduler = s })
  elsewhere-IsDelivering c s map_same list_same h = record {
    ordered = h.ordered;
    within = subst (λ xs. c.position ≤ length xs) (sym list_same) h.within;
    served = λ j sleeps. elim (h.served j sleeps) [
      | inl (empty, waits) ↦ inl (
        empty,
        subst (λ (m : ℕ → List ℕ). Holds j (m (condition_key c.queue.condition))) (sym map_same)
            waits,
      )
      | inr listed ↦ inr (subst (λ xs. Holds j (drop c.position xs)) (sym list_same) listed)
    ];
  }

  step-IsDelivering : (c d : Channel K A) → c ⟶ d → IsDelivering c → IsDelivering d
  step-IsDelivering c _ (enques a) h = enques-IsDelivering c a h
  step-IsDelivering c _ (deques co running) h =
      deques-IsDelivering c co c.queue.queue refl running h
  step-IsDelivering c _ (resumes co free at) h = resumes-IsDelivering c co at h
  step-IsDelivering c _ (pass_ends at) h = pass_ends-IsDelivering c at h
  step-IsDelivering c _ (other_waits condition n) h = other_waits-IsDelivering c condition n h
  step-IsDelivering c _ (other_notifies condition) h = record {
    ordered = h.ordered;
    within = notify_within c.scheduler c.position condition h.within;
    served = λ j sleeps. notified-IsServed c condition j h.within (h.served j sleeps);
  }
  step-IsDelivering c _ (elsewhere s map_same list_same) h =
      elsewhere-IsDelivering c s map_same list_same h

  -- In whatever order any number of coroutines put elements into a queue and take them out, wait on
  -- other conditions and notify them, and are resumed: what was taken out is, in its order, a
  -- beginning of what was put in, and the rest stands in the queue; and no wakeup is lost, since a
  -- coroutine that sleeps in `Deque` either waits on the condition of an empty queue, or stands in
  -- that part of the list that the pass of `RunWaitResumeCo` has still to resume.
  pub Reach-IsDelivering : (c : Channel K A) → Reach c → IsDelivering c
  Reach-IsDelivering _ (begun s position {q = q} {s' = s'} made within) = record {
    ordered = sym (new_queue-empty s s' q made);
    within = within;
    served = λ co sleeps. absurd (false_not_true sleeps);
  }
  Reach-IsDelivering d (next {c = c} reach step) =
      step-IsDelivering c d step (Reach-IsDelivering c reach)
