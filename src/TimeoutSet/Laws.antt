-- ===== src/TimeoutSet/Laws.antt =====
-- The two indexes of a timeout set, and the removal of a deadline.
use co_socket.Prelude.{
  ℕ, ◌≡◌, ◌≢◌, ◌⊎◌, ◌∙◌, refl, sym, ap, fun_ext, inl, inr, Option, none, some, List, arith, ◌==◌,
  if◌then◌else◌, Option-cases,
}
use co_socket.Prelude.Int.{ℤ}
use co_socket.Timestamp.{Timestamp}
use co_socket.TimeoutSet.Order.{IsSorted, Holds}
use co_socket.TimeoutSet.Elements.{
  IsNew, set_insert-IsSorted, set_erase-set_insert, Holds-set_insert, Holds-All, All-Holds,
  set_erase-IsSorted, Holds-of_set_erase, Holds-set_erase,
}
use co_socket.TimeoutSet.{
  CoIdTimeout, TimeoutSet, empty, set_insert, set_erase, deadline, insert, delete,
}

-- The set is in order, an iterator points at an element of its own coroutine, and each element is
-- pointed at.
pub record IsConsistent (s : TimeoutSet) : Type 0 where
  pub sorted : IsSorted s.timeout_set
  pub linked :
      (co : ℕ) (e : CoIdTimeout)
      → s.timeout_ptr_map co ≡ some e
      → (e.co_id ≡ co) × Holds e s.timeout_set
  pub indexed : (e : CoIdTimeout) → Holds e s.timeout_set → s.timeout_ptr_map e.co_id ≡ some e

pub empty-IsConsistent : IsConsistent empty
empty-IsConsistent = record { sorted = tt; linked = λ co e h. cc; indexed = λ e h. absurd h }

pub IsConsistent-IsNew :
    (s : TimeoutSet) (co : ℕ)
    → IsConsistent s
    → s.timeout_ptr_map co ≡ none
    → IsNew co s.timeout_set
IsConsistent-IsNew s co c h =
    All-Holds _ s.timeout_set λ e k q. cc (c.indexed e k, h, ap s.timeout_ptr_map q)

some_inj : {a b : CoIdTimeout} → some a ≡ some b → a ≡ b
some_inj h = cc

update_cases :
    (m : ℕ → Option CoIdTimeout) (k j : ℕ) (v : Option CoIdTimeout) (x : CoIdTimeout)
    → (if k == j then v else m j) ≡ some x
    → ((k ≡ j) × (v ≡ some x)) ⊎ ((k ≢ j) × (m j ≡ some x))
update_cases m k j v x h = ground arith

update_ne :
    (m : ℕ → Option CoIdTimeout) (k j : ℕ) (v : Option CoIdTimeout)
    → k ≢ j
    → (if k == j then v else m j) ≡ m j
update_ne m k j v h = ground arith

update_eq :
    (m : ℕ → Option CoIdTimeout) (k j : ℕ) (v : Option CoIdTimeout)
    → k ≡ j
    → (if k == j then v else m j) ≡ v
update_eq m k j v h = ground arith

-- Setting a deadline for a coroutine that has none keeps the indexes in agreement.
pub insert-IsConsistent :
    (co : ℕ) (ms : ℤ) (now : Timestamp) (s : TimeoutSet)
    → s.timeout_ptr_map co ≡ none
    → IsConsistent s
    → IsConsistent (insert co ms now s)
unfolding insert
insert-IsConsistent co ms now s h c =
    let e = deadline co ms now in
    let fresh = IsConsistent-IsNew s co c h in
    let added = set_insert-IsSorted e s.timeout_set fresh c.sorted in
    rw (added.0, h)
      (record {
        sorted = added.1;
        linked = λ k x q. elim (update_cases s.timeout_ptr_map co k (some e) x q) [
          | inl (p, r) ↦
              let eq : e ≡ x = ground arith in
              (rw (← eq) p, (Holds-set_insert e x s.timeout_set fresh).1 (inl (sym eq)))
          | inr (p, r) ↦
              let old = c.linked k x r in
              (old.0, (Holds-set_insert e x s.timeout_set fresh).1 (inr old.1))
        ];
        indexed = λ x q. elim ((Holds-set_insert e x s.timeout_set fresh).0 q) [
          | inl p ↦
              update_eq s.timeout_ptr_map co x.co_id (some e) (sym (ap (λ y. y.co_id) p))
              ∙ ap some (sym p)
          | inr p ↦
              update_ne s.timeout_ptr_map co x.co_id (some e)
                (λ r. Holds-All _ x s.timeout_set fresh p (sym r))
              ∙ c.indexed x p
        ];
      })

-- Taking back the deadline of a coroutine keeps the indexes in agreement, whether it has one or not.
pub delete-IsConsistent : (co : ℕ) (s : TimeoutSet) → IsConsistent s → IsConsistent (delete co s)
unfolding delete
delete-IsConsistent co s c = elim (Option-cases (s.timeout_ptr_map co)) [
  | inl h ↦ rw (h, delete) c
  | inr (e, h) ↦
      let own = c.linked co e h in
      rw (h, delete)
        (record {
          sorted = set_erase-IsSorted e s.timeout_set c.sorted;
          linked = λ k x q. elim (update_cases s.timeout_ptr_map co k none x q) [
            | inl (p, r) ↦ absurd (ground arith)
            | inr (p, r) ↦
                let old = c.linked k x r in
                (
                  old.0,
                  Holds-set_erase e x s.timeout_set c.sorted own.1
                      (λ same. p (sym own.0 ∙ ap (λ y. y.co_id) (sym same) ∙ old.0)) old.1,
                )
          ];
          indexed = λ x q.
              let kept = Holds-of_set_erase e x s.timeout_set c.sorted own.1 q in
              update_ne s.timeout_ptr_map co x.co_id none (λ r.
                kept.1 (some_inj (sym (c.indexed x kept.0) ∙ ap s.timeout_ptr_map (sym r) ∙ h)))
              ∙ c.indexed x kept.0;
        })
]

delete_present :
    (co : ℕ) (e : CoIdTimeout) (s : TimeoutSet) (elements : List CoIdTimeout)
    → s.timeout_ptr_map co ≡ none
    → set_erase e elements ≡ s.timeout_set
    → delete co (record s {
      timeout_set = elements;
      timeout_ptr_map = λ j. if co == j then some e else s.timeout_ptr_map j;
    })
      ≡ s
unfolding delete
delete_present co e s elements h k =
    let stored : (if co == co then some e else s.timeout_ptr_map co) ≡ some e =
      update_eq s.timeout_ptr_map co co (some e) refl in
    rw (stored, delete)
      (λ i. record {
        timeout_set = k i;
        timeout_ptr_map =
            fun_ext
              {f = λ j. if co == j then none else if co == j then some e else s.timeout_ptr_map j}
              {g = s.timeout_ptr_map} (λ j. ground arith) i;
      })

-- Setting a deadline for a coroutine that has none, and taking it back, leaves the set as it was.
pub delete-insert :
    (co : ℕ) (ms : ℤ) (now : Timestamp) (s : TimeoutSet)
    → s.timeout_ptr_map co ≡ none
    → IsConsistent s
    → delete co (insert co ms now s) ≡ s
unfolding insert
delete-insert co ms now s h c =
    let e = deadline co ms now in
    let fresh = IsConsistent-IsNew s co c h in
    let added = set_insert-IsSorted e s.timeout_set fresh c.sorted in
    rw (added.0, h)
      (delete_present co e s (set_insert e s.timeout_set).1 h
        (set_erase-set_insert e s.timeout_set fresh))
