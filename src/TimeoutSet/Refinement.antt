-- ===== src/TimeoutSet/Refinement.antt =====
-- What a timeout set promises: a map from coroutines to deadlines, of which the earliest can be asked
-- for. Neither the order of the set nor its two indexes are seen from outside.
use co_socket.Prelude.{
  ℕ, ◌≡◌, ◌∙◌, refl, sym, ap, subst, inl, inr, true, false, Option, none, some, List, [], ◌∷◌, ◌==◌,
  if◌then◌else◌, Bool, ==_iff, Bool-cases, Option-cases,
}
use co_socket.Prelude.Int.{ℤ}
use co_socket.Timestamp.{Timestamp, add_millisecond, before, after}
use co_socket.TimeoutSet.Elements.{set_insert-IsSorted, Holds-All}
use co_socket.TimeoutSet.Laws.{
  IsConsistent, IsConsistent-IsNew, empty-IsConsistent, insert-IsConsistent, delete-IsConsistent,
}
use co_socket.TimeoutSet.Deadlines.{ExpiredAnswer, get_expired_lem}
use co_socket.TimeoutSet.{CoIdTimeout, TimeoutSet, empty, deadline, insert, delete, get_expired}

-- The abstract state, and its two operations.
abbrev pub Deadlines : Type 0
Deadlines = ℕ → Option Timestamp

abbrev pub put : {A : Type 0} → (ℕ → Option A) → ℕ → Option A → ℕ → Option A
put m co t j = if co == j then t else m j

-- A call that sets a deadline, or takes one back.
pub data Call : Type 0 where
  start : (co : ℕ) (timeout_ms : ℤ) (now : Timestamp) → Call
  stop : (co : ℕ) → Call

abbrev pub specified : Call → Deadlines → Deadlines
specified (start co ms now) m = put m co (some (add_millisecond now ms))
specified (stop co) m = put m co none

abbrev pub performed : Call → TimeoutSet → TimeoutSet
performed (start co ms now) s = insert co ms now s
performed (stop co) s = delete co s

abbrev pub specified_all : List Call → Deadlines → Deadlines
specified_all [] m = m
specified_all (c ∷ cs) m = specified_all cs (specified c m)

abbrev pub performed_all : List Call → TimeoutSet → TimeoutSet
performed_all [] s = s
performed_all (c ∷ cs) s = performed_all cs (performed c s)

-- A coroutine waits for one thing at a time: a deadline is set where there is none.
abbrev pub IsAllowed : List Call → Deadlines → Type 0
IsAllowed [] m = Unit
IsAllowed (start co ms now ∷ cs) m = (m co ≡ none) × IsAllowed cs (specified (start co ms now) m)
IsAllowed (stop co ∷ cs) m = IsAllowed cs (specified (stop co) m)

-- What is seen of the set.
abbrev time_of : Option CoIdTimeout → Option Timestamp
time_of none = none
time_of (some e) = some e.timestamp

abbrev pub view : TimeoutSet → Deadlines
view s co = time_of (s.timeout_ptr_map co)

-- What the abstract state allows `GetExpired` to answer, in the order that the code has for times.
abbrev pub Expired : Deadlines → Timestamp → Option ℕ → Type 0
Expired m now none = (co : ℕ) (t : Timestamp) → m co ≡ some t → after t now ≡ true
Expired m now (some co) =
    (t : Timestamp) × (m co ≡ some t)
    × (after t now ≡ false)
    × ((j : ℕ) (u : Timestamp) → m j ≡ some u → before u t ≡ false)

pub record Implements (s : TimeoutSet) (m : Deadlines) : Type 0 where
  pub consistent : IsConsistent s
  pub same : (j : ℕ) → view s j ≡ m j

time_of-none : (o : Option CoIdTimeout) → time_of o ≡ none → o ≡ none
time_of-none none h = refl
time_of-none (some e) h = cc

time_of-some :
    (o : Option CoIdTimeout) (t : Timestamp)
    → time_of o ≡ some t
    → (e : CoIdTimeout) × (o ≡ some e) × (e.timestamp ≡ t)
time_of-some none t h = cc
time_of-some (some e) t h = (e, refl, cc)

time_of_if :
    (b : Bool) (x y : Option CoIdTimeout)
    → time_of (if b then x else y) ≡ (if b then time_of x else time_of y)
time_of_if true x y = refl
time_of_if false x y = refl

put-absent : (m : Deadlines) (co j : ℕ) → m co ≡ none → m j ≡ put m co none j
put-absent m co j h = elim (Bool-cases (co == j)) [
  | inl e ↦ rw e (ap m (sym ((==_iff co j).0 e)) ∙ h)
  | inr e ↦ rw e
]

insert-view :
    (co : ℕ) (ms : ℤ) (now : Timestamp) (s : TimeoutSet) (j : ℕ)
    → s.timeout_ptr_map co ≡ none
    → IsConsistent s
    → view (insert co ms now s) j ≡ put (view s) co (some (add_millisecond now ms)) j
unfolding insert
insert-view co ms now s j h c =
    let e = deadline co ms now in
    let fresh = IsConsistent-IsNew s co c h in
    let added = set_insert-IsSorted e s.timeout_set fresh c.sorted in
    rw (added.0, h) (time_of_if (co == j) (some e) (s.timeout_ptr_map j))

delete-view : (co : ℕ) (s : TimeoutSet) (j : ℕ) → view (delete co s) j ≡ put (view s) co none j
unfolding delete
delete-view co s j = elim (Option-cases (s.timeout_ptr_map co)) [
  | inl h ↦ rw (h, delete) (put-absent (view s) co j (ap time_of h))
  | inr (e, h) ↦ rw (h, delete) (time_of_if (co == j) none (s.timeout_ptr_map j))
]

put_same :
    (m n : Deadlines) (co : ℕ) (t : Option Timestamp) (j : ℕ)
    → m j ≡ n j
    → put m co t j ≡ put n co t j
put_same m n co t j h = ap (λ x. if co == j then t else x) h

-- Each call keeps the set and its specification together.
Implements-performed_all :
    (calls : List Call) (s : TimeoutSet) (m : Deadlines)
    → Implements s m
    → IsAllowed calls m
    → Implements (performed_all calls s) (specified_all calls m)
Implements-performed_all [] s m h allowed = h
Implements-performed_all (start co ms now ∷ cs) s m h allowed =
    let free = time_of-none (s.timeout_ptr_map co) (h.same co ∙ allowed.0) in
    Implements-performed_all cs (insert co ms now s) (specified (start co ms now) m)
      (record {
        consistent = insert-IsConsistent co ms now s free h.consistent;
        same = λ j.
            insert-view co ms now s j free h.consistent
            ∙ put_same (view s) m co (some (add_millisecond now ms)) j (h.same j);
      })
      allowed.1
Implements-performed_all (stop co ∷ cs) s m h allowed =
    Implements-performed_all cs (delete co s) (specified (stop co) m)
      (record {
        consistent = delete-IsConsistent co s h.consistent;
        same = λ j. delete-view co s j ∙ put_same (view s) m co none j (h.same j);
      })
      allowed

ExpiredAnswer-Expired :
    (s : TimeoutSet) (m : Deadlines) (now : Timestamp) (answer : Option ℕ)
    → Implements s m
    → ExpiredAnswer s now answer
    → Expired m now answer
ExpiredAnswer-Expired s m now none h a = λ co t e.
    let (x, found, at) = time_of-some (s.timeout_ptr_map co) t (h.same co ∙ e) in
    subst (λ x'. after x' now ≡ true) at
      (Holds-All _ x s.timeout_set a (h.consistent.linked co x found).1)
ExpiredAnswer-Expired s m now (some co) h (e, found, reached, first) = (
  e.timestamp,
  sym (h.same co) ∙ ap time_of found,
  reached,
  λ j u there.
      let (x, there', at) = time_of-some (s.timeout_ptr_map j) u (h.same j ∙ there) in
      subst (λ x'. before x' e.timestamp ≡ false) at
        (Holds-All _ x s.timeout_set first (h.consistent.linked j x there').1),
)

-- A timeout set on which the calls of `CoSocket` were made, each deadline set where there was none,
-- implements the map from coroutines to deadlines: a deadline is there exactly as it was set last and
-- not taken back; and `GetExpired` answers none exactly where all of them are after now by `>`, and
-- otherwise a coroutine whose deadline is not, and before which by `<` is none.
pub performed_all-specified_all :
    (calls : List Call)
    → IsAllowed calls (λ co. none)
    → ((j : ℕ) → view (performed_all calls empty) j ≡ specified_all calls (λ co. none) j)
      × ((now : Timestamp)
          → Expired
              (specified_all calls (λ co. none))
              now
              (get_expired (performed_all calls empty) now))
performed_all-specified_all calls allowed =
    let h =
      Implements-performed_all calls empty (λ co. none)
        (record { consistent = empty-IsConsistent; same = λ j. refl }) allowed in
    (
      h.same,
      λ now.
          ExpiredAnswer-Expired _ _ now _ h
            (get_expired_lem (performed_all calls empty) now h.consistent),
    )
