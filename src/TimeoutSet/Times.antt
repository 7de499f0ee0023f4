-- ===== src/TimeoutSet/Times.antt =====
-- What a timeout set promises in time: a map from coroutines to the microsecond in which they are to
-- be woken.
use co_socket.Prelude.{
  ℕ, ◌+◌, ◌*◌, ◌/◌, ◌%◌, ◌<◌, ◌≡◌, ◌∙◌, refl, sym, ap, subst, inl, inr, Bool-cases, Option, none,
  some, List, [], ◌∷◌, ◌==◌,
}
use co_socket.Prelude.Int.{ℤ, pos, ◌+ℤ◌, ◌≤ℤ◌}
use co_socket.Timestamp.{Timestamp, add_millisecond}
use co_socket.Timestamp.Order.{micros}
use co_socket.TimeoutSet.{empty, get_expired}
use co_socket.TimeoutSet.Refinement.{
  Deadlines, Call, start, stop, IsAllowed, Expired, view, put, specified_all, performed_all,
  performed_all-specified_all,
}
use co_socket.Timestamp.Within.{
  time, IsWithin, add_millisecond-time, moment, moment-time, after-IsWithin, reached-IsWithin,
  before-IsWithin,
}

-- The moments at which the coroutines are to be woken after some calls.
abbrev pub due_all : List Call → (ℕ → Option ℤ) → ℕ → Option ℤ
due_all [] d = d
due_all (start co ms now ∷ cs) d = due_all cs (put d co (some (moment now ms)))
due_all (stop co ∷ cs) d = due_all cs (put d co none)

-- A deadline is set where there is none, from a time after the epoch, for a timeout that is not
-- negative, and its microseconds stay below those of a second.
abbrev pub IsTimely : List Call → (ℕ → Option ℤ) → Type 0
IsTimely [] d = Unit
IsTimely (start co ms now ∷ cs) d =
    (d co ≡ none)
    × ((s : ℕ) × (u : ℕ) × (n : ℕ) × (now ≡ time s u)
        × (ms ≡ pos n)
        × (u + n % 1000 * 1000 < 1000000))
    × IsTimely cs (put d co (some (moment now ms)))
IsTimely (stop co ∷ cs) d = IsTimely cs (put d co none)

abbrev pub moment_of : Option Timestamp → Option ℤ
moment_of none = none
moment_of (some t) = some (micros t)

-- What `GetExpired` may answer at a moment: none where all deadlines lie behind it, or a coroutine
-- whose deadline does not, and is none's later.
abbrev pub Answers : (ℕ → Option ℤ) → ℤ → Option ℕ → Type 0
Answers d at none = (co : ℕ) (a : ℤ) → d co ≡ some a → at +ℤ pos 1 ≤ℤ a
Answers d at (some co) =
    (a : ℤ) × (d co ≡ some a) × (a ≤ℤ at) × ((j : ℕ) (b : ℤ) → d j ≡ some b → a ≤ℤ b)

-- A deadline of the set and the moment that it stands for.
abbrev StandsFor : Option Timestamp → Option ℤ → Type 0
StandsFor none none = Unit
StandsFor (some t) (some a) = IsWithin t × (micros t ≡ a)
StandsFor _ _ = ⊥

tied_none : (o : Option Timestamp) (d : Option ℤ) → StandsFor o d → d ≡ none → o ≡ none
tied_none none none h e = refl
tied_none (some t) (some a) h e = cc
tied_none none (some a) h e = absurd h
tied_none (some t) none h e = absurd h

tied-moment_of : (o : Option Timestamp) (d : Option ℤ) → StandsFor o d → moment_of o ≡ d
tied-moment_of none none h = refl
tied-moment_of (some t) (some a) h = ap some h.1
tied-moment_of none (some a) h = absurd h
tied-moment_of (some t) none h = absurd h

tied_some :
    (o : Option Timestamp) (d : Option ℤ) (a : ℤ)
    → StandsFor o d
    → d ≡ some a
    → (t : Timestamp) × (o ≡ some t) × IsWithin t × (micros t ≡ a)
tied_some (some t) (some b) a h e = (t, refl, h.0, h.1 ∙ cc)
tied_some none none a h e = cc
tied_some none (some b) a h e = absurd h
tied_some (some t) none a h e = absurd h

tied_back :
    (o : Option Timestamp) (d : Option ℤ) (t : Timestamp)
    → StandsFor o d
    → o ≡ some t
    → IsWithin t × (d ≡ some (micros t))
tied_back (some v) (some a) t h e =
    let same : v ≡ t = cc in (subst IsWithin same h.0, ap some (sym h.1 ∙ ap micros same))
tied_back none none t h e = cc
tied_back none (some a) t h e = absurd h
tied_back (some v) none t h e = absurd h

tied_put :
    (m : Deadlines) (d : ℕ → Option ℤ) (co : ℕ) (o : Option Timestamp) (a : Option ℤ) (j : ℕ)
    → StandsFor o a
    → StandsFor (m j) (d j)
    → StandsFor (put m co o j) (put d co a j)
tied_put m d co o a j h k = elim (Bool-cases (co == j)) [ inl e ↦ rw e h | inr e ↦ rw e k ]

tied_all :
    (calls : List Call) (m : Deadlines) (d : ℕ → Option ℤ)
    → ((j : ℕ) → StandsFor (m j) (d j))
    → IsTimely calls d
    → IsAllowed calls m × ((j : ℕ) → StandsFor (specified_all calls m j) (due_all calls d j))
tied_all [] m d tied timely = (tt, tied)
tied_all (start co ms now ∷ cs) m d tied (free, (s, u, n, same, length, fits), rest) =
    let kept : StandsFor (some (add_millisecond now ms)) (some (moment now ms)) =
      rw (same, length)
        (
          (s + n / 1000, u + n % 1000 * 1000, add_millisecond-time s u n, fits),
          moment-time s u n,
        ) in
    let (allowed, all) =
      tied_all cs (put m co (some (add_millisecond now ms))) (put d co (some (moment now ms)))
        (λ j. tied_put m d co _ _ j kept (tied j)) rest in
    ((tied_none (m co) (d co) (tied co) free, allowed), all)
tied_all (stop co ∷ cs) m d tied timely =
    tied_all cs (put m co none) (put d co none) (λ j. tied_put m d co none none j tt (tied j))
      timely

Expired-Answers :
    (m : Deadlines) (d : ℕ → Option ℤ) (now : Timestamp) (answer : Option ℕ)
    → ((j : ℕ) → StandsFor (m j) (d j))
    → IsWithin now
    → Expired m now answer
    → Answers d (micros now) answer
Expired-Answers m d now none tied now_within expired = λ co a e.
    let (t, there, within, same) = tied_some (m co) (d co) a (tied co) e in
    subst (λ x. micros now +ℤ pos 1 ≤ℤ x) same
      (after-IsWithin t now within now_within (expired co t there))
Expired-Answers m d now (some co) tied now_within (t, there, reached, first) =
    let (within, same) = tied_back (m co) (d co) t (tied co) there in
    (
      micros t,
      same,
      reached-IsWithin t now within now_within reached,
      λ j b e.
          let (v, there', within', same') = tied_some (m j) (d j) b (tied j) e in
          subst (λ x. micros t ≤ℤ x) same' (before-IsWithin v t within' within (first j v there')),
    )

-- A timeout set on which calls of `Insert` and `Delete` were made, each deadline set where there was
-- none, from a time after the epoch, for a timeout that is not negative, and so that its
-- microseconds stay below those of a second: each coroutine has the deadline that was set last and
-- not taken back, the time of the call and the timeout in microseconds; and `GetExpired`, asked at a
-- time after the epoch, answers none exactly where all deadlines lie behind that time, and otherwise
-- a coroutine whose deadline does not, and is none's later.
pub performed_all-due_all :
    (calls : List Call) (now : Timestamp)
    → IsTimely calls (λ co. none)
    → IsWithin now
    → ((j : ℕ) → moment_of (view (performed_all calls empty) j) ≡ due_all calls (λ co. none) j)
      × Answers
          (due_all calls (λ co. none))
          (micros now)
          (get_expired (performed_all calls empty) now)
performed_all-due_all calls now timely now_within =
    let (allowed, tied) = tied_all calls (λ co. none) (λ co. none) (λ j. tt) timely in
    let (same, expired) = performed_all-specified_all calls allowed in
    (
      λ j. ap moment_of (same j) ∙ tied-moment_of _ _ (tied j),
      Expired-Answers _ _ now _ tied now_within (expired now),
    )
