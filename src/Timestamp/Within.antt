-- ===== src/Timestamp/Within.antt =====
-- Times whose microseconds are those of a second: their order, and the moments behind them.
use co_socket.Prelude.{
  ℕ, ◌+◌, ◌*◌, ◌/◌, ◌%◌, ◌<◌, ◌≤◌, ◌≡◌, ◌∙◌, sym, ap, subst, true, false, Bool, arith,
}
use co_socket.Prelude.Int.{ℤ, pos, ◌+ℤ◌, ◌*ℤ◌, ◌≤ℤ◌}
use co_socket.Timestamp.{Timestamp, add_millisecond, before, after}
use co_socket.Timestamp.Order.{micros}

-- A time from the epoch on, whose microseconds are those of a second.
abbrev pub time : ℕ → ℕ → Timestamp
time sec usec = record { tv_sec = pos sec; tv_usec = pos usec }

abbrev pub IsWithin : Timestamp → Type 0
IsWithin t = (sec : ℕ) × (usec : ℕ) × (t ≡ time sec usec) × (usec < 1000000)

micros-time : (sec usec : ℕ) → micros (time sec usec) ≡ pos (1000000 * sec + usec)
unfolding ◌+ℤ◌ ◌*ℤ◌
micros-time sec usec = ground arith

after_later :
    (s u s' u' : ℕ)
    → u < 1000000
    → u' < 1000000
    → after (time s u) (time s' u') ≡ true
    → 1000000 * s' + u' < 1000000 * s + u
unfolding after
after_later s u s' u' h k e = ground arith

after_reached :
    (s u s' u' : ℕ)
    → u < 1000000
    → u' < 1000000
    → after (time s u) (time s' u') ≡ false
    → 1000000 * s + u ≤ 1000000 * s' + u'
unfolding after
after_reached s u s' u' h k e = ground arith

before_not :
    (s u s' u' : ℕ)
    → u < 1000000
    → u' < 1000000
    → before (time s u) (time s' u') ≡ false
    → 1000000 * s' + u' ≤ 1000000 * s + u
unfolding before
before_not s u s' u' h k e = ground arith

later_pos : (a b : ℕ) → a < b → pos a +ℤ pos 1 ≤ℤ pos b
unfolding ◌+ℤ◌
later_pos a b h = ground arith

-- A relation between two times, from that of their microseconds.
of_micros :
    (R : ℤ → ℤ → Type 0) (t now : Timestamp) (s u s' u' : ℕ)
    → t ≡ time s u
    → now ≡ time s' u'
    → R (pos (1000000 * s + u)) (pos (1000000 * s' + u'))
    → R (micros t) (micros now)
of_micros R t now s u s' u' e e' h =
    subst (λ a. R a (micros now)) (sym (ap micros e ∙ micros-time s u))
      (subst (R (pos (1000000 * s + u))) (sym (ap micros e' ∙ micros-time s' u')) h)

at_parts :
    (test : Timestamp → Timestamp → Bool) (b : Bool) (t now v w : Timestamp)
    → t ≡ v
    → now ≡ w
    → test t now ≡ b
    → test v w ≡ b
at_parts test b t now v w e e' h = ap (test v) (sym e') ∙ ap (λ x. test x now) (sym e) ∙ h

pub after-IsWithin :
    (t now : Timestamp)
    → IsWithin t
    → IsWithin now
    → after t now ≡ true
    → micros now +ℤ pos 1 ≤ℤ micros t
after-IsWithin t now (s, u, e, h) (s', u', e', h') k =
    of_micros (λ a b. b +ℤ pos 1 ≤ℤ a) t now s u s' u' e e'
      (later_pos _ _ (after_later s u s' u' h h' (at_parts after true t now _ _ e e' k)))

pub reached-IsWithin :
    (t now : Timestamp) → IsWithin t → IsWithin now → after t now ≡ false → micros t ≤ℤ micros now
reached-IsWithin t now (s, u, e, h) (s', u', e', h') k =
    let le = after_reached s u s' u' h h' (at_parts after false t now _ _ e e' k) in
    of_micros (λ a b. a ≤ℤ b) t now s u s' u' e e' (omega (arith, le))

pub before-IsWithin :
    (v t : Timestamp) → IsWithin v → IsWithin t → before v t ≡ false → micros t ≤ℤ micros v
before-IsWithin v t (s, u, e, h) (s', u', e', h') k =
    let le = before_not s u s' u' h h' (at_parts before false v t _ _ e e' k) in
    of_micros (λ a b. b ≤ℤ a) v t s u s' u' e e' (omega (arith, le))

pub add_millisecond-time :
    (s u n : ℕ) → add_millisecond (time s u) (pos n) ≡ time (s + n / 1000) (u + n % 1000 * 1000)
unfolding add_millisecond ◌+ℤ◌ ◌*ℤ◌
add_millisecond-time s u n = ground arith

-- The moment in microseconds that lies so many milliseconds behind a time.
abbrev pub moment : Timestamp → ℤ → ℤ
moment now ms = micros now +ℤ pos 1000 *ℤ ms

pub moment-time :
    (s u n : ℕ) → micros (add_millisecond (time s u) (pos n)) ≡ moment (time s u) (pos n)
unfolding add_millisecond ◌+ℤ◌ ◌*ℤ◌
moment-time s u n = ground arith
