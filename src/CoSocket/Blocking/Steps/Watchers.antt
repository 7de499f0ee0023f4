-- ===== src/CoSocket/Blocking/Steps/Watchers.antt =====
-- The coroutines in the watchers of CoSocket/net/CoSocket.cpp, and what they wait for.
use co_socket.Prelude.{
  ℕ, ◌≡◌, ◌≢◌, sym, ap, subst, ◌∙◌, ◌⊎◌, false, Option, none, some, ◌==◌, arith, ==_refl, inl, inr,
}
use co_socket.CoSocket.State.{FdWatcher, assign}
use co_socket.CoSocket.Events.{Direction, inward, outward}
use co_socket.CoSocket.Events.Sync.{slot, with_slot}
use co_socket.CoSocket.Blocking.Steps.{Wait}

pub assign_own : (m : ℕ → Option Wait) (co : ℕ) (w : Option Wait) → assign m co w co ≡ w
assign_own m co w = rw (==_refl co)

pub assign_others :
    (m : ℕ → Option Wait) (co j : ℕ) (w : Option Wait) → co ≢ j → assign m co w j ≡ m j
assign_others m co j w n = let miss : (co == j) ≡ false = ground arith in rw miss

pub none_not_some : {A : Type 0} (x : A) → none ≡ some x → ⊥
none_not_some x e = cc

pub some_inj : {A : Type 0} (x y : A) → some x ≡ some y → x ≡ y
some_inj x y e = cc

-- A coroutine waits for a direction of a descriptor.
abbrev pub IsWaiting : (ℕ → Option Wait) → ℕ → Direction → ℕ → Type 0
IsWaiting waits fd d co = (w : Wait) × (waits co ≡ some w) × (w.fd ≡ fd) × (w.direction ≡ d)

-- A coroutine that a watcher has waits for that direction of that descriptor.
abbrev pub Awaited : (ℕ → Option Wait) → (ℕ → FdWatcher) → Type 0
Awaited waits m =
    (fd : ℕ) (d : Direction) (co : ℕ) → slot d (m fd) ≡ some co → IsWaiting waits fd d co

-- The watchers after one direction of a descriptor was assigned.
abbrev pub set_slot : (ℕ → FdWatcher) → Direction → ℕ → Option ℕ → ℕ → FdWatcher
set_slot m d fd new = assign m fd (with_slot d new (m fd))

own_slot :
    (m : ℕ → FdWatcher) (d : Direction) (fd : ℕ) (new : Option ℕ)
    → slot d (set_slot m d fd new fd) ≡ new
own_slot m inward fd new = rw (==_refl fd)
own_slot m outward fd new = rw (==_refl fd)

own_slot_at :
    (m : ℕ → FdWatcher) (d e : Direction) (fd j : ℕ) (new : Option ℕ)
    → fd ≡ j
    → d ≡ e
    → slot e (set_slot m d fd new j) ≡ new
own_slot_at m d e fd j new same_fd same_d =
    subst (λ x. slot x (set_slot m d fd new j) ≡ new) same_d
      (subst (λ x. slot d (set_slot m d fd new x) ≡ new) same_fd (own_slot m d fd new))

slot_cases :
    (m : ℕ → FdWatcher) (d e : Direction) (fd j : ℕ) (new : Option ℕ)
    → ((fd ≡ j) × (d ≡ e)) ⊎ (slot e (set_slot m d fd new j) ≡ slot e (m j))
slot_cases m inward inward fd j new = ground arith
slot_cases m inward outward fd j new = ground arith
slot_cases m outward inward fd j new = ground arith
slot_cases m outward outward fd j new = ground arith

module _ (waits : ℕ → Option Wait) (m : ℕ → FdWatcher) (d : Direction) (fd : ℕ)
    (h : Awaited waits m) where
  -- A coroutine that is still in a watcher after one was cleared was there before, in another place.
  kept_slot :
      (j : ℕ) (e : Direction) (co : ℕ)
      → slot e (set_slot m d fd none j) ≡ some co
      → slot e (m j) ≡ some co
  kept_slot j e co there = elim (slot_cases m d e fd j none) [
    | inl (same_fd, same_d) ↦
        let cleared = own_slot_at m d e fd j none same_fd same_d in
        absurd (none_not_some co (sym cleared ∙ there))
    | inr same ↦ sym same ∙ there
  ]

  -- One direction is cleared, whoever was there.
  pub clear-Awaited : Awaited waits (set_slot m d fd none)
  clear-Awaited j e co there = h j e co (kept_slot j e co there)

  -- The coroutine `co` takes its place, and did not wait before.
  pub enter-Awaited :
      (co : ℕ) (w : Wait)
      → waits co ≡ none
      → w.fd ≡ fd
      → w.direction ≡ d
      → Awaited (assign waits co (some w)) (set_slot m d fd (some co))
  enter-Awaited co w idle at_fd at_d j e c there = elim (slot_cases m d e fd j (some co)) [
    | inl (same_fd, same_d) ↦
        let own = own_slot_at m d e fd j (some co) same_fd same_d in
        let who : co ≡ c = some_inj co c (sym own ∙ there) in
        (
          w,
          subst (λ k. assign waits co (some w) k ≡ some w) who (assign_own waits co (some w)),
          at_fd ∙ same_fd,
          at_d ∙ same_d,
        )
    | inr same ↦
        let (v, now, its_fd, its_d) = h j e c (sym same ∙ there) in
        let other : co ≢ c = λ x. none_not_some v (sym idle ∙ ap waits x ∙ now) in
        (v, assign_others waits co c (some w) other ∙ now, its_fd, its_d)
  ]

  -- The coroutine `co`, which waited here, ends its wait.
  pub leave-Awaited :
      (co : ℕ) (w : Wait)
      → waits co ≡ some w
      → w.fd ≡ fd
      → w.direction ≡ d
      → Awaited (assign waits co none) (set_slot m d fd none)
  leave-Awaited co w waited at_fd at_d j e c there =
      let (v, now, its_fd, its_d) = h j e c (kept_slot j e c there) in
      let other : co ≢ c = λ x.
        let same : w ≡ v = some_inj w v (sym waited ∙ ap waits x ∙ now) in
        let here_fd : fd ≡ j = sym at_fd ∙ ap (λ (u : Wait). u.fd) same ∙ its_fd in
        let here_d : d ≡ e = sym at_d ∙ ap (λ (u : Wait). u.direction) same ∙ its_d in
        let cleared = own_slot_at m d e fd j none here_fd here_d in
        none_not_some c (sym cleared ∙ there) in
      (v, assign_others waits co c none other ∙ now, its_fd, its_d)
