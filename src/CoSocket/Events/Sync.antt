-- ===== src/CoSocket/Events/Sync.antt =====
-- The poller's interest in a descriptor against that of its watcher.
use Prim.Native.Nat.{bit_and}
use co_socket.Prelude.{
  ℕ, ◌+◌, ap, ◌-◌, ◌^◌, ◌≡◌, ◌∙◌, refl, sym, true, false, Option, none, some, ◌==◌, arith, ==_refl,
  subst, Option-cases, inl, inr,
}
use native.Mathlib.Decide.{ℕ_discrete}
use co_socket.Epoller.{EpollKernel, update}
use co_socket.Epoller.Laws.{interest, update_lem, update_others, update-CanPoll}
use co_socket.CoSocket.State.{FdWatcher, CoSocket, assign}
use co_socket.CoSocket.Events.{
  Direction, inward, outward, flag, get_events, save_to_co_id_map, reset_in_co_id_map, duplicate,
  yielded, add_event_and_yield, delete_event,
}

abbrev pub slot : Direction → FdWatcher → Option ℕ
slot inward w = w.read_co_id
slot outward w = w.write_co_id

abbrev pub with_slot : Direction → Option ℕ → FdWatcher → FdWatcher
with_slot inward co w = record w { read_co_id = co }
with_slot outward co w = record w { write_co_id = co }

get_events_without :
    (d : Direction) (w : FdWatcher)
    → bit_and (get_events w) (2 ^ 32 - 1 - flag d) ≡ get_events (with_slot d none w)
unfolding get_events
get_events_without inward w = ground arith
get_events_without outward w = ground arith

module _ {K : Type 0} where
  save_free :
      (d : Direction) (fd : ℕ) (s : CoSocket K)
      → slot d (s.co_id_map fd) ≡ none
      → save_to_co_id_map fd (flag d) s ≡ (
        true,
        record s { co_id_map = assign s.co_id_map fd (with_slot d s.running (s.co_id_map fd)) },
      )
  unfolding save_to_co_id_map
  save_free inward fd s h = ground arith
  save_free outward fd s h = ground arith

  save_taken :
      (d : Direction) (fd other : ℕ) (s : CoSocket K)
      → slot d (s.co_id_map fd) ≡ some other
      → save_to_co_id_map fd (flag d) s ≡ (false, s)
  unfolding save_to_co_id_map
  save_taken inward fd other s h = ground arith
  save_taken outward fd other s h = ground arith

  reset_in_co_id_map_lem :
      (d : Direction) (fd : ℕ) (s : CoSocket K)
      → reset_in_co_id_map fd (flag d) s
        ≡ record s { co_id_map = assign s.co_id_map fd (with_slot d none (s.co_id_map fd)) }
  unfolding reset_in_co_id_map
  reset_in_co_id_map_lem inward fd s = refl
  reset_in_co_id_map_lem outward fd s = refl

-- What the coroutines of a watcher wait for, as epoll counts it: 1 for input, 4 for output.
abbrev pub asked_for : FdWatcher → ℕ
asked_for w =
    (elim w.read_co_id [ none ↦ 0 | some co ↦ 1 ]) + (elim w.write_co_id [ none ↦ 0 | some co ↦ 4 ])

pub get_events-asked_for : (w : FdWatcher) → get_events w ≡ asked_for w
unfolding get_events
get_events-asked_for w = elim (Option-cases w.read_co_id) [
  | inl e ↦ elim (Option-cases w.write_co_id) [
    | inl f ↦ rw (e, f) refl
    | inr (b, f) ↦ rw (e, f) refl
  ]
  | inr (a, e) ↦ elim (Option-cases w.write_co_id) [
    | inl f ↦ rw (e, f) refl
    | inr (b, f) ↦ rw (e, f) refl
  ]
]

-- The interest of the poller is that of the watchers, in every descriptor that can be polled.
abbrev pub IsSynced : {K : Type 0} → EpollKernel K → CoSocket K → Type 0
IsSynced kernel t =
    (j : ℕ)
    → kernel.CanPoll t.epoller j
    → kernel.registered t.epoller j ≡ interest (asked_for (t.co_id_map j))

module _ {K : Type 0} (kernel : EpollKernel K) (d : Direction) (fd : ℕ) (s : CoSocket K) where
  open kernel use {registered, CanPoll}

  -- The watcher of the descriptor with `co` in the place of the direction, and the poller told of it.
  abbrev pub watched : Option ℕ → Option ℕ → CoSocket K
  watched co running =
      let w = with_slot d co (s.co_id_map fd) in
      record s {
        co_id_map = assign s.co_id_map fd w;
        epoller = (update kernel fd (get_events w) s.epoller).1;
        running = running;
      }

  -- Waiting for a free direction of a descriptor that can be polled: the running coroutine is entered
  -- as its watcher, the poller is told, and the coroutine yields.
  pub add_event_free :
      slot d (s.co_id_map fd) ≡ none
      → CanPoll s.epoller fd
      → add_event_and_yield kernel fd (flag d) s ≡ (yielded, watched s.running none)
  unfolding add_event_and_yield
  add_event_free h open_fd =
      let w = with_slot d s.running (s.co_id_map fd) in
      rw (save_free d fd s h, ==_refl fd, (update_lem kernel fd (get_events w) s.epoller open_fd).0)

  -- A direction that another coroutine waits for is refused, and nothing changes.
  pub add_event_taken :
      (other : ℕ)
      → slot d (s.co_id_map fd) ≡ some other
      → add_event_and_yield kernel fd (flag d) s ≡ (duplicate, s)
  unfolding add_event_and_yield
  add_event_taken other h = rw (save_taken d fd other s h)

  pub delete_event_lem :
      CanPoll s.epoller fd → delete_event kernel fd (flag d) s ≡ (true, watched none s.running)
  unfolding delete_event
  delete_event_lem open_fd =
      let w = with_slot d none (s.co_id_map fd) in
      rw (
        get_events_without d (s.co_id_map fd),
        (update_lem kernel fd (get_events w) s.epoller open_fd).0,
        reset_in_co_id_map_lem d fd,
      )

  -- A change of a watcher that the poller is told of keeps the two in step, in every descriptor.
  pub watched-IsSynced :
      (co running : Option ℕ)
      → CanPoll s.epoller fd
      → IsSynced kernel s
      → IsSynced kernel (watched co running)
  watched-IsSynced co running open_fd synced j h =
      let w = with_slot d co (s.co_id_map fd) in
      elim (ℕ_discrete fd j) [
        | yes e ↦
            subst
              (λ x.
                registered (watched co running).epoller x
                ≡ interest (asked_for ((watched co running).co_id_map x)))
              e
              (rw (==_refl fd) (
                (update_lem kernel fd (get_events w) s.epoller open_fd).1
                ∙ ap interest (get_events-asked_for w)))
        | no n ↦
            let miss : (fd == j) ≡ false = ground arith in
            rw miss (
              update_others kernel fd (get_events w) s.epoller j (λ q. n (sym q))
              ∙ synced j ((update-CanPoll kernel fd (get_events w) s.epoller j).0 h))
      ]
