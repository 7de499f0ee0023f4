-- ===== src/CoSocket/Events/Handler.antt =====
-- Whom `EventHandler` wakes.
use co_socket.Prelude.{ℕ, ◌≡◌, refl, ==_refl, none, some, arith}
use co_socket.CoSocket.State.{CoSocket}
use co_socket.CoSocket.Events.{
  Direction, inward, outward, flag, event_handler, yielded, add_event_and_yield,
}
use co_socket.Epoller.{EpollKernel}
use co_socket.CoSocket.Events.Sync.{slot, watched, add_event_free}

module _ {K : Type 0} (resume : ℕ → CoSocket K → CoSocket K) (fd : ℕ) (s : CoSocket K) where
  -- An event of one direction wakes nobody, if nobody waits for it.
  pub event_handler_free :
      (d : Direction) → slot d (s.co_id_map fd) ≡ none → event_handler resume fd (flag d) s ≡ s
  unfolding event_handler
  event_handler_free inward h = ground arith
  event_handler_free outward h = ground arith

abbrev pub opposite : Direction → Direction
opposite inward = outward
opposite outward = inward

-- The events of epoll: input and output, and an error and a hang-up.
abbrev pub bit_of : Direction → ℕ
bit_of inward = 1
bit_of outward = 4

-- Behind a coroutine that waited for input, the one that is by then entered for output.
abbrev pub then_writer :
    {K : Type 0} → (ℕ → CoSocket K → CoSocket K) → ℕ → Direction → CoSocket K → CoSocket K
then_writer resume fd outward u = u
then_writer resume fd inward u = elim (u.co_id_map fd).write_co_id [
  | none ↦ u
  | some writer ↦ resume writer u
]

module _ {K : Type 0} (kernel : EpollKernel K) (resume : ℕ → CoSocket K → CoSocket K) (fd co : ℕ)
    (s : CoSocket K) (running : s.running ≡ some co) (open_fd : kernel.CanPoll s.epoller fd) where
  abbrev waiting : Direction → CoSocket K
  waiting d = watched kernel d fd s (some co) none

  abbrev handled : Direction → ℕ → CoSocket K
  handled d events = event_handler resume fd events (waiting d)

  handled_own : (d : Direction) → handled d (bit_of d) ≡ resume co (waiting d)
  unfolding event_handler
  handled_own inward = ground (arith, ==_refl fd)
  handled_own outward = ground (arith, ==_refl fd)

  handled_other :
      (d : Direction)
      → slot (opposite d) (s.co_id_map fd) ≡ none
      → handled d (bit_of (opposite d)) ≡ waiting d
  unfolding event_handler
  handled_other inward h = ground (arith, ==_refl fd)
  handled_other outward h = ground (arith, ==_refl fd)

  handled_error :
      (d : Direction)
      → slot (opposite d) (s.co_id_map fd) ≡ none
      → (handled d 8 ≡ then_writer resume fd d (resume co (waiting d)))
        × (handled d 16 ≡ then_writer resume fd d (resume co (waiting d)))
  unfolding event_handler
  handled_error inward h = (ground (arith, ==_refl fd), ground (arith, ==_refl fd))
  handled_error outward h = (ground (arith, ==_refl fd), ground (arith, ==_refl fd))

  -- A coroutine that waits for one direction of a descriptor that can be polled, for which nobody
  -- waited in either direction, yields, and is resumed by an event of that direction; an event of
  -- the other direction wakes nobody; an error (8) and a hang-up (16) resume it too, and, if it
  -- waited for input, behind it the coroutine that is by then entered for output.
  pub event_handler-add_event_and_yield :
      (d : Direction)
      → slot d (s.co_id_map fd) ≡ none
      → slot (opposite d) (s.co_id_map fd) ≡ none
      → let (answer, t) = add_event_and_yield kernel fd (flag d) s in
        (answer ≡ yielded)
        × (event_handler resume fd (bit_of d) t ≡ resume co t)
        × (event_handler resume fd (bit_of (opposite d)) t ≡ t)
        × (event_handler resume fd 8 t ≡ then_writer resume fd d (resume co t))
        × (event_handler resume fd 16 t ≡ then_writer resume fd d (resume co t))
  event_handler-add_event_and_yield d free other =
      let (error, hang_up) = handled_error d other in
      rw (add_event_free kernel d fd s free open_fd, running)
        (refl, handled_own d, handled_other d other, error, hang_up)
