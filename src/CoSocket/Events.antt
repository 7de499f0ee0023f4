-- ===== src/CoSocket/Events.antt =====
-- CoSocket/net/CoSocket.cpp: the watchers of the descriptors and their events in the poller.
use Prim.Native.Nat.{bit_and, bit_or}
pub mod Sync
pub mod Handler
use co_socket.Prelude.{
  ℕ, ◌-◌, ◌^◌, Bool, true, false, not, ◌&&◌, ◌||◌, Option, none, some, List, [], ◌∷◌, ◌==◌,
  if◌then◌else◌,
}
use co_socket.Epoller.{EpollKernel, update}
use co_socket.CoSocket.State.{
  FdWatcher, CoSocket, has_read_coroutine, has_write_coroutine, set_read_co_id, set_write_co_id,
  reset_read_co_id, reset_write_co_id, assign,
}

-- `EPOLLIN`, `EPOLLOUT`, `EPOLLERR` and `EPOLLHUP`.
abbrev pub epollin : ℕ
epollin = 1

abbrev pub epollout : ℕ
epollout = 4

abbrev pub epollerr : ℕ
epollerr = 8

abbrev pub epollhup : ℕ
epollhup = 16

-- `events & flag`, as a condition.
abbrev pub has_flag : ℕ → ℕ → Bool
has_flag events flag = not (bit_and events flag == 0)

-- The two events that the calls wait for.
pub data Direction : Type 0 where
  inward outward : Direction

abbrev pub flag : Direction → ℕ
flag inward = epollin
flag outward = epollout

-- `GetEvents`, of a watcher.
unfoldable pub get_events : FdWatcher → ℕ
get_events w =
    bit_or (if has_read_coroutine w then epollin else 0)
      (if has_write_coroutine w then epollout else 0)

module _ {K : Type 0} where
  -- The second half of `SaveToCoIdMap`.
  pub save_write : ℕ → ℕ → CoSocket K → Bool × CoSocket K
  unfolding set_write_co_id
  save_write fd events s =
      if has_flag events epollout
      then if has_write_coroutine (s.co_id_map fd) then (false, s) else (
        true,
        record s {
          co_id_map = assign s.co_id_map fd (set_write_co_id s.running (s.co_id_map fd)).1;
        },
      )
      else (true, s)

  pub save_to_co_id_map : ℕ → ℕ → CoSocket K → Bool × CoSocket K
  unfolding save_write set_read_co_id
  save_to_co_id_map fd events s =
      if has_flag events epollin
      then if has_read_coroutine (s.co_id_map fd)
        then (false, s)
        else save_write fd events (record s {
          co_id_map = assign s.co_id_map fd (set_read_co_id s.running (s.co_id_map fd)).1;
        })
      else save_write fd events s

  pub reset_in_co_id_map : ℕ → ℕ → CoSocket K → CoSocket K
  unfolding reset_read_co_id reset_write_co_id
  reset_in_co_id_map fd events s =
      let w = s.co_id_map fd in
      let w' = if has_flag events epollin then reset_read_co_id w else w in
      let w'' = if has_flag events epollout then reset_write_co_id w' else w' in
      record s { co_id_map = assign s.co_id_map fd w'' }

-- How `AddEventAndYield` ends: with -1 and no yield, in `abort`, or at `coroutine_yield`.
pub data Added : Type 0 where
  duplicate aborted yielded : Added

module _ {K : Type 0} (kernel : EpollKernel K) where
  -- `AddEventAndYield` up to the yield, at which the coroutine stops running.
  pub add_event_and_yield : ℕ → ℕ → CoSocket K → Added × CoSocket K
  add_event_and_yield fd events s =
      let (saved, s') = save_to_co_id_map fd events s in
      let (ret, k) = update kernel fd (get_events (s'.co_id_map fd)) s'.epoller in
      if not saved
      then (duplicate, s')
      else if not (ret == 0)
      then (aborted, record s' { epoller = k })
      else (yielded, record s' { epoller = k; running = none })

  -- `DeleteEvent`; false is `abort`. `~events` is taken in 32 bits.
  pub delete_event : ℕ → ℕ → CoSocket K → Bool × CoSocket K
  delete_event fd events s =
      let new_events = bit_and (get_events (s.co_id_map fd)) (2 ^ 32 - 1 - events) in
      let (ret, k) = update kernel fd new_events s.epoller in
      if ret == 0
      then (true, reset_in_co_id_map fd events (record s { epoller = k }))
      else (false, record s { epoller = k })

abbrev pub resume_set : {S : Type 0} → (ℕ → S → S) → Option ℕ → S → S
resume_set resume none s = s
resume_set resume (some co) s = resume co s

-- `EventHandler`. `resume` is `coroutine_resume`, which runs a coroutine until it yields or ends; the
-- watcher is read anew after it, as the reference to it is.
unfoldable pub event_handler :
    {K : Type 0} → (ℕ → CoSocket K → CoSocket K) → ℕ → ℕ → CoSocket K → CoSocket K
event_handler resume fd events s =
    if not (has_read_coroutine (s.co_id_map fd)) && not (has_write_coroutine (s.co_id_map fd))
    then s
    else let error = has_flag events epollerr || has_flag events epollhup in
      let s' =
        if error || has_flag events epollin
        then resume_set resume (s.co_id_map fd).read_co_id s
        else s in
      if error || has_flag events epollout
      then resume_set resume (s'.co_id_map fd).write_co_id s'
      else s'
