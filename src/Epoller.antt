-- ===== src/Epoller.antt =====
-- CoSocket/net/Epoller.cpp: the event poller. The kernel's `epoll_ctl` and `epoll_wait` are not in the
-- repository: the kernel's state is a type `K`, and what epoll(7) documents of it are the fields of
-- `EpollKernel`.
pub mod Laws
use co_socket.Prelude.{
  ℕ, ◌*◌, ◌≡◌, ◌≢◌, ◌↔◌, Bool, true, false, ◌&&◌, not, Option, none, some, List, [], ◌∷◌, ◌==◌,
  if◌then◌else◌, length,
}

-- `EPOLL_CTL_ADD`, `EPOLL_CTL_DEL` and `EPOLL_CTL_MOD`.
pub data Operation : Type 0 where
  add del mod_events : Operation

-- `ENOENT` and `EEXIST`.
abbrev pub enoent : ℕ
enoent = 2

abbrev pub eexist : ℕ
eexist = 17

-- `control` is `EpollCtl`: the call of `epoll_ctl`, which returns 0 or `errno`. The laws are those of
-- a descriptor that is open and can be polled.
pub record EpollKernel (K : Type 0) : Type 1 where
  pub control : Operation → ℕ → ℕ → K → ℕ × K
  pub registered : K → ℕ → Option ℕ
  pub CanPoll : K → ℕ → Type 0
  pub add_new :
      (k : K) (fd events : ℕ)
      → CanPoll k fd
      → registered k fd ≡ none
      → ((control add fd events k).0 ≡ 0)
        × (registered (control add fd events k).1 fd ≡ some events)
  pub add_old :
      (k : K) (fd events old : ℕ)
      → CanPoll k fd
      → registered k fd ≡ some old
      → control add fd events k ≡ (eexist, k)
  pub mod_old :
      (k : K) (fd events old : ℕ)
      → CanPoll k fd
      → registered k fd ≡ some old
      → ((control mod_events fd events k).0 ≡ 0)
        × (registered (control mod_events fd events k).1 fd ≡ some events)
  pub del_old :
      (k : K) (fd events old : ℕ)
      → CanPoll k fd
      → registered k fd ≡ some old
      → ((control del fd events k).0 ≡ 0) × (registered (control del fd events k).1 fd ≡ none)
  pub del_none :
      (k : K) (fd events : ℕ)
      → CanPoll k fd
      → registered k fd ≡ none
      → control del fd events k ≡ (enoent, k)
  pub others :
      (op : Operation) (fd events other : ℕ) (k : K)
      → other ≢ fd
      → registered (control op fd events k).1 other ≡ registered k other
  pub still_open :
      (op : Operation) (fd events other : ℕ) (k : K)
      → CanPoll (control op fd events k).1 other ↔ CanPoll k other

module _ {K : Type 0} (kernel : EpollKernel K) where
  open kernel use {control}

  -- The two retries of `Update` on the result of the first call; the code returns the negative of
  -- what is returned here.
  pub retry : Operation → ℕ → ℕ → ℕ × K → ℕ × K
  retry del fd events (ret, k) = if ret == enoent then (0, k) else (ret, k)
  retry add fd events (ret, k) = if ret == eexist then control mod_events fd events k else (ret, k)
  retry mod_events fd events (ret, k) = (ret, k)

  pub update : ℕ → ℕ → K → ℕ × K
  unfolding retry
  update fd events k =
      let op = if events == 0 then del else add in retry op fd events (control op fd events k)

-- The descriptor of the poller and the size of its list of events.
pub record Epoller : Type 0 where
  pub epoll_fd : ℕ
  pub list_size : ℕ

-- The constructor, with the descriptor that it made; `none` is its exit. 16 is
-- `kInitEventListSize`.
pub new_epoller : Option ℕ → Option Epoller
new_epoller none = none
new_epoller (some fd) = some (record { epoll_fd = fd; list_size = 16 })

-- The destructor: the descriptor that it closes.
pub closed_at_end : Epoller → ℕ
closed_at_end e = e.epoll_fd

-- What `epoll_wait` returned: an error, an interruption, or the events with their descriptors.
pub data Polled : Type 0 where
  interrupted : Polled
  failed : Polled
  ready : List (ℕ × ℕ) → Polled

abbrev pub handle_all {ℓ} : {S : Type ℓ} → (ℕ → ℕ → S → S) → List (ℕ × ℕ) → S → S
handle_all handler [] s = s
handle_all handler ((fd, events) ∷ rest) s = handle_all handler rest (handler fd events s)

-- `Poll` on the answer of `epoll_wait`: the handler is called on each event in turn, and a list that
-- was filled is doubled. The result has the size of the list; `none` is the exit of the program.
unfoldable pub poll {ℓ} : {S : Type ℓ} → (ℕ → ℕ → S → S) → ℕ → Polled → S → Option (ℕ × S)
poll handler size interrupted s = some (size, s)
poll handler size failed s = none
poll handler size (ready events) s =
    some ((if length events == size then length events * 2 else size), handle_all handler events s)
