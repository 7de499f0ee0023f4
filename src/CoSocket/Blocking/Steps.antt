-- ===== src/CoSocket/Blocking/Steps.antt =====
-- The scheduler as a transition system: a state with what each coroutine waits for, and the steps by
-- which the running coroutine makes a call, a waiting one ends its call, and everything else goes on.
pub mod Watchers
pub mod Ends
pub mod Begins
pub mod Sound
use co_socket.Prelude.{ℕ, ◌≡◌, Option, none, some}
use co_socket.Prelude.Int.{ℤ}
use co_socket.Timestamp.{Timestamp}
use co_socket.Epoller.{EpollKernel}
use co_socket.CoSocket.State.{CoSocket, assign, new_co_socket}
use co_socket.CoSocket.Events.{Direction}
use co_socket.CoSocket.Blocking.{returned, waiting, begin, finish}

-- The locals of a call at its yield, and the answer of its second system call.
pub record Wait : Type 0 where
  pub direction : Direction
  pub fd : ℕ
  pub timeout : ℤ
  pub answer : ℤ

pub record System (K : Type 0) : Type 0 where
  pub scheduler : CoSocket K
  pub waits : ℕ → Option Wait

-- A new scheduler: nobody waits.
abbrev pub at_start : {K : Type 0} → K → System K
at_start k = record { scheduler = new_co_socket k; waits = λ co. none }

module _ {K : Type 0} (kernel : EpollKernel K) where
  infix 4 ◌⟶◌
  pub data ◌⟶◌ : System K → System K → Type 0 where
    -- The running coroutine waits for a descriptor.
    yields :
        {r : System K} (co : ℕ) (w : Wait) (now : Timestamp) {t : CoSocket K}
        → r.scheduler.running ≡ some co
        → r.waits co ≡ none
        → kernel.CanPoll r.scheduler.epoller w.fd
        → begin kernel w.direction w.fd w.timeout now w.answer r.scheduler ≡ waiting t
        → r ⟶ record { scheduler = t; waits = assign r.waits co (some w) }
    -- Its call returns at once.
    refused :
        {r : System K} (co : ℕ) (w : Wait) (now : Timestamp) (ret : ℤ) {t : CoSocket K}
        → r.scheduler.running ≡ some co
        → r.waits co ≡ none
        → kernel.CanPoll r.scheduler.epoller w.fd
        → begin kernel w.direction w.fd w.timeout now w.answer r.scheduler ≡ returned ret t
        → r ⟶ record { scheduler = t; waits = r.waits }
    -- A waiting coroutine is resumed and ends its call.
    resumes :
        {r : System K} (co : ℕ) (w : Wait) (ret : ℤ) {t : CoSocket K}
        → r.scheduler.running ≡ some co
        → r.waits co ≡ some w
        → kernel.CanPoll r.scheduler.epoller w.fd
        → finish kernel w.direction w.fd w.timeout (some co) w.answer r.scheduler ≡ returned ret t
        → r ⟶ record { scheduler = t; waits = assign r.waits co none }
    -- Everything else: who runs, the conditions, the lists and the flag of the passes.
    elsewhere :
        {r : System K} {t : CoSocket K}
        → t.co_id_map ≡ r.scheduler.co_id_map
        → t.timeouts ≡ r.scheduler.timeouts
        → t.epoller ≡ r.scheduler.epoller
        → r ⟶ record { scheduler = t; waits = r.waits }

  -- What a scheduler with a new poller can become.
  pub data Reach (k : K) : System K → Type 0 where
    begun : Reach k (at_start k)
    next : {r t : System K} → Reach k r → r ⟶ t → Reach k t
