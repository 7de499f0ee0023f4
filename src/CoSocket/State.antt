-- ===== src/CoSocket/State.antt =====
-- CoSocket/net/CoSocket.h: the members of `CoSocket` and `FdWatcher`. A coroutine's number is a
-- natural number, and -1 for none is `none`; a `std::map` with `operator[]` is a function with the
-- default value for a key that is not there; a `std::set<int>` is the list of its elements in
-- ascending order. A function object is a number that stands for it.
use co_socket.Prelude.{ℕ, Bool, true, false, Option, none, some, List, [], ◌==◌, if◌then◌else◌}
use co_socket.TimeoutSet.{TimeoutSet, empty}

pub record FdWatcher : Type 0 where
  pub read_co_id : Option ℕ
  pub write_co_id : Option ℕ

abbrev pub no_watcher : FdWatcher
no_watcher = record { read_co_id = none; write_co_id = none }

abbrev pub is_set : Option ℕ → Bool
is_set none = false
is_set (some co) = true

abbrev pub has_read_coroutine : FdWatcher → Bool
has_read_coroutine w = is_set w.read_co_id

abbrev pub has_write_coroutine : FdWatcher → Bool
has_write_coroutine w = is_set w.write_co_id

-- `SetReadCoId` and `SetWriteCoId`: false if another coroutine is set.
unfoldable pub set_read_co_id : Option ℕ → FdWatcher → Bool × FdWatcher
set_read_co_id co w =
    if has_read_coroutine w then (false, w) else (true, record w { read_co_id = co })

unfoldable pub set_write_co_id : Option ℕ → FdWatcher → Bool × FdWatcher
set_write_co_id co w =
    if has_write_coroutine w then (false, w) else (true, record w { write_co_id = co })

unfoldable pub reset_read_co_id : FdWatcher → FdWatcher
reset_read_co_id w = record w { read_co_id = none }

unfoldable pub reset_write_co_id : FdWatcher → FdWatcher
reset_write_co_id w = record w { write_co_id = none }

-- `epoller` is the kernel's side of the poller, and `running` the answer of `coroutine_running`.
pub record CoSocket (K : Type 0) : Type 0 where
  pub condition_counter : ℕ
  pub condition_map : ℕ → List ℕ
  pub wait_resume_list : List ℕ
  pub handling_timeout : Bool
  pub co_func_list : List ℕ
  pub timeouts : TimeoutSet
  pub co_id_map : ℕ → FdWatcher
  pub epoller : K
  pub running : Option ℕ

-- The constructor, with a new poller `k`.
abbrev pub new_co_socket : {K : Type 0} → K → CoSocket K
new_co_socket k = record {
  condition_counter = 0;
  condition_map = λ _. [];
  wait_resume_list = [];
  handling_timeout = false;
  co_func_list = [];
  timeouts = empty;
  co_id_map = λ _. no_watcher;
  epoller = k;
  running = none;
}

-- An assignment to the entry of a key.
abbrev pub assign {ℓ} : {A : Type ℓ} → (ℕ → A) → ℕ → A → ℕ → A
assign m k v j = if k == j then v else m j
