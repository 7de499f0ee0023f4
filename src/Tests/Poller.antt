-- ===== src/Tests/Poller.antt =====
-- A poller with one table of interests, which has all that is documented of the kernel's.
use co_socket.Prelude.{ℕ, ◌≡◌, ◌≢◌, refl, Option, none, some, ◌==◌, if◌then◌else◌, arith, ==_refl}
use co_socket.Epoller.{Operation, add, del, mod_events, enoent, eexist, EpollKernel, update}
use co_socket.Epoller.Laws.{interest, update_lem}

-- Every descriptor is open.
abbrev pub Table : Type 0
Table = ℕ → Option ℕ

abbrev store : ℕ → Option ℕ → Table → Table
store fd events k j = if fd == j then events else k j

abbrev control_at : Operation → Option ℕ → ℕ → ℕ → Table → ℕ × Table
control_at add none fd events k = (0, store fd (some events) k)
control_at add (some old) fd events k = (eexist, k)
control_at mod_events none fd events k = (enoent, k)
control_at mod_events (some old) fd events k = (0, store fd (some events) k)
control_at del none fd events k = (enoent, k)
control_at del (some old) fd events k = (0, store fd none k)

pub control_at-others :
    (op : Operation) (found : Option ℕ) (fd events other : ℕ) (k : Table)
    → other ≢ fd
    → (control_at op found fd events k).1 other ≡ k other
control_at-others add none fd events other k h = ground arith
control_at-others add (some old) fd events other k h = refl
control_at-others mod_events none fd events other k h = refl
control_at-others mod_events (some old) fd events other k h = ground arith
control_at-others del none fd events other k h = refl
control_at-others del (some old) fd events other k h = ground arith

abbrev pub table : EpollKernel Table
table = record {
  control = λ op fd events k. control_at op (k fd) fd events k;
  registered = λ k. k;
  CanPoll = λ k fd. Unit;
  add_new = λ k fd events h e. rw (e, ==_refl fd) (refl, refl);
  add_old = λ k fd events old h e. rw e;
  mod_old = λ k fd events old h e. rw (e, ==_refl fd) (refl, refl);
  del_old = λ k fd events old h e. rw (e, ==_refl fd) (refl, refl);
  del_none = λ k fd events h e. rw e;
  others = λ op fd events other k h. control_at-others op (k fd) fd events other k h;
  still_open = λ op fd events other k. ((λ h. h), (λ h. h));
}

abbrev pub closed : Table
closed fd = none

update_lem_example :
    ((update table 5 0 closed).0 ≡ 0)
    × (table.registered (update table 5 0 closed).1 5 ≡ interest 0)
update_lem_example = update_lem table 5 0 closed tt
