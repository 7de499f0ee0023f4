-- ===== src/Examples/Throughput/Relayed.antt =====
-- Nothing is lost between the reader and the writer.
use co_socket.Prelude.{
  ℕ, ◌≡◌, refl, sym, ap, subst, ◌∙◌, true, false, Bool-cases, inl, inr, List, [], ◌∷◌, ◌++◌,
  append_assoc, append-nil, Bytes, length, take, drop, take-append,
}
use co_socket.Prelude.Int.{ℤ}
use co_socket.Tcp.{Received, failed, received}
use co_socket.CoSocket.State.{CoSocket}
use co_socket.CoSocket.Conditions.{CoQueue, enque, deque}
use co_socket.CoSocket.Conditions.Wakeups.{new_queue-empty, deque-cons, deque-nil}
use co_socket.CoSocket.Buffer.{Buffer, new_buffer, stop, is_stop, set_size}
use co_socket.Examples.Forward.{wrote_all}
use co_socket.Examples.Throughput.{
  writes, stopped, gave_up, Relay, stop_writer, read_round, write_buffer, after_deque, write_round,
  start_relay, ◌⟶◌, reads, writes_one, elsewhere, Reach, begun, next,
}
use co_socket.Examples.Throughput.Queued.{
  true_is_false, chunk, pending, NoStop, StopLast, pending-append, NoStop-append, StopLast-append,
}

module _ {K : Type 0} where
  pub record Relayed (r : Relay K) : Type 0 where
    pub open_end : r.reads_on ≡ true → NoStop r.queue.queue
    pub closed_end : r.reads_on ≡ false → r.writing ≡ writes → StopLast r.queue.queue
    pub in_order : r.writing ≡ writes → r.written ++ pending r.queue.queue ≡ r.read
    pub complete : r.writing ≡ stopped → (r.reads_on ≡ false) × (r.written ≡ r.read)
    pub prefix : (rest : Bytes) × (r.written ++ rest ≡ r.read)

  begun-Relayed : (s : CoSocket K) (q : CoQueue Buffer) → q.queue ≡ [] → Relayed (start_relay q s)
  begun-Relayed s q empty = record {
    open_end = λ e. subst NoStop (sym empty) tt;
    closed_end = λ e w. cc;
    in_order = λ w. ap pending empty;
    complete = λ w. cc;
    prefix = ([], refl);
  }

  stop-Relayed :
      (unset : Bytes) (r : Relay K) → r.reads_on ≡ true → Relayed r → Relayed (stop_writer unset r)
  unfolding enque stop
  stop-Relayed unset r on h = record {
    open_end = λ e. cc;
    closed_end = λ e w. StopLast-append r.queue.queue _ (h.open_end on) refl;
    in_order = λ w. cc (
      pending-append r.queue.queue (stop (new_buffer 4 unset)),
      append-nil (pending r.queue.queue),
      h.in_order w,
    );
    complete = λ w. (refl, (h.complete w).1);
    prefix = h.prefix;
  }

  data-Relayed :
      (buffer_size : ℕ) (unset : Bytes) (b : ℕ) (bs : Bytes) (r : Relay K)
      → r.reads_on ≡ true
      → Relayed r
      → Relayed (read_round buffer_size unset (received (b ∷ bs)) r)
  unfolding read_round enque set_size
  data-Relayed buffer_size unset b bs r on h = record {
    open_end = λ e. NoStop-append r.queue.queue _ (h.open_end on) refl;
    closed_end = λ e w. cc;
    in_order = λ w. cc (
      pending-append r.queue.queue (
          set_size (length (b ∷ bs))
            (new_buffer buffer_size ((b ∷ bs) ++ drop (length (b ∷ bs)) unset))),
      take-append (length bs) bs (drop (length (b ∷ bs)) unset) refl,
      append_assoc r.written (pending r.queue.queue) (b ∷ bs),
      h.in_order w,
    );
    complete = λ w. cc (on, (h.complete w).0);
    prefix = (h.prefix.0 ++ b ∷ bs, cc (append_assoc r.written h.prefix.0 (b ∷ bs), h.prefix.1));
  }

  read-Relayed :
      (buffer_size : ℕ) (unset : Bytes) (answer : Received) (r : Relay K)
      → r.reads_on ≡ true
      → Relayed r
      → Relayed (read_round buffer_size unset answer r)
  unfolding read_round
  read-Relayed buffer_size unset (failed e) r on h = stop-Relayed unset r on h
  read-Relayed buffer_size unset (received []) r on h = stop-Relayed unset r on h
  read-Relayed buffer_size unset (received (b ∷ bs)) r on h =
      data-Relayed buffer_size unset b bs r on h

  -- The relay without the first buffer of its queue.
  abbrev popped : List Buffer → Relay K → Relay K
  popped rest r = record r { queue = record r.queue { queue = rest } }

  module _ (b : Buffer) (rest : List Buffer) (r : Relay K) (queued : r.queue.queue ≡ b ∷ rest)
      (on : r.writing ≡ writes) (h : Relayed r) where
    order_there : r.written ++ (chunk b ++ pending rest) ≡ r.read
    order_there = ap (λ q. r.written ++ pending q) (sym queued) ∙ h.in_order on

    open_there : r.reads_on ≡ true → (b.stopped ≡ false) × NoStop rest
    open_there e = subst NoStop queued (h.open_end e)

    closed_there : r.reads_on ≡ false → StopLast (b ∷ rest)
    closed_there e = subst StopLast queued (h.closed_end e on)

    all_written : b.stopped ≡ true → r.reads_on ≡ false → r.written ≡ r.read
    all_written stops e = elim (closed_there e) [
      | inl (_, empty) ↦
          let no_more : chunk b ++ pending rest ≡ [] = rw (stops, empty) in
          sym (append-nil r.written) ∙ ap (λ x. r.written ++ x) (sym no_more) ∙ order_there
      | inr (goes, _) ↦ absurd (true_is_false (sym stops ∙ goes))
    ]

    closed_rest : b.stopped ≡ false → r.reads_on ≡ false → StopLast rest
    closed_rest goes e = elim (closed_there e) [
      | inl (stops, _) ↦ absurd (true_is_false (sym stops ∙ goes))
      | inr (_, more) ↦ more
    ]

    order_taken : b.stopped ≡ false → (r.written ++ take b.size b.content) ++ pending rest ≡ r.read
    order_taken goes =
        let same : chunk b ≡ take b.size b.content = rw goes in
        cc (append_assoc r.written (take b.size b.content) (pending rest), same, order_there)

    stopped-Relayed : b.stopped ≡ true → Relayed (record (popped rest r) { writing = stopped })
    stopped-Relayed stops = elim (Bool-cases r.reads_on) [
      | inl e ↦ absurd (true_is_false (sym stops ∙ (open_there e).0))
      | inr e ↦ record {
        open_end = λ e'. (open_there e').1;
        closed_end = λ e' w. cc;
        in_order = λ w. cc;
        complete = λ w. (e, all_written stops e);
        prefix = h.prefix;
      }
    ]

    taken-Relayed :
        b.stopped ≡ false
        → Relayed (record (popped rest r) { written = r.written ++ take b.size b.content })
    taken-Relayed goes = record {
      open_end = λ e. (open_there e).1;
      closed_end = λ e w. closed_rest goes e;
      in_order = λ w. order_taken goes;
      complete = λ w. cc;
      prefix = (pending rest, order_taken goes);
    }

    cut-Relayed : Relayed (record (popped rest r) { writing = gave_up })
    cut-Relayed = record {
      open_end = λ e. (open_there e).1;
      closed_end = λ e w. cc;
      in_order = λ w. cc;
      complete = λ w. cc;
      prefix = h.prefix;
    }

    write_buffer-Relayed : (write : Bytes → ℤ) → Relayed (write_buffer write b (popped rest r))
    unfolding write_buffer is_stop
    write_buffer-Relayed write = elim (Bool-cases b.stopped) [
      | inl stops ↦ rw (stops, write_buffer) (stopped-Relayed stops)
      | inr goes ↦ elim (Bool-cases (wrote_all (write (take b.size b.content)) b.size)) [
        | inl whole ↦ rw (goes, write_buffer, whole) (taken-Relayed goes)
        | inr cut ↦ rw (goes, write_buffer, cut) cut-Relayed
      ]
    ]

  elsewhere-Relayed :
      (r : Relay K) (s : CoSocket K) → Relayed r → Relayed (record r { scheduler = s })
  elsewhere-Relayed r s h = record {
    open_end = h.open_end;
    closed_end = h.closed_end;
    in_order = h.in_order;
    complete = h.complete;
    prefix = h.prefix;
  }

  deque-Relayed :
      (write : Bytes → ℤ) (r : Relay K) (q : List Buffer)
      → r.queue.queue ≡ q
      → r.writing ≡ writes
      → Relayed r
      → Relayed (write_round write r)
  unfolding write_round after_deque deque
  deque-Relayed write r [] e on h =
      subst (λ x. Relayed (after_deque write x.0 (record r { queue = x.1; scheduler = x.2 })))
        (sym (deque-nil r.queue r.scheduler e)) (elsewhere-Relayed r _ h)
  deque-Relayed write r (b ∷ rest) e on h =
      subst (λ x. Relayed (after_deque write x.0 (record r { queue = x.1; scheduler = x.2 })))
        (sym (deque-cons r.queue r.scheduler b rest e)) (write_buffer-Relayed b rest r e on h write)

  step-Relayed : (r t : Relay K) → r ⟶ t → Relayed r → Relayed t
  step-Relayed r _ (reads size unset answer on) h = read-Relayed size unset answer r on h
  step-Relayed r _ (writes_one write on) h = deque-Relayed write r r.queue.queue refl on h
  step-Relayed r _ (elsewhere s) h = elsewhere-Relayed r s h

  Reach-Relayed : (r : Relay K) → Reach r → Relayed r
  Reach-Relayed _ (begun s {q = q} {s' = s'} e) = begun-Relayed s' q (new_queue-empty s s' q e)
  Reach-Relayed t (next {r = r} reach step) = step-Relayed r t step (Reach-Relayed r reach)

  -- In whatever order the two coroutines of a connection run, and whatever the calls answer: what was
  -- written is a beginning of what was read; while the writer goes on, the rest stands in the queue
  -- in its order; and when the stop buffer has ended it, all that was read has been written.
  pub relayed_in_order :
      (r : Relay K)
      → Reach r
      → ((rest : Bytes) × (r.written ++ rest ≡ r.read))
        × (r.writing ≡ writes → r.written ++ pending r.queue.queue ≡ r.read)
        × (r.writing ≡ stopped → r.written ≡ r.read)
  relayed_in_order r reach =
      let h = Reach-Relayed r reach in (h.prefix, h.in_order, λ w. (h.complete w).1)
