-- ===== src/Tests/Steps.antt =====
-- A coroutine that waits, as steps of the scheduler.
use co_socket.Prelude.{◌≡◌, refl, false, none, some}
use co_socket.Prelude.Int.{pos}
use co_socket.Timestamp.{Timestamp}
use co_socket.TimeoutSet.Laws.{empty-IsConsistent}
use co_socket.CoSocket.State.{CoSocket, new_co_socket, assign}
use co_socket.CoSocket.Events.{inward}
use co_socket.CoSocket.Events.Sync.{IsSynced}
use co_socket.CoSocket.Blocking.{waiting, begin}
use co_socket.CoSocket.Blocking.Restore.{at_yield, begin-Restored}
use co_socket.CoSocket.Blocking.Steps.{Wait, System, yields, elsewhere, Reach, begun, next}
use co_socket.CoSocket.Blocking.Steps.Ends.{IsSound}
use co_socket.CoSocket.Blocking.Steps.Sound.{Reach-IsSound}
use co_socket.Tests.Poller.{Table, table, closed}

abbrev now : Timestamp
now = record { tv_sec = pos 3; tv_usec = pos 0 }

-- Coroutine 1 runs and reads from descriptor 5, for 20 milliseconds at most.
abbrev running : CoSocket Table
running = record (new_co_socket closed) { running = some 1 }

abbrev wait : Wait
wait = record { direction = inward; fd = 5; timeout = pos 20; answer = pos 4 }

running-IsSynced : IsSynced table running
running-IsSynced j h = refl

begins :
    begin table inward 5 (pos 20) now (pos 4) running
    ≡ waiting (at_yield table inward 5 1 (pos 20) now running)
begins =
    (begin-Restored table inward 5 1 (pos 20) now running refl refl tt refl empty-IsConsistent
      running-IsSynced (pos 4) false).0

abbrev yielded : System Table
yielded = record {
  scheduler = at_yield table inward 5 1 (pos 20) now running;
  waits = assign (λ co. none) 1 (some wait);
}

reached : Reach table closed yielded
reached =
    next (next begun (elsewhere {t = running} refl refl refl))
      (yields 1 wait now refl refl tt begins)

Reach-IsSound_example : IsSound table yielded
Reach-IsSound_example = Reach-IsSound table closed (λ fd h. refl) yielded reached
