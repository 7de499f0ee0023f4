-- ===== src/Tests/Channels.antt =====
-- A reader that sleeps on an empty queue, and a writer, as steps.
use co_socket.Prelude.{ℕ, ◌≡◌, refl, some, [], arith}
use co_socket.CoSocket.State.{CoSocket, new_co_socket}
use co_socket.CoSocket.Conditions.{CoQueue, new_queue}
use co_socket.CoSocket.Conditions.Channel.{
  Channel, start_channel, enque_call, deque_round, enques, deques, elsewhere, Reach, begun, next,
}
use co_socket.CoSocket.Conditions.Channel.Delivered.{Reach-IsDelivering}
use co_socket.CoSocket.Conditions.Channel.Calls.{IsDelivering}

-- Coroutine 1 runs, and makes the queue.
abbrev maker : CoSocket ℕ
maker = record (new_co_socket 0) { running = some 1 }

abbrev queue : CoQueue ℕ
queue = record { condition = 0; queue = [] }

abbrev made : CoSocket ℕ
made = record maker { condition_counter = 1 }

made_from_new : new_queue maker ≡ some (queue, made)
unfolding new_queue
made_from_new = refl

-- It sleeps, coroutine 2 puts 7 in and yields.
abbrev sleeping : Channel ℕ ℕ
sleeping = deque_round 1 (start_channel queue 0 made)

abbrev filled : Channel ℕ ℕ
filled =
    enque_call 7 (record sleeping { scheduler = record sleeping.scheduler { running = some 2 } })

reached : Reach filled
reached =
    next
      (next (next (begun maker 0 made_from_new (omega arith)) (deques 1 refl))
        (elsewhere (record sleeping.scheduler { running = some 2 }) refl refl))
      (enques 7)

Reach-IsDelivering_example : IsDelivering filled
Reach-IsDelivering_example = Reach-IsDelivering filled reached
