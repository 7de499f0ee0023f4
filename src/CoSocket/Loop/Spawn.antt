-- ===== src/CoSocket/Loop/Spawn.antt =====
-- A coroutine that is made inside another one.
use co_socket.Prelude.{ℕ, ◌≡◌, Option, some, [], ◌∷◌, ◌++◌}
use co_socket.CoSocket.State.{CoSocket}
use co_socket.CoSocket.Loop.{new_coroutine}

-- The function is kept for the event loop.
pub new_coroutine_kept :
    {K : Type 0} (resume : ℕ → CoSocket K → CoSocket K)
    (create : ℕ → CoSocket K → Option ℕ × CoSocket K) (func co : ℕ) (s : CoSocket K)
    → s.running ≡ some co
    → new_coroutine resume create func s ≡ record s { co_func_list = s.co_func_list ++ func ∷ [] }
unfolding new_coroutine
new_coroutine_kept resume create func co s running = simp (running, new_coroutine)
