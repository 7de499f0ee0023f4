-- ===== src/CoSocket/Blocking/Answers.antt =====
-- Calls that need not wait.
use co_socket.Prelude.{ℕ, suc, ◌≡◌, ap, arith, false}
use co_socket.Prelude.Int.{ℤ, pos, negsuc}
use co_socket.Timestamp.{Timestamp}
use co_socket.Epoller.{EpollKernel}
use co_socket.CoSocket.State.{CoSocket}
use co_socket.CoSocket.Blocking.{Answer, result, error, returned, accept, accept_waits}

module _ {K : Type 0} (kernel : EpollKernel K) (fd : ℕ) (timeout : ℤ) (now : Timestamp)
    (answer again : Answer) (s : CoSocket K) where
  pub accept_result :
      (n : ℕ) → answer ≡ result n → accept kernel fd timeout now answer again s ≡ returned (pos n) s
  unfolding accept
  accept_result n e = rw e

  pub accept_refused :
      (e : ℕ)
      → answer ≡ error (suc e)
      → accept_waits (suc e) ≡ false
      → accept kernel fd timeout now answer again s ≡ returned (negsuc e) s
  unfolding accept
  accept_refused e same known = rw (same, accept, known) (ap (λ r. returned r s) (ground arith))
