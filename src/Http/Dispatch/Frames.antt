-- ===== src/Http/Dispatch/Frames.antt =====
-- The frames of an answer: `ResponseWebSocketData` runs out of them.
use co_socket.Prelude.{
  not, ◌&&◌, ◌==◌, if◌then◌else◌, Option, refl, ℕ, zero, suc, ◌+◌, ◌-◌, ◌<◌, ◌≡◌, Bool, true, false,
  some, [], ◌∷◌, List, Bytes, arith, inl, inr, Bool-cases, length,
}
use co_socket.Prelude.Int.{ℤ, pos, negsuc}
use co_socket.WebSocket.Encoder.{WebSocketEncoder, is_complete, get_frame}
use co_socket.WebSocket.Encoder.Message.{send, send_complete, send_round}
use co_socket.WebSocket.Encoder.Progress.{IsFinite, get_frame-IsFinite}
use co_socket.Http.Dispatch.Serve.{response, response_web_socket_data}

-- With a frame size that is not 0 the loop over the frames of an answer comes to an end.
pub response_web_socket_data_total :
    (fuel i : ℕ) (write : ℕ → Bytes → ℤ) (e : WebSocketEncoder)
    → IsFinite e
    → e.len - e.offset < fuel
    → (sent : Bool) × (response_web_socket_data fuel i write e ≡ some sent)
unfolding response_web_socket_data
response_web_socket_data_total zero i write e h enough = absurd (omega arith)
response_web_socket_data_total (suc fuel) i write e h enough = elim (Bool-cases (is_complete e)) [
  | inl whole ↦ (true, rw (whole, response_web_socket_data))
  | inr more ↦
      let (finite, less) = get_frame-IsFinite [] e h more in
      let (sent, rest) =
        response_web_socket_data_total fuel (i + 1) write (get_frame [] e).1 finite (omega arith) in
      elim (Bool-cases (response (write i (get_frame [] e).0) (length (get_frame [] e).0))) [
        | inl ok ↦ (sent, rw (more, response_web_socket_data, ok, rest))
        | inr bad ↦ (false, rw (more, response_web_socket_data, bad))
      ]
]

-- Whether write `i` and those behind it take the frames of a list, each whole.
abbrev pub all_taken : (ℕ → Bytes → ℤ) → ℕ → List Bytes → Bool
all_taken write i [] = true
all_taken write i (f ∷ fs) =
    (elim (write i f) [ pos n ↦ n == length f | negsuc n ↦ false ]) && all_taken write (i + 1) fs

taken_round :
    (answer : ℤ) (len : ℕ) (later : Bool) (rest : Option Bool)
    → rest ≡ some later
    → (if not (response answer len) then some false else rest)
      ≡ some ((elim answer [ pos n ↦ n == len | negsuc n ↦ false ]) && later)
unfolding response
taken_round (pos n) len later rest h = elim (Bool-cases (n == len)) [
  | inl e ↦ rw e h
  | inr e ↦ rw e
]
taken_round (negsuc n) len later rest h = refl

-- The loop answers whether the frames of the encoder were all taken, each whole and in their order.
pub response_web_socket_data_taken :
    (fuel i r : ℕ) (write : ℕ → Bytes → ℤ) (e : WebSocketEncoder)
    → IsFinite e
    → e.len - e.offset < fuel
    → response_web_socket_data fuel i write e ≡ some (all_taken write i (send fuel r (λ j. []) e))
unfolding response_web_socket_data
response_web_socket_data_taken zero i r write e h enough = absurd (omega arith)
response_web_socket_data_taken (suc fuel) i r write e h enough = elim (Bool-cases (is_complete e)) [
  | inl whole ↦ rw (whole, response_web_socket_data, send_complete (suc fuel) r (λ j. []) e whole)
  | inr more ↦
      let (finite, less) = get_frame-IsFinite [] e h more in
      let rest =
        response_web_socket_data_taken fuel (i + 1) (r + 1) write (get_frame [] e).1 finite
          (omega arith) in
      rw (more, response_web_socket_data, send_round fuel r (λ j. []) e more)
        (taken_round (write i (get_frame [] e).0) (length (get_frame [] e).0) _ _ rest)
]
