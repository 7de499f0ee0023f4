-- ===== src/WebSocket/Encoder/Message.antt =====
-- A message in frames of a fixed size, from a client's encoder to the parser: the loop
-- `while (!IsComplete()) GetFrame()` and one `Parse` for each frame.
use co_socket.Prelude.{
  ℕ, zero, suc, ◌+◌, ◌≤◌, ◌<◌, ◌≡◌, ◌≢◌, refl, Bool, true, false, List, [], ◌∷◌, ◌++◌, arith, Bytes,
  IsByte, All, length, if◌then◌else◌, drop, length-drop,
}
use co_socket.WebSocket.Parser.{WebSocketParser, parse}
use co_socket.WebSocket.Parser.Decode.{IsIdle}
use co_socket.WebSocket.Encoder.{WebSocketEncoder, is_complete, get_frame}
use co_socket.WebSocket.Encoder.Rounds.{IsMask, Sending, left_over-length, encoded}
use co_socket.WebSocket.Encoder.Frames.{next_size}

-- The frames until the encoder is complete; round `r` draws the mask `masks r`.
unfoldable pub send : ℕ → ℕ → (ℕ → Bytes) → WebSocketEncoder → List Bytes
send zero r masks e = []
send (suc fuel) r masks e = elim (is_complete e) [
  | true ↦ []
  | false ↦ (get_frame (masks r) e).0 ∷ send fuel (r + 1) masks (get_frame (masks r) e).1
]

pub receive : WebSocketParser → List Bytes → Bool × WebSocketParser
receive p [] = (true, p)
receive p (f ∷ fs) = let (accepted, q) = parse p f in if accepted then receive q fs else (false, q)

-- What a receiver of the whole message has.
abbrev pub Delivered : WebSocketParser → Bytes → Bool × WebSocketParser → Type 0
Delivered p content r =
    (r.0 ≡ true) × (r.1.complete ≡ true) × (r.1.payload ≡ p.payload ++ content) × IsIdle r.1

pub send_complete :
    (fuel r : ℕ) (masks : ℕ → Bytes) (e : WebSocketEncoder)
    → is_complete e ≡ true
    → send fuel r masks e ≡ []
unfolding send
send_complete zero r masks e h = refl
send_complete (suc fuel) r masks e h = rw (h, send)

pub send_round :
    (fuel r : ℕ) (masks : ℕ → Bytes) (e : WebSocketEncoder)
    → is_complete e ≡ false
    → send (suc fuel) r masks e
      ≡ (get_frame (masks r) e).0 ∷ send fuel (r + 1) masks (get_frame (masks r) e).1
unfolding send
send_round fuel r masks e h = rw (h, send)

pub mask_parts :
    (m : Bytes)
    → IsMask m
    → (k0 k1 k2 k3 : ℕ) × (m ≡ k0 ∷ k1 ∷ k2 ∷ k3 ∷ []) × All IsByte (k0 ∷ k1 ∷ k2 ∷ k3 ∷ [])
mask_parts (k0 ∷ k1 ∷ k2 ∷ k3 ∷ []) h = (k0, k1, k2, k3, refl, h.1)
mask_parts _ h = absurd (omega arith)

module _ (size : ℕ) (positive : 0 < size) (short : size < 65536) (no_126 : size ≢ 126) where
  pub finished :
      (e : WebSocketEncoder) (p : WebSocketParser)
      → Sending size e p
      → (k0 k1 k2 k3 : ℕ) → length e.content < size
      → is_complete (get_frame (k0 ∷ k1 ∷ k2 ∷ k3 ∷ []) e).1 ≡ true
  unfolding is_complete get_frame
  finished e p s k0 k1 k2 k3 h =
      rw (encoded size positive short no_126 e p s k0 k1 k2 k3)
        (ground (arith, s.frames, s.left, left_over-length size positive short no_126 e p s))

  pub rest_of :
      (e : WebSocketEncoder) (p : WebSocketParser)
      → Sending size e p
      → (k0 k1 k2 k3 : ℕ) → size ≤ length e.content
      → (get_frame (k0 ∷ k1 ∷ k2 ∷ k3 ∷ []) e).1.content ≡ drop size e.content
  unfolding get_frame
  rest_of e p s k0 k1 k2 k3 h =
      let whole : next_size e ≡ size =
        ground (arith, s.frames, left_over-length size positive short no_126 e p s) in
      rw (encoded size positive short no_126 e p s k0 k1 k2 k3) (rw whole)

  pub less :
      (e : WebSocketEncoder) (p : WebSocketParser) (s : Sending size e p) (k0 k1 k2 k3 fuel : ℕ)
      → size ≤ length e.content
      → length e.content < suc fuel
      → length (get_frame (k0 ∷ k1 ∷ k2 ∷ k3 ∷ []) e).1.content < fuel
  less e p s k0 k1 k2 k3 fuel h k =
      rw (rest_of e p s k0 k1 k2 k3 h) (omega (arith, length-drop size e.content))
