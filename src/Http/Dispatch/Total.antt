-- ===== src/Http/Dispatch/Total.antt =====
-- When a connection comes to its end.
use native.Mathlib.Decide.{ℕ_discrete}
use co_socket.Prelude.{
  ℕ, zero, suc, ◌+◌, ◌*◌, ◌^◌, ◌≤◌, ◌<◌, ◌≡◌, ◌≢◌, refl, subst, Bool, Option, some, List, [], ◌∷◌,
  Bytes, length, arith,
}
use co_socket.Prelude.Int.{ℤ}
use co_socket.Tcp.{Received, failed, received, IsSome}
use co_socket.Http.Parser.{Event}
use co_socket.Http.Dispatch.{HttpDispatch}
use co_socket.Http.Dispatch.Serve.{
  Verdict, goes_on, ends, throws, Connection, handle_input, serve_loop, serve,
}
use co_socket.Http.Dispatch.Served.{AllServed, Kept}
use co_socket.Http.Dispatch.Handled.{weaker, handle_input-Handled}

-- `kBufferSize`, and a read of at most that many bytes.
abbrev pub buffer_size : ℕ
buffer_size = 102400

abbrev pub IsInBuffer : Received → Type 0
IsInBuffer (failed e) = Unit
IsInBuffer (received bytes) = length bytes ≤ buffer_size

module _ {P : Type 0} (frames : ℕ) (execute : P → Bytes → List Event × P × Bool)
    (accept_key : Bytes → Bytes) (tokenizer : P) where
  abbrev Served : Option (Verdict × Connection P) → Type 0
  Served r = (v : Verdict) × (c : Connection P) × (r ≡ some (v, c)) × (v ≢ goes_on)

  input_round :
      (fuel round : ℕ) (read : ℕ → Received) (write : ℕ → ℕ → Bytes → ℤ) (c q : Connection P)
      (b : ℕ) (bs : Bytes) (v : Verdict)
      → read round ≡ received (b ∷ bs)
      → handle_input execute accept_key tokenizer frames (write round) (b ∷ bs) c ≡ some (v, q)
      → Served (serve_loop execute accept_key tokenizer fuel frames (round + 1) read write q)
      → Served (serve_loop execute accept_key tokenizer (suc fuel) frames round read write c)
  unfolding serve_loop
  input_round fuel round read write c q b bs goes_on e handled rest =
      rw (e, serve_loop, handled) rest
  input_round fuel round read write c q b bs ends e handled rest =
      (ends, q, rw (e, serve_loop, handled), λ x. cc)
  input_round fuel round read write c q b bs throws e handled rest =
      (throws, q, rw (e, serve_loop, handled), λ x. cc)

  serve_round :
      (fuel round : ℕ) (read : ℕ → Received) (write : ℕ → ℕ → Bytes → ℤ) (c : Connection P)
      (answer : Received)
      → read round ≡ answer
      → IsInBuffer answer
      → round * buffer_size + buffer_size < 2 ^ 62
      → Kept frames (round * buffer_size) c
      → ((q : Connection P)
          → IsSome answer
          → Kept frames ((round + 1) * buffer_size) q
          → Served (serve_loop execute accept_key tokenizer fuel frames (round + 1) read write q))
      → Served (serve_loop execute accept_key tokenizer (suc fuel) frames round read write c)
  unfolding serve_loop
  serve_round fuel round read write c (failed n) e short fits all rest =
      (ends, c, rw (e, serve_loop), λ x. cc)
  serve_round fuel round read write c (received []) e short fits all rest =
      (ends, c, rw (e, serve_loop), λ x. cc)
  serve_round fuel round read write c (received (b ∷ bs)) e short fits all rest =
      let (v, q, handled, all') =
        handle_input-Handled frames execute accept_key tokenizer (write round) (b ∷ bs)
          (round * buffer_size) c (omega arith) all in
      input_round fuel round read write c q b bs v e handled (
        rest q tt (
          weaker frames execute accept_key tokenizer (round * buffer_size + length (b ∷ bs)) _ q
            (omega arith) all'))

  serve_from :
      (fuel round last : ℕ) (read : ℕ → Received) (write : ℕ → ℕ → Bytes → ℤ) (c : Connection P)
      → ((i : ℕ) → IsInBuffer (read i))
      → last < 2 ^ 40
      → Kept frames (round * buffer_size) c
      → ¬ (IsSome (read last))
      → round ≤ last
      → last < round + fuel
      → Served (serve_loop execute accept_key tokenizer fuel frames round read write c)
  serve_from zero round last read write c short fits all over le enough = absurd (omega arith)
  serve_from (suc fuel) round last read write c short fits all over le enough =
      serve_round fuel round read write c (read round) refl (short round) (omega arith) all
        λ q more all'. elim (ℕ_discrete round last) [
          | yes e ↦ absurd (over (subst (λ n. IsSome (read n)) e more))
          | no n ↦
              serve_from fuel (round + 1) last read write q short fits all' over (omega arith)
                (omega arith)
        ]

  -- Where the answers of the WebSocket handlers come to an end, a connection is over at the latest in
  -- the round in which the client fails or ends it, whatever arrived before and whatever was
  -- answered: `operator()` has returned, or the call of a handler that is not set has thrown. Fewer
  -- than 2 ^ 40 rounds read, each at most a buffer.
  pub serve_total :
      (last status port : ℕ) (read : ℕ → Received) (write : ℕ → ℕ → Bytes → ℤ) (d : HttpDispatch P)
      → AllServed frames d
      → ((i : ℕ) → IsInBuffer (read i))
      → last < 2 ^ 40
      → ¬ (IsSome (read last))
      → (v : Verdict) × (c : Connection P) × (serve execute accept_key tokenizer
            (last + 1)
            frames
            status
            port
            read
            write
            d
          ≡ some (v, c))
        × (v ≢ goes_on)
  unfolding serve
  serve_total last status port read write d all short fits over =
      serve_from (last + 1) 0 last read write _ short fits
        (record {
          served = all;
          bounded = record { within = omega arith; short = omega arith };
          cached = omega arith;
        })
        over (omega arith) (omega arith)
