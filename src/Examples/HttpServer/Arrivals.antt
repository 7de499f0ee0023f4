-- ===== src/Examples/HttpServer/Arrivals.antt =====
-- What `operator()` of http_server/HttpServer.cpp reads of the frames of a message: a frame in one or
-- more pieces, each in a round of its own.
use co_socket.Prelude.{
  ℕ, zero, suc, ◌+◌, ◌^◌, ◌<◌, ◌≡◌, refl, sym, ap, ◌∙◌, Bool, true, false, Option, List, [], ◌∷◌,
  ◌++◌, append_assoc, arith, Bytes, length, length-append,
}
use co_socket.Prelude.Int.{ℤ}
use co_socket.Tcp.{Received, received}
use co_socket.WebSocket.Parser.{WebSocketParser, parse}
use co_socket.WebSocket.Parser.Decode.{IsIdle}
use co_socket.WebSocket.Parser.Pieces.{Fed, Splits, parse-Fed, Fed-more}
use co_socket.Http.Parser.{Event}
use co_socket.Http.Dispatch.Serve.{Verdict, Connection, serve_loop}
use co_socket.Examples.HttpServer.Conversation.{round_kept}

-- Rounds `i` to `i + n` read `rest`, in pieces that are not empty.
abbrev pub InPieces : (ℕ → Received) → ℕ → ℕ → Bytes → Type 0
InPieces read zero i rest = (x : ℕ) × (xs : Bytes) × (rest ≡ x ∷ xs) × (read i ≡ received (x ∷ xs))
InPieces read (suc n) i rest =
    (x : ℕ) × (xs : Bytes) × (y : ℕ) × (ys : Bytes) × (rest ≡ (x ∷ xs) ++ y ∷ ys)
    × (read i ≡ received (x ∷ xs))
    × InPieces read n (i + 1) (y ∷ ys)

-- Round `i` and those behind it read the frames from the one of number `r` on, frame `j` in one more
-- pieces than `cuts j`, and the peer then closes.
abbrev pub Feeds : (ℕ → Received) → (ℕ → ℕ) → ℕ → ℕ → List Bytes → Type 0
Feeds read cuts i r [] = read i ≡ received []
Feeds read cuts i r (f ∷ fs) =
    InPieces read (cuts r) i f × Feeds read cuts (i + cuts r + 1) (r + 1) fs

-- The rounds that read them, and the close.
abbrev pub rounds_of : (ℕ → ℕ) → ℕ → List Bytes → ℕ
rounds_of cuts r [] = 1
rounds_of cuts r (f ∷ fs) = cuts r + 1 + rounds_of cuts (r + 1) fs

module _ {P : Type 0} (execute : P → Bytes → List Event × P × Bool) (accept_key : Bytes → Bytes)
    (tokenizer : P) (frames : ℕ) (read : ℕ → Received) (write : ℕ → ℕ → Bytes → ℤ)
    (c : Connection P) (upgraded : c.dispatcher.is_web_socket_req ≡ true) where
  abbrev pub holding : WebSocketParser → Connection P
  holding q = record c { ws_decoder = record { ws_parser = q } }

  abbrev pub at_round : ℕ → ℕ → WebSocketParser → Option (Verdict × Connection P)
  at_round rounds i q =
      serve_loop execute accept_key tokenizer rounds frames i read write (holding q)

  pub same_round :
      (n m i j : ℕ) (q : WebSocketParser) → n ≡ m → i ≡ j → at_round n i q ≡ at_round m j q
  same_round n m i j q e h = ap (λ k. at_round k i q) e ∙ ap (λ k. at_round m k q) h

  -- The rounds before the last piece of a frame `f` at the idle parser `p` only keep what they read.
  pub pieces_read :
      (n i rounds : ℕ) (p q : WebSocketParser) (f done rest : Bytes)
      → IsIdle p
      → p.complete ≡ false
      → Splits p f
      → length f < 2 ^ 64
      → Fed p q done
      → f ≡ done ++ rest
      → InPieces read n i rest
      → (q' : WebSocketParser) × (last : Bytes) × (at_round (n + rounds) i q
          ≡ at_round rounds (i + n) q')
        × ((b : ℕ) × (bs : Bytes) × (last ≡ b ∷ bs))
        × (read (i + n) ≡ received last)
        × (parse q' last ≡ parse p f)
  pieces_read zero i rounds p q f done rest idle fresh splits fits fed cut (x, xs, same, got) = (
    q,
    x ∷ xs,
    same_round _ _ _ _ q (omega arith) (omega arith),
    (x, xs, refl),
    ap read (omega arith) ∙ got,
    parse-Fed p q done x xs idle fed
          (omega (arith, ap length cut, length-append done rest, ap length same, fits))
        ∙ ap (λ xs. parse p (done ++ xs)) (sym same)
        ∙ ap (parse p) (sym cut),
  )
  pieces_read (suc n) i rounds p q f done rest idle fresh splits fits fed cut
        (x, xs, y, ys, same, got, others) =
      let cut' : f ≡ (done ++ x ∷ xs) ++ y ∷ ys =
        cut ∙ ap (◌++◌ done) same ∙ sym (append_assoc done (x ∷ xs) (y ∷ ys)) in
      let (z, parsed, more) = Fed-more p q done x xs y ys f idle fed splits fits cut' in
      let step =
        round_kept execute accept_key tokenizer frames read write (n + rounds) i (x ∷ xs) z
          (holding q) (x, xs, refl) parsed (more.complete ∙ fresh) upgraded got in
      let (q', last, later, shape, got', whole) =
        pieces_read n (i + 1) rounds p z f (done ++ x ∷ xs) (y ∷ ys) idle fresh splits fits more
          cut' others in
      (
        q',
        last,
        same_round _ _ _ _ q (omega arith) refl
            ∙ step
            ∙ later
            ∙ same_round _ _ _ _ q' refl (omega arith),
        shape,
        ap read (omega arith) ∙ got',
        whole,
      )
