-- ===== src/Examples/Shared.antt =====
-- CoSocket/example/dont_use_other_routine_local_variable/Echo.cpp: connections that share a pointer to
-- a local variable. The coroutine library, which is not modelled, runs every coroutine on one stack:
-- what stands at an address is a function of the coroutine that runs, and a local variable of
-- `HandleRequest` has the same address in each. A connector is its descriptor.
use co_socket.Prelude.{
  ℕ, zero, suc, ◌+◌, ◌≡◌, refl, ap, ◌∙◌, Option, none, some, [], ◌∷◌, ◌++◌, ◌==◌, if◌then◌else◌,
  Bytes,
}
use co_socket.Prelude.Int.{ℤ, pos, negsuc}
use co_socket.Tcp.{Received, failed, received}
use co_socket.Examples.Forward.{echo_loop}

-- `address` is where the local variable `connector` of a coroutine stands, and `content` what a
-- running coroutine reads at an address.
pub record Stacks : Type 0 where
  pub connector : ℕ → ℕ
  pub address : ℕ → ℕ
  pub content : ℕ → ℕ → ℕ
  pub own : (co : ℕ) → content co (address co) ≡ connector co
  pub one_stack : (co other : ℕ) → address co ≡ address other

-- `if (port == 12345) g_connector = &connector;`, in the coroutine `co`; `none` is the null pointer.
pub enter : Stacks → ℕ → ℕ → Option ℕ → Option ℕ
enter m port co g_connector = if port == 12345 then some (m.address co) else g_connector

-- The loop of `HandleRequest` in the coroutine `co`. `g_connector` is what each round finds in the
-- global variable, and `write` the answer of `WriteAll` on a connector. On fuel; `none` is also the
-- call through a null pointer.
pub shared_loop :
    Stacks
    → ℕ
    → (ℕ → Option ℕ)
    → ℕ
    → ℕ
    → (ℕ → Received)
    → (ℕ → ℕ → Bytes → ℤ)
    → Bytes
    → Option Bytes
shared_loop m co g_connector zero round read write written = none
shared_loop m co g_connector (suc fuel) round read write written = elim (read round) [
  | failed e ↦ some written
  | received [] ↦ some written
  | received (b ∷ bs) ↦ elim (g_connector round) [
    | none ↦ none
    | some at ↦ elim (write (m.content co at) round (b ∷ bs)) [
      | negsuc n ↦ some written
      | pos n ↦ shared_loop m co g_connector fuel (round + 1) read write (written ++ b ∷ bs)
    ]
  ]
]

-- Another coroutine's variable, seen from `co`, is its own.
content_own : (m : Stacks) (co who : ℕ) → m.content co (m.address who) ≡ m.connector co
content_own m co who = ap (m.content co) (m.one_stack who co) ∙ m.own co

shared_round :
    (m : Stacks) (co who : ℕ) (g_connector : ℕ → Option ℕ) (fuel round : ℕ) (read : ℕ → Received)
    (write : ℕ → ℕ → Bytes → ℤ) (written : Bytes) (answer : Received)
    → read round ≡ answer
    → g_connector round ≡ some (m.address who)
    → ((more : Bytes)
        → shared_loop m co g_connector fuel (round + 1) read write more
          ≡ echo_loop fuel (round + 1) read (write (m.connector co)) more)
    → shared_loop m co g_connector (suc fuel) round read write written
      ≡ echo_loop (suc fuel) round read (write (m.connector co)) written
unfolding shared_loop echo_loop
shared_round m co who g_connector fuel round read write written (failed e) same stored later =
    rw (same, shared_loop, echo_loop)
shared_round m co who g_connector fuel round read write written (received []) same stored later =
    rw (same, shared_loop, echo_loop)
shared_round m co who g_connector fuel round read write written (received (b ∷ bs)) same stored
      later =
    rw (same, shared_loop, echo_loop, stored, content_own m co who)
      (ap
        (λ r. elim (write (m.connector co) round (b ∷ bs)) [ negsuc n ↦ some written | pos n ↦ r ])
        (later (written ++ b ∷ bs)))

-- Whichever coroutine stored its variable's address: the loop of each connection is that of the echo
-- server, on its own connection.
shared_loop-echo_loop :
    (m : Stacks) (co : ℕ) (g_connector : ℕ → Option ℕ) (fuel round : ℕ) (read : ℕ → Received)
    (write : ℕ → ℕ → Bytes → ℤ) (written : Bytes)
    → ((i : ℕ) → (who : ℕ) × (g_connector i ≡ some (m.address who)))
    → shared_loop m co g_connector fuel round read write written
      ≡ echo_loop fuel round read (write (m.connector co)) written
unfolding shared_loop echo_loop
shared_loop-echo_loop m co g_connector zero round read write written stored = refl
shared_loop-echo_loop m co g_connector (suc fuel) round read write written stored =
    let (who, here) = stored round in
    shared_round m co who g_connector fuel round read write written (read round) refl here
      λ more. shared_loop-echo_loop m co g_connector fuel (round + 1) read write more stored
