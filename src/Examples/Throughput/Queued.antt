-- ===== src/Examples/Throughput/Queued.antt =====
-- What the queue of a connection holds.
use co_socket.Prelude.{
  ◌≡◌, refl, true, false, inl, inr, ◌⊎◌, List, [], ◌∷◌, ◌++◌, append_assoc, append-nil, Bytes, take,
  if◌then◌else◌,
}
use co_socket.CoSocket.Buffer.{Buffer}

pub true_is_false : true ≡ false → ⊥
true_is_false e = cc

-- The bytes that a buffer brings to the writer, and those of all that are queued.
abbrev pub chunk : Buffer → Bytes
chunk b = if b.stopped then [] else take b.size b.content

abbrev pub pending : List Buffer → Bytes
pending [] = []
pending (b ∷ bs) = chunk b ++ pending bs

-- No stop buffer is queued; one is, as the last.
abbrev pub NoStop : List Buffer → Type 0
NoStop [] = Unit
NoStop (b ∷ bs) = (b.stopped ≡ false) × NoStop bs

abbrev pub StopLast : List Buffer → Type 0
StopLast [] = ⊥
StopLast (b ∷ bs) = ((b.stopped ≡ true) × (bs ≡ [])) ⊎ ((b.stopped ≡ false) × StopLast bs)

pub pending-append : (q : List Buffer) (b : Buffer) → pending (q ++ b ∷ []) ≡ pending q ++ chunk b
pending-append [] b = append-nil (chunk b)
pending-append (x ∷ q) b = cc (pending-append q b, append_assoc (chunk x) (pending q) (chunk b))

pub NoStop-append :
    (q : List Buffer) (b : Buffer) → NoStop q → b.stopped ≡ false → NoStop (q ++ b ∷ [])
NoStop-append [] b h e = (e, tt)
NoStop-append (x ∷ q) b h e = (h.0, NoStop-append q b h.1 e)

pub StopLast-append :
    (q : List Buffer) (b : Buffer) → NoStop q → b.stopped ≡ true → StopLast (q ++ b ∷ [])
StopLast-append [] b h e = inl (e, refl)
StopLast-append (x ∷ q) b h e = inr (h.0, StopLast-append q b h.1 e)
