-- ===== src/Posix/Connection/Queue.antt =====
-- ServerConnection.cpp: the outgoing bytes, from `addQueuedMessage` to `sendQueuedMessage`.
use c11http.Common.{
  ℕ, suc, ◌≡◌, ◌≢◌, refl, ◌∙◌, ap, ◌⊎◌, inl, inr, true, Bool-cases, Option, none, some, List, [],
  ◌∷◌, ◌++◌, ◌==◌, reverse, arith, if◌then◌else◌, length, Outcome, ok, fault,
}
use c11http.Callback.{Bytes, Event, send_complete}
use c11http.Messages.{joined, joined-reverse_cons}
use c11http.Posix.{Os}
use c11http.Posix.Connection.{
  ServerConnection, Link, add_queued_message, send_queued_message, is_count,
}

-- Messages queued one after another, the first of the list first.
abbrev pub queue_all : List Bytes → ServerConnection → ServerConnection
queue_all [] c = c
queue_all (m ∷ ms) c = queue_all ms (add_queued_message m c)

-- What waits to be sent are the messages in the reverse of the order in which they were queued,
-- before all that was waiting; each message is whole. Descriptor and identifier stay.
pub queue_all-reverse :
    (ms : List Bytes) (c : ServerConnection)
    → queue_all ms c ≡ record c { outgoing_bytes = joined (reverse ms) ++ c.outgoing_bytes }
unfolding add_queued_message
queue_all-reverse [] c = refl
queue_all-reverse (m ∷ ms) c =
    queue_all-reverse ms (add_queued_message m c)
    ∙ ap (λ b. record c { outgoing_bytes = b }) (joined-reverse_cons m ms c.outgoing_bytes)

-- The system took all of some bytes, or it did not.
abbrev pub Took : ℕ → Option ℕ → List Event → List Event → Event → Type 0
Took n answer before after told =
    ((answer ≡ some n) × (after ≡ before ++ told ∷ [])) ⊎ ((answer ≢ some n) × (after ≡ before))

pub Took-is_count :
    (n : ℕ) (answer : Option ℕ) (before : List Event) (told : Event)
    → Took n answer before (if is_count n answer then before ++ told ∷ [] else before) told
Took-is_count n none before told = inr ((λ e. ground arith), refl)
Took-is_count n (some m) before told = elim (Bool-cases (n == m)) [
  | inl same ↦ inl (ground arith, ground arith)
  | inr other ↦ inr ((λ e. ground arith), ground arith)
]

-- What an attempt to send leaves, of a queue of these bytes: whatever the system takes, the bytes are
-- gone from the connection. The callback, which is not null, is told of them exactly when the system
-- took all. With nothing to send, the address of the first byte is asked for, and there is none.
abbrev pub Sends : {W : Type 0} → Os W → Link W → Bytes → Outcome (Unit {0}) × Link W → Type 0
Sends os l [] r = r.0 ≡ fault
Sends os l (b ∷ bytes) r =
    let asked = os.send l.this.socket (b ∷ bytes) l.env.world in
    (r.0 ≡ ok tt)
    × (r.1.this ≡ record l.this { outgoing_bytes = [] })
    × (r.1.env.world ≡ asked.1)
    × Took (suc (length bytes)) asked.0 l.env.log r.1.env.log
        (send_complete l.this.identifier (suc (length bytes)))

told_by_answer :
    {W : Type 0} (os : Os W) (l : Link W) (bytes : Bytes)
    → l.this.outgoing_bytes ≡ bytes
    → l.env.has_callback ≡ true
    → Sends os l bytes (send_queued_message os l)
unfolding send_queued_message
told_by_answer os l [] e cb = ground arith
told_by_answer os l (b ∷ bytes) e cb =
    let answer = (os.send l.this.socket (b ∷ bytes) l.env.world).0 in
    let told = send_complete l.this.identifier (suc (length bytes)) in
    elim (Took-is_count (suc (length bytes)) answer l.env.log told) [
      | inl (all, log) ↦ (ground arith, ground arith, ground arith, inl (all, ground arith))
      | inr (part, log) ↦ (ground arith, ground arith, ground arith, inr (part, ground arith))
    ]

-- `sendQueuedMessage` with a callback, whatever waits and whatever the system answers: one send of all
-- that waits, and no byte is kept for a second one, also when the system takes fewer bytes or none; the
-- callback is told of the bytes exactly when the system took all. With an empty queue it is undefined
-- behaviour.
pub send_queued_message-Sends :
    {W : Type 0} (os : Os W) (l : Link W)
    → l.env.has_callback ≡ true
    → Sends os l l.this.outgoing_bytes (send_queued_message os l)
send_queued_message-Sends os l cb = told_by_answer os l l.this.outgoing_bytes refl cb
