-- ===== src/Posix/Client/Round.antt =====
-- client/posix/Client.cpp: what a round of the loop does when the socket is ready.
use c11http.Common.{
  ◌≡◌, refl, false, Option, none, some, List, [], ◌∷◌, ◌++◌, arith, if◌then◌else◌, Outcome, ok,
  throw, recv_failed,
}
use c11http.Callback.{Bytes, Event, receive_complete}
use c11http.Posix.{Os, max_buffer_size}
use c11http.Posix.Client.{Client, handle_read, handle_write, received}

module _ {W : Type 0} (os : Os W) where
  abbrev told : Client W → Event → List Event
  told s e = if s.env.has_callback then s.env.log ++ e ∷ [] else s.env.log

  abbrev pub answer : Client W → Option Bytes × W
  answer s = os.recv s.socket max_buffer_size s.env.world

  abbrev heard : Client W → Client W
  heard s = record s { env = record s.env { world = (answer s).1 } }

  abbrev hears : Client W → Bytes → Client W
  hears s bytes = record s {
    env = record s.env { world = (answer s).1; log = told s (receive_complete s.identifier bytes) };
  }

  -- What a read comes to for each answer of the system.
  abbrev pub Reads : Client W → Option Bytes → Outcome (Unit {0}) × Client W → Type 0
  Reads s none r = r ≡ (throw recv_failed, heard s)
  Reads s (some []) r = r ≡ (ok tt, record (heard s) { is_connected = false })
  Reads s (some (b ∷ bytes)) r = r ≡ (ok tt, hears s (b ∷ bytes))

  read_as : (s : Client W) (o : Option Bytes) → (answer s).0 ≡ o → Reads s o (handle_read os s)
  unfolding handle_read
  read_as s none e = rw (e, received)
  read_as s (some []) e = rw (e, received)
  read_as s (some (b ∷ bytes)) e = ground arith

  -- A read on every branch: an error raises the exception; the end of the stream disconnects, with
  -- no word to the callback; data is passed to the callback. The queue and the write set stay.
  pub handle_read-Reads : (s : Client W) → Reads s (answer s).0 (handle_read os s)
  handle_read-Reads s = read_as s (answer s).0 refl

-- What the callback is told of a write, and what is left to send, do not depend on how many bytes
-- the system took: two systems that take different numbers of them, or none, make no difference.
pub handle_write_blind :
    {W : Type 0} (os os' : Os W) (s : Client W)
    → let t = (handle_write os s).1 in
      let t' = (handle_write os' s).1 in
      ((handle_write os s).0 ≡ (handle_write os' s).0)
      × (t.env.log ≡ t'.env.log)
      × (t.outgoing_bytes ≡ t'.outgoing_bytes)
      × (t.master_write ≡ t'.master_write)
unfolding handle_write
handle_write_blind os os' s = (ground arith, ground arith, ground arith, ground arith)
