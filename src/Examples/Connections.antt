-- ===== src/Examples/Connections.antt =====
-- The theorems on posix connections and their container, applied.
use c11http.Common.{ℕ, ◌≡◌, ◌≢◌, refl, some, [], ◌∷◌, arith, ok, fault}
use c11http.Common.Assoc.{find}
use c11http.Callback.{Bytes, Bytes-discrete}
use c11http.Posix.Socket.{close_socket}
use c11http.Posix.Connection.{Link, send_queued_message, accept_connection}
use c11http.Posix.Connection.Queue.{Sends, send_queued_message-Sends}
use c11http.Posix.Connection.Accept.{Accepts, accept_connection-Accepts}
use c11http.Posix.Connections.{Store, remove_server_connection}
use c11http.Posix.Connections.Represents.Lists.{Represents}
use c11http.Posix.Connections.Remove.RoundTrip.{add_and_remove, add_and_remove-Represents}
use c11http.Posix.Connections.Remove.Other.{remove_other}
use c11http.Examples.{willing, refusing, alice, bob, carol, env, two, two-Represents}

abbrev hi : Bytes
hi = b'h' ∷ b'i' ∷ []

abbrev yo : Bytes
yo = b'y' ∷ b'o' ∷ []

abbrev link : Link ℕ
link = record { this = bob; env = env }

send_queued_message-Sends_example :
    Sends willing link (b'!' ∷ []) (send_queued_message willing link)
send_queued_message-Sends_example = send_queued_message-Sends willing link refl

accept_connection-Accepts_example : Accepts refusing 3 0 (accept_connection refusing 3 0).0
accept_connection-Accepts_example = accept_connection-Accepts refusing 3 0

remove_other_example : (remove_server_connection willing 6 two).0 ≡ fault
remove_other_example = remove_other willing two [] alice bob [] two-Represents

add_and_remove-Represents_example :
    (t : Store ℕ) × (add_and_remove willing two (alice ∷ bob ∷ []) carol two ≡ (ok tt, t))
    × Represents t (alice ∷ bob ∷ [])
    × (t.fd_max ≡ some 7)
    × ((k : ℕ) → t.read k ≡ two.read k)
    × ((i : Bytes)
        → b'c' ∷ [] ≢ i
        → find Bytes-discrete i t.mapping ≡ find Bytes-discrete i two.mapping)
    × (t.env ≡ record env { world = close_socket willing 8 2 })
add_and_remove-Represents_example =
    add_and_remove-Represents willing two (alice ∷ bob ∷ []) carol two-Represents (omega arith)
      (omega arith) refl
