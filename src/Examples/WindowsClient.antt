-- ===== src/Examples/WindowsClient.antt =====
-- The theorems on the Windows client, applied.
use c11http.Common.{
  ℕ, suc, ◌≡◌, refl, true, false, if◌then◌else◌, none, some, [], ◌∷◌, ◌==◌, arith, ok, ◌>>◌,
}
use c11http.Callback.{Bytes, send_complete}
use c11http.Windows.{io_error, Winsock, at_once, io_pending}
use c11http.Windows.Socket.{new_socket}
use c11http.Windows.Client.{
  Client, testing, try_addresses, is_no_socket, open_connection, prepare_to_receive,
}
use c11http.Windows.Client.Connecting.{
  in_state, none_left, refused, try_addresses_first, Judges, open_connection-Judges,
}
use c11http.Windows.Client.Receiving.{no_more, piece, taken, prepare_to_receive_drains}
use c11http.Windows.Client.Sending.{send_all, finish_all, send_all-finish_all}
use c11http.Windows.Client.Final.{pumps, sends, run, answering, run_never_receives}
use c11http.Examples.Windows.{winsock}

abbrev client : Client ℕ
client = record {
  env = record { world = 20; has_callback = true; log = [] };
  socket = 6;
  event = some 16;
  send_event = some 17;
  is_connected = true;
  identifier = b'c' ∷ [];
  send_buffers = [];
}

-- As the constructor leaves it on memory that holds no zero.
abbrev unset : Client ℕ
unset = record client { socket = 41; event = none; send_event = none; identifier = [] }

abbrev hi : Bytes
hi = b'h' ∷ b'i' ∷ []

-- Only the address 2 connects.
abbrev picky : Winsock ℕ
picky = record winsock { connect = λ fd a w. (a == 2, w) }

makes : (w : ℕ) → new_socket picky w ≡ (ok w, suc w)
unfolding new_socket
makes w = refl

try_addresses_first_example :
    try_addresses picky (1 ∷ 2 ∷ 3 ∷ []) client
    ≡ (ok tt, record (in_state picky 22 client) { socket = 21 })
try_addresses_first_example =
    try_addresses_first picky (1 ∷ []) 2 (3 ∷ []) 21 client 21 22 22
      (refused 1 [] 20 20 21 21 21 (makes 20) refl (none_left 21)) (makes 21) refl

-- No address connects.
abbrev lonely : Winsock ℕ
lonely = record winsock { connect = λ fd a w. (false, w) }

open_connection-Judges_example :
    Judges lonely (is_no_socket lonely 41) (open_connection lonely (b'h' ∷ []) 80 unset).0
open_connection-Judges_example = open_connection-Judges lonely (b'h' ∷ []) 80 unset (λ fd a w. refl)

-- It returns, on the socket that was never made.
connects_nowhere : (open_connection lonely (b'h' ∷ []) 80 unset).0 ≡ ok tt
unfolding open_connection
connects_nowhere = refl

-- Two pieces are at hand.
abbrev talkative : Winsock ℕ
talkative = record winsock {
  recv_now = λ fd e w.
      if w == 20
      then (at_once hi, 21)
      else if w == 21
      then (at_once (b'!' ∷ []), 22)
      else (io_pending, w);
}

prepare_to_receive_drains_example :
    prepare_to_receive talkative 3 client ≡ (ok true, taken (hi ∷ (b'!' ∷ []) ∷ []) 22 client)
prepare_to_receive_drains_example =
    prepare_to_receive_drains talkative (hi ∷ (b'!' ∷ []) ∷ []) 3 16 client 22 (omega arith) refl
      refl (piece hi _ 20 21 22 refl (piece (b'!' ∷ []) [] 21 22 22 refl (no_more 22 22 refl)))

-- The first send that is asked for took two bytes, the next none.
abbrev counts : Winsock ℕ
counts = record winsock { sent_result = λ fd e w. (some (if w == 20 then 2 else 0), suc w) }

send_all-finish_all_example :
    (t : Client ℕ) × ((send_all counts (hi ∷ [] ∷ []) >> finish_all counts 2 17) client
      ≡ (ok tt, t))
    × (t.send_buffers ≡ [])
    × (t.env.log ≡ send_complete (b'c' ∷ []) 2 ∷ send_complete (b'c' ∷ []) 0 ∷ [])
send_all-finish_all_example =
    send_all-finish_all counts (hi ∷ [] ∷ []) (2 ∷ 0 ∷ []) 17 client refl (refl, (refl, tt))
      (refl, (refl, tt)) refl refl refl

run_never_receives_example :
    run
      (answering (λ fd e w. (io_error, suc w)) (λ fd e w. (at_once hi, suc w)) winsock)
      (pumps ∷ pumps ∷ sends hi ∷ pumps ∷ [])
      (testing 16 17)
      client
    ≡ run winsock (pumps ∷ pumps ∷ sends hi ∷ pumps ∷ []) (testing 16 17) client
run_never_receives_example =
    run_never_receives winsock (λ fd e w. (io_error, suc w)) (λ fd e w. (at_once hi, suc w))
      (pumps ∷ pumps ∷ sends hi ∷ pumps ∷ []) (testing 16 17) client
