-- ===== src/Examples/Windows.antt =====
-- The theorems on the Windows connections and server, applied.
use c11http.Common.{
  ℕ, suc, ◌≡◌, refl, true, false, none, some, [], ◌∷◌, ◌==◌, arith, if◌then◌else◌, ok, ◌>>◌,
}
use c11http.Common.Assoc.{find}
use c11http.Callback.{Bytes, Bytes-discrete, send_complete, receive_complete}
use c11http.Windows.{Winsock, pending, signalled, io_pending}
use c11http.Windows.Socket.{destroy_overlap}
use c11http.Windows.Connections.{ServerConnection, Store, remove_by_handle}
use c11http.Windows.Connections.Represents.{IsMapped, Represents}
use c11http.Windows.Connections.Rotation.{nth_array, nth_array-Represents}
use c11http.Windows.Connections.Removal.{remove_by_handle-Represents}
use c11http.Windows.Server.{Server, waiting, send, data_sent, handle_event}
use c11http.Windows.Server.Final.{
  pumps, sends, broadcasts, shuts_down, run, Ends, shutdown_empties_for_good,
}
use c11http.Windows.Server.Construct.{destroy, destroy-Destroys}
use c11http.Windows.Server.Sending.{send_misreports}
use c11http.Windows.Server.Handling.{queued}
use c11http.Windows.Server.Answers.{handle_event-Handles}

-- Every call succeeds; the state counts the sockets and events made.
abbrev pub winsock : Winsock ℕ
winsock = record {
  startup = λ w. (true, w);
  cleanup = λ w. w;
  get_addr_info = λ port w. (some port, w);
  free_addr_info = λ w. w;
  bind = λ fd a w. (true, w);
  listen = λ fd n w. (true, w);
  heap_alloc = λ w. (true, w);
  heap_free = λ w. w;
  create_event = λ w. (some w, suc w);
  close_event = λ e w. w;
  set_event = λ e w. w;
  reset_event = λ e w. w;
  socket = λ w. (some w, suc w);
  no_send_buffer = λ fd w. w;
  close_socket = λ fd w. w;
  recv_disconnect = λ fd w. w;
  send_disconnect = λ fd w. w;
  update_accept_context = λ fd w. w;
  accept_ex_pointer = λ fd w. (true, w);
  accept_ex = λ fd new e w. (pending, w);
  send = λ fd bytes e w. (pending, w);
  send_error_text = λ fd w. [];
  recv = λ fd e w. (pending, w);
  overlapped_result = λ fd e w. (some (b'i' ∷ []), w);
  wait = λ handles w. (signalled 0, w);
  invalid_socket = 99;
  get_addresses = λ name port w. (some (1 ∷ 2 ∷ []), w);
  connect = λ fd a w. (true, w);
  recv_now = λ fd e w. (io_pending, w);
  sent_result = λ fd e w. (some 2, w);
  sent_result_unflagged = λ fd e w. (none, w);
  send_nothing = λ fd w. w;
}

abbrev pub alice : ServerConnection
alice = record { socket = 6; event = 16; identifier = b'a' ∷ [] }

abbrev pub bob : ServerConnection
bob = record { socket = 7; event = 17; identifier = b'b' ∷ [] }

abbrev two : Store ℕ
two = record {
  env = record { world = 20; has_callback = true; log = [] };
  cells = λ p. if p == 1 then some alice else if p == 2 then some bob else none;
  next_cell = 3;
  container = 1 ∷ 2 ∷ [];
  mapping = (b'a' ∷ [], 1) ∷ (b'b' ∷ [], 2) ∷ [];
}

two-IsMapped : IsMapped two
unfolding find
two-IsMapped i p e = elim (Bytes-discrete (b'a' ∷ []) i) [
  | yes a ↦ (alice, ground (arith, e, a), a, ground (arith, e, a))
  | no other ↦ elim (Bytes-discrete (b'b' ∷ []) i) [
    | yes b ↦ (bob, ground (arith, e, b, other), b, ground (arith, e, b, other))
    | no neither ↦ ground (arith, e, other, neither)
  ]
]

pub two-Represents : Represents two (alice ∷ bob ∷ [])
two-Represents = record {
  owns = (refl, (refl, tt));
  pointers = omega arith;
  handles = omega arith;
  mapped = two-IsMapped;
}

abbrev pub server : Server ℕ
server = record {
  store = two;
  event = 15;
  server_socket = 3;
  incoming_socket = some 4;
  targets = [];
  has_been_shutdown = false;
  waiting_for_events = true;
}

nth_array-Represents_example :
    (t : Store ℕ) × (nth_array 0 15 two ≡ (ok (15 ∷ 17 ∷ 16 ∷ []), t))
    × Represents t (bob ∷ alice ∷ [])
    × (t.env ≡ two.env)
    × (t.cells ≡ two.cells)
nth_array-Represents_example = nth_array-Represents 15 [] two alice (bob ∷ []) two-Represents

remove_by_handle-Represents_example :
    (t : Store ℕ) × (remove_by_handle winsock 16 two ≡ (ok tt, t))
    × Represents t (bob ∷ [])
    × (t.env ≡ record two.env { world = destroy_overlap winsock 16 (winsock.close_socket 6 20) })
    × (find Bytes-discrete (b'a' ∷ []) t.mapping ≡ none)
remove_by_handle-Represents_example =
    remove_by_handle-Represents winsock two [] alice (bob ∷ []) two-Represents

shutdown_empties_for_good_example : Ends winsock (b'a' ∷ []) [] (
    run winsock
      (shuts_down ∷ pumps ∷ sends (b'h' ∷ []) (b'a' ∷ []) ∷ broadcasts (b'h' ∷ []) ∷ pumps ∷ [])
      (waiting (15 ∷ []))
      server)
shutdown_empties_for_good_example =
    shutdown_empties_for_good winsock
      (pumps ∷ sends (b'h' ∷ []) (b'a' ∷ []) ∷ broadcasts (b'h' ∷ []) ∷ pumps ∷ [])
      (waiting (15 ∷ [])) server (alice ∷ bob ∷ []) (b'a' ∷ []) (λ e. ground arith) two-Represents

abbrev hi : Bytes
hi = b'h' ∷ b'i' ∷ []

finds_alice : find Bytes-discrete (b'a' ∷ []) two.mapping ≡ some 1
unfolding find
finds_alice = ground arith

finds_bob : find Bytes-discrete (b'b' ∷ []) two.mapping ≡ some 2
unfolding find
finds_bob = ground arith

send_misreports_example :
    (t : Server ℕ) × ((send winsock hi (b'a' ∷ [])
          >> (data_sent winsock 1 2 >> (send winsock hi (b'b' ∷ []) >> data_sent winsock 2 2)))
        server
      ≡ (ok tt, t))
    × (t.store.env.log ≡ send_complete (b'a' ∷ []) 2 ∷ send_complete (b'a' ∷ []) 2 ∷ [])
    × (t.targets ≡ (b'b' ∷ []) ∷ (b'b' ∷ []) ∷ [])
send_misreports_example =
    send_misreports winsock server hi hi 2 2 1 2 alice bob (λ k bytes event w. refl) finds_alice
      refl finds_bob refl refl refl refl

handle_event-Handles_example :
    (((handle_event winsock 16 server).0 ≡ ok tt)
      × Represents (handle_event winsock 16 server).1.store (alice ∷ bob ∷ [])
      × ((handle_event winsock 16 server).1.store.env ≡ record two.env {
        world = queued winsock alice server;
        log = receive_complete (b'a' ∷ []) (b'i' ∷ []) ∷ [];
      }))
handle_event-Handles_example =
    handle_event-Handles winsock server [] alice (bob ∷ []) two-Represents (λ e. omega arith) refl
      refl

destroy-Destroys_example :
    ((destroy winsock server).0 ≡ ok tt) × ((destroy winsock server).1.store.container ≡ [])
destroy-Destroys_example = destroy-Destroys winsock server (alice ∷ bob ∷ []) two-Represents
