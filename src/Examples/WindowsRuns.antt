-- ===== src/Examples/WindowsRuns.antt =====
-- The theorem on the runs of a Windows server, applied.
use c11http.Common.{
  ℕ, suc, ◌<◌, ◌≡◌, length, refl, true, false, none, some, List, [], ◌∷◌, ltb, arith, ok,
}
use c11http.Common.Assoc.{assign}
use c11http.Common.Pointers.{update}
use c11http.Posix.{FdSet}
use c11http.Windows.{Winsock, Wait, wait_error, pending, signalled, io_pending}
use c11http.Windows.Socket.{new_socket, create_overlap, construct_overlap}
use c11http.Windows.Connections.{
  ServerConnection, events_of, get_handle_array, new_connection, add_server_connection,
}
use c11http.Windows.Server.{
  Server, testing, prepare_for_server_connection, add_new_connection, add_connection, handle_event,
  pump, send_to, send_each, broadcast,
}
use c11http.Windows.Server.Construct.{create_server_socket, new_server}
use c11http.Windows.Server.Events.{Events}
use c11http.Windows.Server.Invariant.{Sound}
use c11http.Windows.Server.Invariant.Reach.{
  Act, broadcasts, adds, completes, perform, Reached, starts, pumped, performed, Safe,
}
use c11http.Windows.Server.Invariant.Start.{new_server-Reached}

-- The next socket or event, and how many sends are on their way.
abbrev World : Type 0
World = ℕ × ℕ

first_of : List ℕ → Wait
first_of [] = wait_error
first_of (h ∷ hs) = signalled 0

-- Every send is pending, and the first of the handles is always signalled.
abbrev counting : Winsock World
counting = record {
  startup = λ w. (true, w);
  cleanup = λ w. w;
  get_addr_info = λ port w. (some port, w);
  free_addr_info = λ w. w;
  bind = λ fd a w. (true, w);
  listen = λ fd n w. (true, w);
  heap_alloc = λ w. (true, w);
  heap_free = λ w. w;
  create_event = λ w. (some w.0, (suc w.0, w.1));
  close_event = λ e w. w;
  set_event = λ e w. w;
  reset_event = λ e w. w;
  socket = λ w. (some w.0, (suc w.0, w.1));
  no_send_buffer = λ fd w. w;
  close_socket = λ fd w. w;
  recv_disconnect = λ fd w. w;
  send_disconnect = λ fd w. w;
  update_accept_context = λ fd w. w;
  accept_ex_pointer = λ fd w. (true, w);
  accept_ex = λ fd new e w. (pending, w);
  send = λ fd bytes e w. (pending, (w.0, suc w.1));
  send_error_text = λ fd w. [];
  recv = λ fd e w. (pending, w);
  overlapped_result = λ fd e w. (some [], w);
  wait = λ handles w. (first_of handles, w);
  invalid_socket = 99;
  get_addresses = λ name port w. (none, w);
  connect = λ fd a w. (true, w);
  recv_now = λ fd e w. (io_pending, w);
  sent_result = λ fd e w. (none, w);
  sent_result_unflagged = λ fd e w. (none, w);
  send_nothing = λ fd w. w;
}

abbrev opened : World → FdSet
opened w k = ltb k w.0

abbrev on_way : World → ℕ
on_way w = w.1

first_in_range : (hs : List ℕ) (i : ℕ) → first_of hs ≡ signalled i → i < length hs
unfolding first_of
first_in_range [] i e = absurd (ground arith)
first_in_range (h ∷ hs) i e = ground arith

counting-Events : Events counting opened on_way
counting-Events = record {
  create_event_new = λ e w made. (ground arith, ground arith);
  create_event_mild = λ w. ((λ k o. ground arith), omega arith);
  close_event_other = λ e k w other o. o;
  close_event_sends = λ e w. omega arith;
  wait_in_range = λ hs i w e. first_in_range hs i e;
  wait_mild = λ hs w. ((λ k o. o), omega arith);
  send_keeps = λ fd b e w k o. o;
  send_counts = λ fd b e w. omega arith;
  startup_mild = λ w. ((λ k o. o), omega arith);
  get_addr_info_mild = λ port w. ((λ k o. o), omega arith);
  free_addr_info_mild = λ w. ((λ k o. o), omega arith);
  bind_mild = λ fd a w. ((λ k o. o), omega arith);
  listen_mild = λ fd n w. ((λ k o. o), omega arith);
  heap_alloc_mild = λ w. ((λ k o. o), omega arith);
  heap_free_mild = λ w. ((λ k o. o), omega arith);
  set_event_mild = λ e w. ((λ k o. o), omega arith);
  reset_event_mild = λ e w. ((λ k o. o), omega arith);
  socket_mild = λ w. ((λ k o. ground arith), omega arith);
  no_send_buffer_mild = λ fd w. ((λ k o. o), omega arith);
  close_socket_mild = λ fd w. ((λ k o. o), omega arith);
  recv_disconnect_mild = λ fd w. ((λ k o. o), omega arith);
  send_disconnect_mild = λ fd w. ((λ k o. o), omega arith);
  update_mild = λ fd w. ((λ k o. o), omega arith);
  pointer_mild = λ fd w. ((λ k o. o), omega arith);
  accept_ex_mild = λ a b e w. ((λ k o. o), omega arith);
  recv_mild = λ fd e w. ((λ k o. o), omega arith);
  result_mild = λ fd e w. ((λ k o. o), omega arith);
}

-- What the constructor leaves.
abbrev started : Server World
started = record {
  store = record {
    env = record { world = (5, 0); has_callback = true; log = [] };
    cells = λ p. none;
    next_cell = 1;
    container = [];
    mapping = [];
  };
  event = 2;
  server_socket = 3;
  incoming_socket = some 4;
  targets = [];
  has_been_shutdown = false;
  waiting_for_events = false;
}

constructs : new_server counting true 80 (2, 0) ≡ (ok started, (5, 0))
unfolding new_server create_overlap construct_overlap create_server_socket new_socket
    prepare_for_server_connection
constructs = refl

-- The connection accepted, and then named.
abbrev client : ServerConnection
client = record { socket = 4; event = 5; identifier = [] }

abbrev alice : ServerConnection
alice = record client { identifier = b'a' ∷ [] }

-- The server once a connection is accepted and added, and bytes are on their way to it.
abbrev busy : Server World
busy = record {
  store = record {
    env = record { world = (7, 1); has_callback = true; log = [] };
    cells = update (update (λ p. none) 1 (some client)) 1 (some alice);
    next_cell = 2;
    container = 1 ∷ [];
    mapping = (b'a' ∷ [], 1) ∷ [];
  };
  event = 2;
  server_socket = 3;
  incoming_socket = some 6;
  targets = (b'a' ∷ []) ∷ [];
  has_been_shutdown = false;
  waiting_for_events = true;
}

busy-Reached : Reached counting opened on_way started testing busy
unfolding pump get_handle_array events_of handle_event add_new_connection new_connection
    create_overlap construct_overlap prepare_for_server_connection new_socket add_connection
    add_server_connection assign broadcast send_each send_to first_of
busy-Reached =
    performed
      (performed (pumped (pumped (pumped starts refl) refl) refl)
        (adds 1 client (b'a' ∷ []) refl tt) refl (λ e. ground arith))
      (broadcasts (b'h' ∷ [])) refl (λ e. ground arith)

abbrev completion : Act opened on_way busy
completion = completes 1 1 alice (7, 0) refl (λ k o. o) refl

new_server-Reached_example :
    Sound counting opened on_way true busy
    × Safe counting opened on_way counting-Events completion
        (perform counting opened on_way busy completion)
new_server-Reached_example =
    new_server-Reached counting opened on_way counting-Events true 80 (2, 0) (5, 0) started busy
      testing refl constructs busy-Reached completion
