-- ===== src/Examples/Invariant.antt =====
-- The theorems on the runs of a posix server, applied.
use c11http.Common.{
  ◌>>=◌, ◌≡◌, refl, true, false, Outcome, ok, throw, fault, List, [], ◌∷◌, ◌+◌, ltb, ℕ, arith,
}
use c11http.Callback.{Bytes, Event, connected, receive_complete, send_complete}
use c11http.Posix.{FdSet, fd_zero}
use c11http.Posix.Descriptors.{Descriptors}
use c11http.Common.{dec_lt, ℕ_discrete}
use c11http.Posix.Server.{
  Server, testing, new_server, broadcast, send, shutdown, perform_wakeup, send_each, send_to,
}
use c11http.Posix.Connections.{
  new_cell, at_cell, add_server_connection, get_by_socket, get_max, find_if, max_loop,
}
use c11http.Posix.Connection.{
  send_queued_message, accept_connection, perform_receive, add_queued_message,
}
use c11http.Posix.Socket.{new_socket, make_non_blocking, make_blocking, close_socket}
use c11http.Posix.Server.Shutdown.{Act, pumps, broadcasts, shuts_down, run}
use c11http.Posix.Server.Loop.{
  pump, start_waiting, handle_from, handle_fd, handle_new_connection, handle_server_connection,
  handle_write, read_wakeup,
}
use c11http.Posix.Server.Construct.{RunsFromStart, new_server-RunsFromStart}
use c11http.Posix.Server.Telling.{TellsFromStart, new_server-TellsFromStart}
use c11http.Examples.{willing}

-- The descriptors below that of the next connection are open.
abbrev pub opened : ℕ → FdSet
opened w k = ltb k (w + 6)

next_is_new : (w : ℕ) → ltb (w + 6) (w + 6) ≡ false
next_is_new w = ground arith

pub willing-Descriptors : Descriptors willing opened
willing-Descriptors = record {
  socket_opens = λ fd w e. ground arith;
  reuse_address_keeps = λ fd v w k h. h;
  bind_keeps = λ fd a w k h. h;
  listen_keeps = λ fd n w k h. h;
  pipe_keeps = λ w k h. h;
  accept_new = λ server fd w e. (ground arith, ground arith);
  accept_keeps = λ server w k h. ground arith;
  get_flags_keeps = λ fd w k h. h;
  set_flags_keeps = λ fd x w k h. h;
  send_keeps = λ fd b w k h. h;
  recv_keeps = λ fd n w k h. h;
  poll_in_keeps = λ fd w k h. h;
  poll_out_keeps = λ fd w k h. h;
  write_keeps = λ fd b w k h. h;
  select_keeps = λ n r v w k h. h;
  shut_down_keeps = λ fd w k h. h;
  no_linger_keeps = λ fd w k h. h;
  close_keeps = λ fd k w other h. h;
}

-- A round, in which every descriptor that is watched is ready, between calls.
abbrev acts : List Act
acts = pumps ∷ pumps ∷ broadcasts (b'h' ∷ []) ∷ pumps ∷ pumps ∷ pumps ∷ shuts_down ∷ pumps ∷ []

new_server-RunsFromStart_example :
    RunsFromStart willing opened willing-Descriptors acts (new_server willing true 80 fd_zero 2)
new_server-RunsFromStart_example =
    new_server-RunsFromStart willing opened willing-Descriptors acts 80 fd_zero 2

-- Every client of this system calls itself by this name.
abbrev called : Bytes
called = b'i' ∷ []

new_server-TellsFromStart_example :
    TellsFromStart willing opened willing-Descriptors acts called
      (new_server willing true 80 fd_zero 2)
new_server-TellsFromStart_example =
    new_server-TellsFromStart willing opened willing-Descriptors acts called 80 fd_zero 2

-- The constructor returns.
constructs : (s : Server ℕ) × ((new_server willing true 80 fd_zero 2).0 ≡ ok s)
unfolding new_server
constructs = (_, refl)

-- What the callback has been told after the run.
told : Outcome (Server ℕ) × ℕ → List Event
unfolding pump start_waiting
told (ok s, w) = ((start_waiting willing >>= λ _. run willing acts testing) s).1.env.log
told (throw e, w) = []
told (fault, w) = []

-- Two clients are accepted, bytes of the first are passed on, and what was sent to it is reported.
told_example :
    told (new_server willing true 80 fd_zero 2)
    ≡ connected called
      ∷ connected called
      ∷ receive_complete called called
      ∷ send_complete called 1
      ∷ []
unfolding told new_server pump start_waiting broadcast send shutdown handle_from handle_fd
    handle_new_connection handle_server_connection handle_write read_wakeup perform_wakeup send_each
    send_to new_cell at_cell add_server_connection get_by_socket get_max find_if max_loop
    send_queued_message accept_connection perform_receive add_queued_message new_socket
    make_non_blocking make_blocking close_socket dec_lt ℕ_discrete
told_example = refl
