-- ===== src/Windows/Server.antt =====
-- server/windows/Server.cpp: the server on overlapped calls, and its event loop as a state machine that
-- stops at the tests of its loops and in `WSAWaitForMultipleEvents`, where completion routines and other
-- threads come in.
pub mod Shutdown
pub mod Sending
pub mod Handling
pub mod Answers
pub mod Construct
pub mod Events
pub mod Invariant
pub mod Final
use c11http.Common.{
  ℕ, Bool, true, false, not, ◌&&◌, Option, none, some, List, [], ◌∷◌, ◌++◌, ◌==◌, length,
  if◌then◌else◌, M, ok, fault, get, modify, pure, raise, demand, and_then, ◌>>=◌, ◌>>◌, call,
  throw_if, when, get_elem?, wait_failed, accept_ex_pointer, accept_ex_failed,
  prepare_receive_failed,
}
use c11http.Callback.{
  Bytes, Event, send_complete, send_failed, receive_complete, receive_unnamed, disconnected,
}
use c11http.Posix.{Env, notify_if, notify, in_world}
use c11http.Windows.{
  Winsock, Io, completed, pending, io_error, Wait, wait_error, io_completion, signalled,
}
use c11http.Windows.Socket.{new_socket}
use c11http.Windows.Connections.{
  ServerConnection, Store, deref, get_handle_array, add_server_connection, get_by_handle,
  get_by_identifier, new_connection, remove_by_handle, remove_by_identifier,
}
use c11http.Windows.Connections

pub record Server (W : Type 0) : Type 0 where
  pub store : Store W
  pub event : ℕ  -- getOverlap()->hEvent
  pub server_socket : ℕ
  pub incoming_socket : Option ℕ
  pub targets : List Bytes
  pub has_been_shutdown : Bool
  pub waiting_for_events : Bool

abbrev pub in_store {ℓ} : {W : Type 0} {A : Type ℓ} → M (Store W) A → M (Server W) A
in_store m s = let (o, store) = m s.store in (o, record s { store = store })

abbrev pub in_env {ℓ} : {W : Type 0} {A : Type ℓ} → M (Env W) A → M (Server W) A
in_env m = in_store (Connections.in_env m)

-- A call whose effect on the system is all that counts.
abbrev pub effect : {W : Type 0} → (W → W) → M (Server W) (Unit {0})
effect f = in_env (in_world (modify f))

abbrev pub fails : Io → Bool
fails completed = false
fails pending = false
fails io_error = true

-- Where `waitForEvents` stands: before the test of its loop, before the test of the loop of
-- `performWaitForEvents` with these handles, in the wait for these handles, or past its end.
pub data Point : Type 0 where
  testing : Point
  entering : List ℕ → Point
  waiting : List ℕ → Point
  finished : Point

module _ {W : Type 0} (ws : Winsock W) where
  -- The loop of `shutdown` over the copy of the container.
  unfoldable pub shut_each : List ℕ → M (Server W) (Unit {0})
  shut_each [] = pure tt
  shut_each (p ∷ ps) = do
    c ← in_store (deref p)
    effect (ws.recv_disconnect c.socket)
    effect (ws.send_disconnect c.socket)
    in_store (remove_by_handle ws c.event)
    shut_each ps

  unfoldable pub shutdown : M (Server W) (Unit {0})
  unfolding shut_each
  shutdown = do
    modify (λ s. record s { has_been_shutdown = true })
    s ← get
    shut_each s.store.container
    effect (ws.set_event s.event)

  -- What a `send` to a connection reports.
  abbrev pub report_send : ServerConnection → ℕ → Io → M (Server W) (Unit {0})
  report_send c count completed = in_env (notify_if (send_complete c.identifier count))
  report_send c count pending = pure tt
  report_send c count io_error = do
    s ← get
    in_env (notify_if (send_failed c.identifier (ws.send_error_text c.socket s.store.env.world)))
    in_store (remove_by_identifier ws c.identifier)

  -- `send` to a connection at a pointer; both callers have it report to the callback.
  unfoldable pub send_to : Bytes → ℕ → M (Server W) (Unit {0})
  unfolding remove_by_identifier
  send_to bytes p = do
    c ← in_store (deref p)
    modify (λ s. record s { targets = s.targets ++ c.identifier ∷ [] })
    io ← in_env (in_world (call (ws.send c.socket bytes c.event)))
    report_send c (length bytes) io

  -- `send` by identifier.
  unfoldable pub send : Bytes → Bytes → M (Server W) (Unit {0})
  unfolding send_to
  send bytes identifier = do
    p ← in_store (get_by_identifier identifier)
    send_to bytes p
    modify (λ s. record s { targets = s.targets ++ identifier ∷ [] })

  unfoldable pub send_each : Bytes → List ℕ → M (Server W) (Unit {0})
  unfolding send_to
  send_each bytes [] = pure tt
  send_each bytes (p ∷ ps) = send_to bytes p >> send_each bytes ps

  unfoldable pub broadcast : Bytes → M (Server W) (Unit {0})
  unfolding send_each
  broadcast bytes = do s ← get; send_each bytes s.store.container

  -- The front of the targets, taken off. An empty queue has no front.
  abbrev pub pop_target : List Bytes → M (Server W) Bytes
  pop_target [] s = (fault, s)
  pop_target (t ∷ ts) s = (ok t, record s { targets = ts })

  -- `DataSentToClient`, for the connection at a pointer.
  unfoldable pub data_sent : ℕ → ℕ → M (Server W) (Unit {0})
  data_sent p count = do
    c ← in_store (deref p)
    s ← get
    when (not s.has_been_shutdown) do
      target ← pop_target s.targets
      effect (ws.reset_event c.event)
      in_env (notify_if (send_complete target count))

  unfoldable pub queue_receive : ℕ → M (Server W) (Unit {0})
  queue_receive p = do
    c ← in_store (deref p)
    effect (ws.reset_event c.event)
    io ← in_env (in_world (call (ws.recv c.socket c.event)))
    throw_if (fails io) prepare_receive_failed

  -- `ClientDataReady`, for the connection at a pointer. Nothing sets `mBytes`, so that the callback is
  -- given none of the bytes.
  unfoldable pub client_data_ready : ℕ → M (Server W) (Unit {0})
  unfolding queue_receive
  client_data_ready p = do queue_receive p; in_env (notify_if (receive_unnamed []))

  unfoldable pub add_connection : ℕ → Bytes → M (Server W) (Unit {0})
  unfolding add_server_connection
  add_connection p identifier = in_store (add_server_connection p identifier)

  unfoldable pub prepare_for_server_connection : M (Server W) (Unit {0})
  unfolding new_socket
  prepare_for_server_connection = do
    fd ← in_env (in_world (new_socket ws))
    modify (λ s. record s { incoming_socket = some fd })
    s ← get
    obtained ← in_env (in_world (call (ws.accept_ex_pointer s.server_socket)))
    throw_if (not obtained) accept_ex_pointer
    io ← in_env (in_world (call (ws.accept_ex s.server_socket fd s.event)))
    throw_if (fails io) accept_ex_failed

  unfoldable pub add_new_connection : M (Server W) (Unit {0})
  unfolding new_connection prepare_for_server_connection
  add_new_connection = do
    s ← get
    fd ← demand s.incoming_socket
    effect (ws.update_accept_context fd)
    p ← in_store (new_connection ws fd)
    modify (λ s. record s { incoming_socket = none })
    c ← in_store (deref p)
    io ← in_env (in_world (call (ws.recv c.socket c.event)))
    throw_if (fails io) prepare_receive_failed
    prepare_for_server_connection

  -- What a completed receive of a connection tells the callback, if there is one.
  abbrev pub report_received : ServerConnection → ℕ → Bytes → M (Server W) (Unit {0})
  report_received c handle [] = do
    in_env (notify (disconnected c.identifier))
    in_store (remove_by_handle ws handle)
  report_received c handle (b ∷ bytes) = in_env (notify (receive_complete c.identifier (b ∷ bytes)))

  abbrev pub is_data : Bytes → Bool
  is_data [] = false
  is_data (b ∷ bytes) = true

  abbrev pub handle_result : ℕ → ServerConnection → ℕ → Option Bytes → M (Server W) (Unit {0})
  handle_result p c handle none = pure tt
  handle_result p c handle (some bytes) = do
    s ← get
    when s.store.env.has_callback (report_received c handle bytes)
    s ← get
    when (not s.has_been_shutdown && is_data bytes) (queue_receive p)

  abbrev pub handle_connection : ℕ → M (Server W) (Unit {0})
  handle_connection handle = do
    p ← in_store (get_by_handle handle)
    c ← in_store (deref p)
    result ← in_env (in_world (call (ws.overlapped_result c.socket c.event)))
    handle_result p c handle result

  -- The body of the loop, once a handle has been signalled and the server is not shut down.
  unfoldable pub handle_event : ℕ → M (Server W) (Unit {0})
  unfolding remove_by_handle queue_receive add_new_connection
  handle_event handle = do
    effect (ws.reset_event handle)
    s ← get
    if s.event == handle then add_new_connection else handle_connection handle

  -- What follows the return of the wait.
  abbrev pub after_wait : List ℕ → Wait → M (Server W) Point
  after_wait handles wait_error = raise wait_failed
  after_wait handles io_completion = pure (entering handles)
  after_wait handles (signalled i) = do
    s ← get
    if s.has_been_shutdown
        then (demand (get_elem? handles 0) >>= λ _. pure testing)
        else demand (get_elem? handles i) >>= λ handle. handle_event handle >> pure testing

  -- One stretch of `waitForEvents` and `performWaitForEvents`, from one point to the next.
  unfoldable pub pump : Point → M (Server W) Point
  unfolding handle_event
  pump testing = do
    s ← get
    modify (λ s. record s { waiting_for_events = not s.has_been_shutdown })
    if s.has_been_shutdown then pure finished else pure (entering [])
  pump (entering handles) = do
    s ← get
    if s.has_been_shutdown
        then (demand (get_elem? handles 0) >>= λ _. pure testing)
        else in_store (get_handle_array s.event) >>= λ handles. pure (waiting handles)
  pump (waiting handles) = do
    answer ← in_env (in_world (call (ws.wait handles)))
    after_wait handles answer
  pump finished = pure finished
