-- ===== src/Posix/Server.antt =====
-- server/posix/Server.h and Server.cpp: the listening server and its event loop. The loop is a state
-- machine that stops where other threads can call the server; they do so at those points only.
pub mod Sending
pub mod Loop
pub mod Receiving
pub mod Accepting
pub mod Writing
pub mod Shutdown
pub mod Wakeup
pub mod Invariant
pub mod Delivery
pub mod Construct
pub mod Telling
use c11http.Common.Pointers.{update}
use c11http.Common.{
  ℕ, zero, suc, ◌+◌, Bool, true, false, not, Option, none, some, List, [], ◌∷◌, ◌==◌, if◌then◌else◌,
  M, ok, get, modify, pure, raise, crash, and_then, ◌>>=◌, ◌>>◌, call, or_raise, throw_if, when,
  try_catch, Error, bind_failed, listen_failed, wakeup_pipe, select_failed,
}
use c11http.Common
use c11http.Callback.{Bytes, Event, receive_complete, connected, disconnected}
use c11http.Posix.{
  Os, Env, FdSet, fd_zero, fd_add, fd_clear, notify, notify_if, in_world, max_buffer_size,
}
use c11http.Posix.Socket.{new_socket, make_non_blocking, close_socket}
use c11http.Posix.Connection.{
  ServerConnection, Link, add_queued_message, perform_receive, accept_connection,
  send_queued_message,
}
use c11http.Posix.Connections.{
  Store, deref, max_fd, new_cell, at_cell, add_server_connection, get_by_socket, get_by_identifier,
  get_max, remove_server_connection, clear,
}

pub record Server (W : Type 0) : Type 0 where
  pub store : Store W
  pub open store use {env, cells, container, read}
  pub has_connections : Bool  -- whether `mConnections` has been set
  pub connect_socket : ℕ
  pub port : ℕ
  pub has_been_shutdown : Bool
  pub wakeup_read : ℕ  -- mWakeupPipe[0]
  pub wakeup_write : ℕ  -- mWakeupPipe[1]
  pub master_write : FdSet

abbrev pub in_store {ℓ} : {W : Type 0} {A : Type ℓ} → M (Store W) A → M (Server W) A
in_store m s = let (o, store) = m s.store in (o, record s { store = store })

abbrev pub in_env {ℓ} : {W : Type 0} {A : Type ℓ} → M (Env W) A → M (Server W) A
in_env m s = let (o, env) = m s.store.env in (o, record s { store = record s.store { env = env } })

abbrev empty_store : {W : Type 0} → Env W → Store W
empty_store env = record {
  env = env;
  cells = λ p. none;
  next_cell = 1;
  container = [];
  mapping = [];
  read = fd_zero;
  fd_max = none;
}

-- Where the loop of `waitForEvents` stands: before its test, in `select` with the sets copied, or
-- past its end.
pub data Point : Type 0 where
  testing : Point
  selecting : ℕ → FdSet → FdSet → Point
  finished : Point

module _ {W : Type 0} (os : Os W) where
  -- `Server::Server`. Nothing clears `mMasterWrite`: `unset` is what it holds.
  unfoldable pub new_server : Bool → ℕ → FdSet → M W (Server W)
  unfolding new_socket make_non_blocking
  new_server has_callback port unset = do
    connect_socket ← new_socket os
    reused ← call (os.reuse_address connect_socket 0)
    throw_if (not reused) Common.reuse_address
    bound ← call (
        os.bind connect_socket
          (record { family = os.inet; port = os.htons port; host = os.any_host }))
    throw_if (not bound) bind_failed
    listening ← call (os.listen connect_socket 10)
    throw_if (not listening) listen_failed
    make_non_blocking os connect_socket
    made ← call os.pipe
    (wakeup_read, wakeup_write) ← or_raise made wakeup_pipe
    world ← get
    pure (record {
      store = empty_store (record { world = world; has_callback = has_callback; log = [] });
      has_connections = false;
      connect_socket = connect_socket;
      port = port;
      has_been_shutdown = false;
      wakeup_read = wakeup_read;
      wakeup_write = wakeup_write;
      master_write = unset;
    })

  unfoldable pub perform_wakeup : M (Server W) (Unit {0})
  perform_wakeup s =
      (ok tt, record s { store = record s.store { env = record s.env { world = woken } } })
    where
      woken : W
      woken = os.write s.wakeup_write (b'.' ∷ []) (os.poll_out s.wakeup_write s.env.world).1

  -- `Server::shutdown`.
  unfoldable pub shutdown : M (Server W) (Unit {0})
  unfolding perform_wakeup close_socket
  shutdown = do
    modify (λ s. record s { has_been_shutdown = true })
    s ← get
    in_env (in_world (modify (close_socket os s.connect_socket)))
    perform_wakeup

  -- `send` to a connection at a pointer. Its `FD_SET` is for a descriptor that `addServerConnection` has
  -- put into `mRead`, and so below FD_SETSIZE.
  unfoldable pub send_to : Bytes → ℕ → M (Server W) (Unit {0})
  unfolding add_queued_message
  send_to bytes p = do
    c ← in_store (deref p)
    modify λ s. record s {
      master_write = fd_add c.socket s.master_write;
      store = record s.store { cells = update s.cells p (some (add_queued_message bytes c)) };
    }

  -- A use of `mConnections`, which no constructor sets.
  abbrev pub use_connections : M (Server W) (Unit {0})
  use_connections s = if s.has_connections then (ok tt, s) else crash s

  -- `send` to a connection by identifier. The lookup gives no null pointer, so the second branch of
  -- the source's test is not there.
  unfoldable pub send : Bytes → Bytes → M (Server W) (Unit {0})
  unfolding send_to perform_wakeup
  send bytes identifier = do
    use_connections
    p ← in_store (get_by_identifier identifier)
    send_to bytes p
    perform_wakeup

  unfoldable pub send_each : Bytes → List ℕ → M (Server W) (Unit {0})
  send_each bytes [] = pure tt
  send_each bytes (p ∷ ps) = send_to bytes p >> send_each bytes ps

  unfoldable pub broadcast : Bytes → M (Server W) (Unit {0})
  unfolding perform_wakeup
  broadcast bytes = do use_connections; s ← get; send_each bytes s.container; perform_wakeup
