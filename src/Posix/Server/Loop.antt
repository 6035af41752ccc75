-- ===== src/Posix/Server/Loop.antt =====
-- server/posix/Server.cpp: `waitForEvents` and `handleServerConnection`.
use c11http.Common.{
  ℕ, zero, suc, ◌+◌, true, false, Option, none, some, [], ◌==◌, ltb, if◌then◌else◌, M, get, modify,
  pure, ◌>>=◌, ◌>>◌, call, or_raise, when, try_catch, select_failed, fault,
}
use c11http.Callback.{receive_complete, connected, disconnected}
use c11http.Posix.{
  Os, FdSet, fd_zero, fd_add, fd_clear, below_setsize, notify, notify_if, in_world, max_buffer_size,
}
use c11http.Posix.Connection.{perform_receive, accept_connection, send_queued_message}
use c11http.Posix.Connections.{
  deref, new_cell, at_cell, add_server_connection, get_by_socket, get_max, remove_server_connection,
  clear,
}
use c11http.Posix.Server.{Server, Point, testing, selecting, finished, in_store, in_env, shutdown}
use c11http.Posix.Socket.{close_socket}

-- std::max of two descriptors.
abbrev pub max2 : ℕ → ℕ → ℕ
max2 a b = if ltb a b then b else a

-- std::max(serverMax, mConnections->getMax()).
abbrev pub max_with : ℕ → Option ℕ → ℕ
max_with server_max none = server_max
max_with server_max (some m) = max2 server_max m

abbrev pub fdmax : {W : Type 0} → Server W → ℕ
fdmax s = max_with (max2 s.wakeup_read s.connect_socket) (get_max s.store)

-- What `waitForEvents` leaves before its loop.
abbrev pub started : {W : Type 0} → Server W → Server W
started s = record s {
  store = record s.store {
    container = [];
    mapping = [];
    read = fd_add s.connect_socket (fd_add s.wakeup_read fd_zero);
    fd_max = none;
  };
  has_connections = true;
}

-- The start of `waitForEvents`, up to its loop.
unfoldable pub start_waiting : {W : Type 0} → Os W → M (Server W) (Unit {0})
start_waiting os = do
  s ← get
  below_setsize os s.wakeup_read
  below_setsize os s.connect_socket
  modify started

module _ {W : Type 0} (os : Os W) where
  abbrev receive_from : ℕ → M (Server W) (Unit {0})
  receive_from p = do
    c ← in_store (deref p)
    bytes ← in_env (in_world (perform_receive os c.socket))
    in_env (notify_if (receive_complete c.identifier bytes))

  -- The handler of an exception in `receive_from`.
  abbrev drop_connection : ℕ → ℕ → M (Server W) (Unit {0})
  drop_connection p sckt = do
    s ← get
    when s.store.env.has_callback
        do c ← in_store (deref p); in_env (notify (disconnected c.identifier))
    in_store (remove_server_connection os sckt)

  abbrev handle_found : ℕ → Option ℕ → M (Server W) (Unit {0})
  handle_found sckt none = pure tt
  handle_found sckt (some p) = try_catch (receive_from p) (drop_connection p sckt)

  unfoldable pub handle_server_connection : ℕ → M (Server W) (Unit {0})
  handle_server_connection sckt = do
    connection ← in_store (get_by_socket sckt)
    handle_found sckt connection

  -- The branch for the listening socket. A connection that fails is passed over.
  unfoldable pub handle_new_connection : M (Server W) (Unit {0})
  handle_new_connection =
      try_catch
        (do
          s ← get
          client ← in_env (in_world (accept_connection os s.connect_socket))
          p ← in_store (new_cell client)
          in_env (notify (connected client.identifier))
          in_store (add_server_connection os p))
        (pure tt)

  abbrev send_if_found : Option ℕ → M (Server W) (Unit {0})
  send_if_found none = pure tt
  send_if_found (some p) = in_store (at_cell p (send_queued_message os))

  unfoldable pub handle_write : ℕ → M (Server W) (Unit {0})
  handle_write i = do
    connection ← in_store (get_by_socket i)
    send_if_found connection
    modify (λ s. record s { master_write = fd_clear i s.master_write })

  -- The read of the wakeup pipe, by `recv`, whose result is not looked at.
  unfoldable pub read_wakeup : M (Server W) (Unit {0})
  read_wakeup s =
      in_env (in_world (call (os.recv s.wakeup_read max_buffer_size) >>= λ _. pure tt)) s

  -- The body of the loop over the descriptors, for one of them.
  unfoldable pub handle_fd : ℕ → FdSet → FdSet → M (Server W) (Unit {0})
  unfolding handle_server_connection handle_new_connection handle_write read_wakeup
  handle_fd i read_fds write_fds = do
    s ← get
    when (read_fds i)
        (if i == s.connect_socket then handle_new_connection else handle_server_connection i)
    when (read_fds s.wakeup_read) read_wakeup
    when (write_fds i) (handle_write i)

  unfoldable pub handle_from : ℕ → ℕ → FdSet → FdSet → M (Server W) (Unit {0})
  unfolding handle_fd
  handle_from zero i read_fds write_fds = pure tt
  handle_from (suc n) i read_fds write_fds = do
    handle_fd i read_fds write_fds
    handle_from n (i + 1) read_fds write_fds

  -- One stretch of the loop, from one point to the next.
  unfoldable pub pump : Point → M (Server W) Point
  pump testing = do
    s ← get
    pure (if s.has_been_shutdown then finished else selecting (fdmax s) s.read s.master_write)
  pump (selecting top read_set write_set) = do
    numfds ← in_env (in_world (call (os.select (top + 1) read_set write_set)))
    (read_fds, write_fds) ← or_raise numfds select_failed
    s ← get
    if s.has_been_shutdown
        then pure finished
        else handle_from (top + 1) 0 read_fds write_fds >> pure testing
  pump finished = pure finished

  -- `Server::~Server`. `mConnections` is deleted whether or not it was ever set.
  unfoldable pub destroy : M (Server W) (Unit {0})
  unfolding shutdown close_socket clear
  destroy = do
    s ← get
    when (if s.has_been_shutdown then false else true) (shutdown os)
    in_env (in_world (modify (close_socket os s.connect_socket)))
    if s.has_connections then in_store (clear os) else λ s. (fault, s)
