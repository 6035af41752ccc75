-- ===== src/Posix/Client.antt =====
-- client/posix/Client.h and Client.cpp: the connecting end and its event loop, a state machine that
-- stops where other threads can call the client. `mBuffer` is scratch space for `recv`.
pub mod Construct
pub mod Queue
pub mod Round
pub mod Final
pub mod Conservation
use c11http.Common.{
  ℕ, suc, ◌+◌, ◌<◌, Bool, true, false, not, Option, none, some, List, [], ◌∷◌, ◌++◌, ltb, length,
  if◌then◌else◌, M, ok, get, modify, pure, raise, and_then, ◌>>=◌, ◌>>◌, call, or_raise, throw_if,
  when, connect_failed, wakeup_pipe, select_failed, recv_failed, poll_failed,
  not_presentation_format, inet_pton_failed,
}
use c11http.Callback.{Bytes, Event, receive_complete, send_complete}
use c11http.Posix.{
  Os, Env, FdSet, Address, Pton, converted, no_address, pton_error, fd_zero, fd_add, fd_clear,
  below_setsize, notify_if, in_world, max_buffer_size,
}
use c11http.Posix.Connection.{first_of}
use c11http.Posix.Socket.{new_socket, make_non_blocking, close_socket}

pub record Client (W : Type 0) : Type 0 where
  pub env : Env W
  pub wakeup_read : ℕ  -- mWakeupPipe[0]
  pub wakeup_write : ℕ  -- mWakeupPipe[1]
  pub fd_max : ℕ
  pub is_connected : Bool
  pub identifier : Bytes
  pub master_write : FdSet
  pub socket : ℕ
  pub outgoing_bytes : Bytes

abbrev pub in_env {ℓ} : {W : Type 0} {A : Type ℓ} → M (Env W) A → M (Client W) A
in_env m s = let (o, env) = m s.env in (o, record s { env = env })

abbrev pub on_world {ℓ} : {W : Type 0} {A : Type ℓ} → M W A → M (Client W) A
on_world m = in_env (in_world m)

-- A `sockaddr_in` after `memset(&server, 0, sizeof(server))`.
abbrev zeroed : Address → Address
zeroed server = record { family = 0; port = 0; host = 0 }

-- The two checks of the result of `inet_pton`, which fills in the address.
abbrev with_host : {W : Type 0} → Pton → Address → M W Address
with_host (converted host) server = pure (record server { host = host })
with_host no_address server = raise not_presentation_format
with_host pton_error server = raise inet_pton_failed

-- Where the loop of `waitForEvents` stands: before its test, in `select` with the write set copied,
-- or past its end.
pub data Point : Type 0 where
  testing : Point
  selecting : FdSet → Point
  finished : Point

-- The start of `waitForEvents`; its read set never changes.
unfoldable pub start_waiting : {W : Type 0} → Os W → M (Client W) (Unit {0})
start_waiting os = do
  modify (λ s. record s { master_write = fd_zero })
  s ← get
  below_setsize os s.wakeup_read
  below_setsize os s.socket

abbrev pub master_read : {W : Type 0} → Client W → FdSet
master_read s = fd_add s.socket (fd_add s.wakeup_read fd_zero)

module _ {W : Type 0} (os : Os W) where
  -- `Client::prepareWakeupPipe`: the two ends, and `mFdMax`.
  unfoldable pub prepare_wakeup_pipe : ℕ → M W (ℕ × ℕ × ℕ)
  prepare_wakeup_pipe socket = do
    made ← call os.pipe
    (read_end, write_end) ← or_raise made wakeup_pipe
    pure (read_end, write_end, if ltb read_end socket then socket else read_end)

  -- `Client::Client`. `unset` is what `mMasterWrite` and an unset `sockaddr_in` hold.
  unfoldable pub new_client : Bool → Bytes → ℕ → Bytes → FdSet → Address → M W (Client W)
  unfolding new_socket make_non_blocking prepare_wakeup_pipe
  new_client has_callback hostname port identifier unset unset_address = do
    socket ← new_socket os
    result ← call (os.inet_pton hostname)
    server ← with_host result unset_address
    let server' = record (zeroed server) { family = os.inet; port = os.htons port }
    linked ← call (os.connect socket server')
    throw_if (not linked) connect_failed
    call (os.recv socket 4) >>= λ _. pure tt
    call (os.send socket identifier) >>= λ _. pure tt
    make_non_blocking os socket
    (wakeup_read, wakeup_write, fd_max) ← prepare_wakeup_pipe socket
    world ← get
    pure (record {
      env = record { world = world; has_callback = has_callback; log = [] };
      wakeup_read = wakeup_read;
      wakeup_write = wakeup_write;
      fd_max = fd_max;
      is_connected = true;
      identifier = identifier;
      master_write = unset;
      socket = socket;
      outgoing_bytes = [];
    })

  unfoldable pub perform_wakeup : M (Client W) (Unit {0})
  perform_wakeup = do
    s ← get
    on_world (call (os.poll_out s.wakeup_write) >>= λ _. pure tt)
    on_world (modify (os.write s.wakeup_write (b'.' ∷ [])))

  -- The bytes to send are put in front of those that wait.
  unfoldable pub send_data_to_server : Bytes → M (Client W) (Unit {0})
  unfolding perform_wakeup
  send_data_to_server bytes = when (ltb 0 (length bytes)) do
    modify (λ s. record s { outgoing_bytes = bytes ++ s.outgoing_bytes })
    s ← get
    below_setsize os s.socket
    modify (λ s. record s { master_write = fd_add s.socket s.master_write })
    perform_wakeup

  unfoldable pub disconnect : M (Client W) (Unit {0})
  unfolding perform_wakeup close_socket
  disconnect = do
    s ← get
    when s.is_connected do
      modify (λ s. record s { is_connected = false })
      ready ← on_world (call (os.poll_out s.socket))
      throw_if (not ready) poll_failed
      on_world (call (os.send s.socket []) >>= λ _. pure tt)
      on_world (modify (close_socket os s.socket))
      perform_wakeup

  -- `Client::~Client`.
  unfoldable pub destroy : M (Client W) (Unit {0})
  unfolding disconnect
  destroy = do s ← get; when s.is_connected disconnect

  -- The three branches on the result of the receive.
  abbrev received : Option Bytes → M (Client W) (Unit {0})
  received none = raise recv_failed
  received (some []) = modify (λ s. record s { is_connected = false })
  received (some (b ∷ bytes)) = do
    s ← get
    in_env (notify_if (receive_complete s.identifier (b ∷ bytes)))

  unfoldable pub handle_read : M (Client W) (Unit {0})
  handle_read = do
    s ← get
    nbytes ← on_world (call (os.recv s.socket max_buffer_size))
    received nbytes

  -- What the system takes of the bytes is compared with their number, and the result not used.
  unfoldable pub handle_write : M (Client W) (Unit {0})
  handle_write = do
    s ← get
    modify (λ s. record s { outgoing_bytes = [] })
    first_of s.outgoing_bytes
    on_world (call (os.send s.socket s.outgoing_bytes) >>= λ _. pure tt)
    in_env (notify_if (send_complete s.identifier (length s.outgoing_bytes)))
    modify (λ s. record s { master_write = fd_clear s.socket s.master_write })

  unfoldable pub handle_ready : FdSet → FdSet → M (Client W) (Unit {0})
  unfolding handle_read handle_write
  handle_ready read_fds write_fds = do
    s ← get
    when (read_fds s.socket) handle_read
    when (read_fds s.wakeup_read)
        (on_world (call (os.recv s.wakeup_read max_buffer_size) >>= λ _. pure tt))
    when (write_fds s.socket) handle_write

  -- One stretch of the loop, from one point to the next.
  unfoldable pub pump : Point → M (Client W) Point
  pump testing = do s ← get; pure (if s.is_connected then selecting s.master_write else finished)
  pump (selecting write_set) = do
    s ← get
    ready ← on_world (call (os.select (s.fd_max + 1) (master_read s) write_set))
    (read_fds, write_fds) ← or_raise ready select_failed
    s ← get
    if s.is_connected then handle_ready read_fds write_fds >> pure testing else pure finished
  pump finished = pure finished
