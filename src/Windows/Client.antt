-- ===== src/Windows/Client.antt =====
-- client/windows/Client.cpp: the connecting end on overlapped calls, apart from its loop. `mBuffer` is
-- filled by the system alone.
pub mod Connecting
pub mod Receiving
pub mod Sending
pub mod Final
pub mod Loop
use c11http.Common.{
  ℕ, zero, suc, Bool, true, false, not, ◌||◌, Option, none, some, List, [], ◌∷◌, ◌++◌, ◌==◌, leb,
  if◌then◌else◌, M, ok, throw, fault, get, modify, pure, raise, demand, and_then, ◌>>=◌, ◌>>◌, call,
  throw_if, when, get_elem?, get_addr_info_failed, no_addresses, connect_failed,
  prepare_receive_failed, wait_failed, invalid_handle, not_io_pending,
}
use c11http.Callback.{Bytes, send_complete, receive_complete}
use c11http.Posix.{Env, notify_if, in_world}
use c11http.Windows.{
  Winsock, Io, completed, pending, io_error, Wait, wait_error, io_completion, signalled, Received,
  at_once, io_pending, connection_reset, recv_error,
}
use c11http.Windows.Socket.{new_socket, create_overlap, destroy_overlap}

pub record Client (W : Type 0) : Type 0 where
  pub env : Env W
  pub socket : ℕ  -- 0 or INVALID_SOCKET is none
  pub event : Option ℕ  -- getOverlap()->hEvent, once there is an overlap
  pub send_event : Option ℕ  -- mSendOverlap->getOverlap()->hEvent, once it has been made
  pub is_connected : Bool
  pub identifier : Bytes
  pub send_buffers : List Bytes

abbrev pub in_env {ℓ} : {W : Type 0} {A : Type ℓ} → M (Env W) A → M (Client W) A
in_env m s = let (o, env) = m s.env in (o, record s { env = env })

abbrev pub on_world {ℓ} : {W : Type 0} {A : Type ℓ} → M W A → M (Client W) A
on_world m = in_env (in_world m)

-- A call whose effect on the system is all that counts.
abbrev pub effect : {W : Type 0} → (W → W) → M (Client W) (Unit {0})
effect f = on_world (modify f)

-- Where the loop of `waitForEvents` stands, with the two handles that it has fetched: before its tests,
-- in the wait for the handles, or past its end.
pub data Point : Type 0 where
  testing : ℕ → ℕ → Point
  waiting : ℕ → ℕ → Point
  finished : Point

module _ {W : Type 0} (ws : Winsock W) where
  -- `Client::Client`. It sets neither the socket nor the flag nor the pointer to the second overlap: a
  -- client stands as `unset` has it, but for its callback. The exception of `WSAStartup` runs
  -- `~Overlap` on no overlap, which reads through a null pointer.
  unfoldable pub new_client : Bool → (W → Client W) → M W (Client W)
  new_client has_callback unset = do
    started ← call ws.startup
    when (not started) (modify ws.cleanup)
    demand (if started then some tt else none)
    world ← get
    pure (record (unset world) {
      env = record { world = world; has_callback = has_callback; log = [] };
    })

  -- The result of `getaddrinfo`, which leaves on an error and on no result.
  abbrev pub addresses_of : Option (List ℕ) → M (Client W) (List ℕ)
  addresses_of none = do effect ws.cleanup; raise get_addr_info_failed
  addresses_of (some []) = do effect ws.cleanup; raise no_addresses
  addresses_of (some (a ∷ addresses)) = pure (a ∷ addresses)

  -- The loop over the addresses. A socket that does not connect is not closed.
  unfoldable pub try_addresses : List ℕ → M (Client W) (Unit {0})
  unfolding new_socket
  try_addresses [] = pure tt
  try_addresses (a ∷ addresses) =
      let next = try_addresses addresses in
      do
        fd ← on_world (new_socket ws)
        linked ← on_world (call (ws.connect fd a))
        if linked then modify (λ s. record s { socket = fd }) else next

  abbrev pub is_no_socket : ℕ → Bool
  is_no_socket fd = fd == 0 || fd == ws.invalid_socket

  -- What `WSARecv` answers in `prepareClientToReceiveData`: `more` is its call of itself. Every error
  -- but WSA_IO_PENDING throws, so the source's test for WSAECONNRESET after it never holds.
  abbrev after_receive : M (Client W) Bool → Received → M (Client W) Bool
  after_receive more (at_once bytes) = do
    s ← get
    in_env (notify_if (receive_complete s.identifier bytes))
    more
  after_receive more io_pending = pure true
  after_receive more connection_reset = raise prepare_receive_failed
  after_receive more recv_error = raise prepare_receive_failed

  -- `prepareClientToReceiveData`, which calls itself as long as a receive completes at once. The number
  -- is that of the calls that it may make; `false` says that these did not do.
  unfoldable pub prepare_to_receive : ℕ → M (Client W) Bool
  prepare_to_receive zero = pure false
  prepare_to_receive (suc calls) =
      let more = prepare_to_receive calls in
      do
        s ← get
        event ← demand s.event
        answer ← on_world (call (ws.recv_now s.socket event))
        after_receive more answer

  -- What `connect` does behind its loop, up to its last call.
  unfoldable pub finish_connection : M (Client W) (Unit {0})
  unfolding create_overlap
  finish_connection = do
    effect ws.free_addr_info
    s ← get
    throw_if (is_no_socket s.socket) connect_failed
    event ← on_world (create_overlap ws)
    modify (λ s. record s { event = some event })
    send_event ← on_world (create_overlap ws)
    modify (λ s. record s { send_event = some send_event })

  -- `Client::connect`, up to its last call.
  unfoldable pub open_connection : Bytes → ℕ → M (Client W) (Unit {0})
  unfolding try_addresses finish_connection
  open_connection hostname port = do
    found ← on_world (call (ws.get_addresses hostname port))
    addresses ← addresses_of found
    try_addresses addresses
    finish_connection

  unfoldable pub connect : ℕ → Bytes → ℕ → M (Client W) Bool
  unfolding open_connection prepare_to_receive
  connect calls hostname port = do open_connection hostname port; prepare_to_receive calls

  -- `Client::~Client`, with `delete mSendOverlap`, and then the destructor of the base `Overlap`.
  unfoldable pub destroy : M (Client W) (Unit {0})
  unfolding destroy_overlap
  destroy = do
    s ← get
    effect (ws.close_socket s.socket)
    modify (λ s. record s { socket = ws.invalid_socket })
    send_event ← demand s.send_event
    effect (destroy_overlap ws send_event)
    event ← demand s.event
    effect (destroy_overlap ws event)

  unfoldable pub disconnect : M (Client W) (Unit {0})
  disconnect = do
    s ← get
    when s.is_connected do
      modify (λ s. record s { is_connected = false; env = record s.env { has_callback = false } })
      effect (ws.send_nothing s.socket)
      event ← demand s.event
      effect (ws.set_event event)
      effect (ws.send_disconnect s.socket)
      effect (ws.recv_disconnect s.socket)
      effect (ws.close_socket s.socket)

  -- What the callback is told of a send, if the system gives its result.
  abbrev pub report_sent : Option ℕ → M (Client W) (Unit {0})
  report_sent none = pure tt
  report_sent (some count) = do s ← get; in_env (notify_if (send_complete s.identifier count))

  -- The three ways in which `WSASend` returns. The result of one that returns at once is asked for with
  -- a null `lpdwFlags`.
  abbrev after_send : ℕ → Io → M (Client W) (Unit {0})
  after_send event io_error = raise not_io_pending
  after_send event pending = pure tt
  after_send event completed = do
    s ← get
    result ← on_world (call (ws.sent_result_unflagged s.socket event))
    report_sent result

  unfoldable pub send_data_to_server : Bytes → M (Client W) (Unit {0})
  send_data_to_server bytes = do
    modify (λ s. record s { send_buffers = s.send_buffers ++ bytes ∷ [] })
    s ← get
    event ← demand s.send_event
    io ← on_world (call (ws.send s.socket bytes event))
    after_send event io
