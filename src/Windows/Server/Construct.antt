-- ===== src/Windows/Server/Construct.antt =====
-- server/windows/Server.cpp: the constructor with `createServerSocket`, and the destructor.
use c11http.Common.{
  ℕ, ◌≡◌, refl, Bool, false, not, Option, none, some, if◌then◌else◌, List, [], Outcome, ok, throw,
  fault, M, get, modify, raise, pure, demand, call, throw_if, when, ◌>>=◌, ◌>>◌,
  get_addr_info_failed, bind_failed, listen_failed,
}
use c11http.Windows.{Winsock}
use c11http.Windows.Socket.{new_socket, construct_overlap, destroy_overlap}
use c11http.Windows.Connections.{ServerConnection, Store}
use c11http.Windows.Connections
use c11http.Windows.Connections.Represents.{Represents}
use c11http.Windows.Server.{Server, in_store, effect, shutdown, prepare_for_server_connection}
use c11http.Windows.Server.Shutdown.{shutdown-Represents}

module _ {W : Type 0} (ws : Winsock W) where
  -- The result of `getaddrinfo`; on an error it is freed and Winsock ended.
  abbrev pub address_of : Option ℕ → M W ℕ
  address_of none = do modify ws.free_addr_info; modify ws.cleanup; raise get_addr_info_failed
  address_of (some address) = pure address

  unfoldable pub create_server_socket : ℕ → M W ℕ
  unfolding new_socket
  create_server_socket port = do
    found ← call (ws.get_addr_info port)
    address ← address_of found
    fd ← new_socket ws
    bound ← call (ws.bind fd address)
    modify ws.free_addr_info
    throw_if (not bound) bind_failed
    listening ← call (ws.listen fd 5)
    when (not listening) (modify (λ w. ws.cleanup (ws.close_socket fd w)))
    throw_if (not listening) listen_failed
    pure fd

  -- The object of a constructor whose last call has returned.
  abbrev pub constructed : Outcome (Unit {0}) × Server W → M W (Server W)
  constructed (ok _, s) w = (ok s, s.store.env.world)
  constructed (throw e, s) w = (throw e, s.store.env.world)
  constructed (fault, s) w = (fault, s.store.env.world)

  abbrev pub empty_store : Bool → W → Store W
  empty_store has_callback world = record {
    env = record { world = world; has_callback = has_callback; log = [] };
    cells = λ p. none;
    next_cell = 1;
    container = [];
    mapping = [];
  }

  -- An exception that leaves the constructor behind `createOverlap` runs `Overlap::~Overlap`.
  abbrev pub unwound : ℕ → Outcome (Server W) × W → Outcome (Server W) × W
  unwound event (ok s, w) = (ok s, w)
  unwound event (throw e, w) = (throw e, destroy_overlap ws event w)
  unwound event (fault, w) = (fault, w)

  -- What `Server::Server` does behind `createOverlap`.
  abbrev pub construct : Bool → ℕ → ℕ → M W (Server W)
  construct has_callback port event = do
    fd ← create_server_socket port
    world ← get
    constructed (
        prepare_for_server_connection ws (record {
          store = empty_store has_callback world;
          event = event;
          server_socket = fd;
          incoming_socket = none;
          targets = [];
          has_been_shutdown = false;
          waiting_for_events = false;
        }))

  -- `Server::Server`. Its exceptions run `~Overlap`: that of `WSAStartup` on no overlap, which reads
  -- through a null pointer.
  unfoldable pub new_server : Bool → ℕ → M W (Server W)
  unfolding construct_overlap create_server_socket prepare_for_server_connection destroy_overlap
  new_server has_callback port = do
    started ← call ws.startup
    demand (if started then some tt else none)
    event ← construct_overlap ws
    λ w. unwound event (construct has_callback port event w)

  abbrev disconnect_socket : ℕ → M (Server W) (Unit {0})
  disconnect_socket fd = do
    effect (ws.recv_disconnect fd)
    effect (ws.send_disconnect fd)
    effect (ws.close_socket fd)

  -- `Server::~Server`, and then the destructors of `mConnections` and of the base `Overlap`.
  unfoldable pub destroy : M (Server W) (Unit {0})
  unfolding shutdown destroy_overlap
  destroy = do
    shutdown ws
    s ← get
    disconnect_socket s.server_socket
    fd ← demand s.incoming_socket
    disconnect_socket fd
    in_store (Connections.destroy ws)
    effect (destroy_overlap ws s.event)

  -- Whether the destructor returns depends on the socket for the next connection alone.
  abbrev pub Destroys : Option ℕ → Outcome (Unit {0}) × Server W → Type 0
  Destroys none r = r.0 ≡ fault
  Destroys (some fd) r = (r.0 ≡ ok tt) × (r.1.store.container ≡ [])

  after_shutdown :
      (s t : Server W) (incoming : Option ℕ)
      → shutdown ws s ≡ (ok tt, t)
      → t.incoming_socket ≡ incoming
      → t.store.container ≡ []
      → Destroys incoming (destroy s)
  unfolding destroy Connections.destroy Connections.delete_all
  after_shutdown s t none run there empty = rw (run, there) refl
  after_shutdown s t (some fd) run there empty = rw (run, there, empty) (refl, refl)

  -- A server on any number of connections is destroyed with none left if it has a socket for the next
  -- connection; without one, as an exception of `prepareForServerConnection` can leave it, the
  -- destructor reads through a null pointer.
  pub destroy-Destroys :
      (s : Server W) (cs : List ServerConnection)
      → Represents s.store cs
      → Destroys s.incoming_socket (destroy s)
  destroy-Destroys s cs r =
      let (t, run, _, _, empty, _, incoming) = shutdown-Represents ws s cs r in
      after_shutdown s t s.incoming_socket run incoming empty
