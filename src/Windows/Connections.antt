-- ===== src/Windows/Connections.antt =====
-- server/windows/ServerConnection.cpp and Connections.cpp, with the heap on which the ServerConnection
-- objects live. `mBuffer` is filled by the system alone; nothing reads `mOperation`, and `mBytes` stays 0.
pub mod Represents
pub mod Rotation
pub mod Removal
use c11http.Common.{
  ℕ, suc, Bool, true, false, Option, none, some, List, [], ◌∷◌, ◌++◌, ◌==◌, length, M, ok, get,
  modify, pure, demand, and_then, ◌>>=◌, ◌>>◌, or_raise, client_not_found, call, erase_at,
}
use c11http.Common.Assoc.{find, assign, erase}
use c11http.Common.Pointers.{update}
use c11http.Callback.{Bytes, Bytes-discrete}
use c11http.Posix.{Env, in_world}
use c11http.Posix.Connections.{find_if}
use c11http.Windows.{Winsock}
use c11http.Windows.Socket.{construct_overlap, destroy_overlap}

pub record ServerConnection : Type 0 where
  pub socket : ℕ
  pub event : ℕ  -- getOverlap()->hEvent
  pub identifier : Bytes

-- Pointers are numbers; `cells` is the object behind each, `none` before `new` and after `delete`.
pub record Store (W : Type 0) : Type 0 where
  pub env : Env W
  pub cells : ℕ → Option ServerConnection
  pub next_cell : ℕ
  pub container : List ℕ
  pub mapping : List (Bytes × ℕ)

abbrev pub in_env {ℓ} : {W : Type 0} {A : Type ℓ} → M (Env W) A → M (Store W) A
in_env m s = let (o, env) = m s.env in (o, record s { env = env })

abbrev pub deref : {W : Type 0} → ℕ → M (Store W) ServerConnection
deref p s = demand (s.cells p) s

-- The first connection goes behind the others.
abbrev pub rotate {ℓ} : {A : Type ℓ} → List A → List A
rotate [] = []
rotate (p ∷ ps) = ps ++ p ∷ []

-- `ServerConnectionFinder`, on a pointer that may be deleted.
abbrev pub finder : {W : Type 0} → Store W → ℕ → ℕ → Option Bool
finder s handle p = elim (s.cells p) [ none ↦ none | some c ↦ some (handle == c.event) ]

module _ {W : Type 0} where
  -- The events of the connections, in the order of the container.
  unfoldable pub events_of : List ℕ → M (Store W) (List ℕ)
  events_of [] = pure []
  events_of (p ∷ ps) = do c ← deref p; rest ← events_of ps; pure (c.event ∷ rest)

  unfoldable pub get_handle_array : ℕ → M (Store W) (List ℕ)
  unfolding events_of
  get_handle_array server_handle = do
    modify (λ s. record s { container = rotate s.container })
    s ← get
    events ← events_of s.container
    pure (server_handle ∷ events)

  unfoldable pub add_server_connection : ℕ → Bytes → M (Store W) (Unit {0})
  add_server_connection p identifier = do
    c ← deref p
    modify λ s. record s {
      cells = update s.cells p (some (record c { identifier = identifier }));
      mapping = assign Bytes-discrete identifier p s.mapping;
      container = s.container ++ p ∷ [];
    }

  unfoldable pub get_by_handle : ℕ → M (Store W) ℕ
  get_by_handle handle = do
    s ← get
    found ← demand (find_if (finder s handle) s.container)
    or_raise found client_not_found

  unfoldable pub get_by_identifier : Bytes → M (Store W) ℕ
  get_by_identifier identifier s =
      or_raise (find Bytes-discrete identifier s.mapping) client_not_found s

  unfoldable pub size : Store W → ℕ
  size s = length s.container

-- The place of the element that `std::find_if` finds, `none` at the end.
unfoldable pub index_of : ℕ → List ℕ → ℕ
index_of p [] = 0
index_of p (q ∷ qs) = elim (p == q) [ true ↦ 0 | false ↦ suc (index_of p qs) ]

module _ {W : Type 0} (ws : Winsock W) where
  -- `new ServerConnection(socket, server)`. Where the overlap cannot be made, the exception of the
  -- constructor runs `~Overlap` on none.
  unfoldable pub new_connection : ℕ → M (Store W) ℕ
  unfolding construct_overlap
  new_connection fd = do
    event ← in_env (in_world (construct_overlap ws))
    λ s. (
      ok s.next_cell,
      record s {
        cells =
            update s.cells s.next_cell
              (some (record { socket = fd; event = event; identifier = [] }));
        next_cell = suc s.next_cell;
      },
    )

  -- `delete`, with `~ServerConnection` and `~Overlap`.
  unfoldable pub delete_cell : ℕ → M (Store W) (Unit {0})
  unfolding destroy_overlap
  delete_cell p = do
    c ← deref p
    modify λ s. record s {
      env = record s.env {
        world = destroy_overlap ws c.event (ws.close_socket c.socket s.env.world);
      };
      cells = update s.cells p none;
    }

  abbrev erase_found : Option ℕ → M (Store W) (Unit {0})
  erase_found none = pure tt
  erase_found (some p) = do
    c ← deref p
    modify (λ s. record s { mapping = erase Bytes-discrete c.identifier s.mapping })
    delete_cell p
    modify (λ s. record s { container = erase_at s.container (index_of p s.container) })

  -- `removeServerConnection` by handle.
  unfoldable pub remove_by_handle : ℕ → M (Store W) (Unit {0})
  unfolding find_if delete_cell
  remove_by_handle handle = do
    s ← get
    found ← demand (find_if (finder s handle) s.container)
    erase_found found

  abbrev remove_found : Option ℕ → M (Store W) (Unit {0})
  remove_found none = pure tt
  remove_found (some p) = do c ← deref p; remove_by_handle c.event

  -- `removeServerConnection` by identifier.
  unfoldable pub remove_by_identifier : Bytes → M (Store W) (Unit {0})
  unfolding remove_by_handle
  remove_by_identifier identifier = do
    s ← get
    remove_found (find Bytes-discrete identifier s.mapping)

  unfoldable pub delete_all : List ℕ → M (Store W) (Unit {0})
  unfolding delete_cell
  delete_all [] = pure tt
  delete_all (p ∷ ps) = delete_cell p >> delete_all ps

  -- `Connections::~Connections`.
  unfoldable pub destroy : M (Store W) (Unit {0})
  unfolding delete_all
  destroy = do
    s ← get
    delete_all s.container
    modify (λ s. record s { container = []; mapping = [] })
