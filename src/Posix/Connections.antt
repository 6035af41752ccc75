-- ===== src/Posix/Connections.antt =====
-- server/posix/Connections.h and Connections.cpp, with the heap on which the ServerConnection objects
-- live. `mRead` is a reference to the read set of `Server::waitForEvents`: the set is kept here, once.
pub mod Represents
pub mod Remove
use c11http.Common.{
  ℕ, zero, suc, ◌+◌, Bool, true, false, Option, none, some, List, [], ◌∷◌, ◌++◌, ◌==◌, ltb, length,
  get_elem?, set, drop, erase_at, if◌then◌else◌, M, ok, throw, fault, get, modify, pure, raise,
  crash, demand, and_then, ◌>>=◌, ◌>>◌, or_raise, connection_not_found,
}
use c11http.Common.Assoc.{find, assign, erase}
use c11http.Common.Pointers.{update}
use c11http.Callback.{Bytes, Bytes-discrete}
use c11http.Posix.{Os, Env, FdSet, fd_add, fd_clear, below_setsize}
use c11http.Posix.Socket.{close_socket}
use c11http.Posix.Connection.{ServerConnection, Link}

-- Pointers are numbers; `cells` is the object behind each, `none` before `new` and after `delete`.
pub record Store (W : Type 0) : Type 0 where
  pub env : Env W
  pub cells : ℕ → Option ServerConnection
  pub next_cell : ℕ
  pub container : List ℕ
  pub mapping : List (Bytes × ℕ)
  pub read : FdSet
  pub fd_max : Option ℕ  -- -1 is `none`

abbrev pub deref : {W : Type 0} → ℕ → M (Store W) ServerConnection
deref p s = demand (s.cells p) s

-- std::max of an int that may be -1 and a descriptor.
abbrev pub max_fd : Option ℕ → ℕ → ℕ
max_fd none b = b
max_fd (some a) b = if ltb a b then b else a

module _ {W : Type 0} where
  -- `new ServerConnection`, once its constructor has returned.
  unfoldable pub new_cell : ServerConnection → M (Store W) ℕ
  new_cell c s = (
    ok s.next_cell,
    record s { cells = update s.cells s.next_cell (some c); next_cell = suc s.next_cell },
  )

  -- A method of the object behind a pointer.
  abbrev store_link : ℕ → Store W → Link W → Store W
  store_link p s l = record s { cells = update s.cells p (some l.this); env = l.env }

  unfoldable pub at_cell : ℕ → M (Link W) (Unit {0}) → M (Store W) (Unit {0})
  at_cell p m = do
    c ← deref p
    s ← get
    let (o, l) = m (record { this = c; env = s.env })
    λ _. (o, store_link p s l)

  -- `ServerConnectionFinder`, on a pointer that may be deleted.
  abbrev pub finder : Store W → ℕ → ℕ → Option Bool
  finder s sckt p = elim (s.cells p) [ none ↦ none | some c ↦ some (sckt == c.socket) ]

  unfoldable pub add_server_connection : Os W → ℕ → M (Store W) (Unit {0})
  add_server_connection os p = do
    modify (λ s. record s { container = s.container ++ p ∷ [] })
    c ← deref p
    modify (λ s. record s { mapping = assign Bytes-discrete c.identifier p s.mapping })
    modify (λ s. record s { fd_max = some (max_fd s.fd_max c.socket) })
    below_setsize os c.socket
    modify (λ s. record s { read = fd_add c.socket s.read })

-- `std::find_if`: `some none` is the end; `none` is a fault of the predicate.
unfoldable pub find_if : (ℕ → Option Bool) → List ℕ → Option (Option ℕ)
find_if pred [] = some none
find_if pred (p ∷ ps) = elim (pred p) [
  | none ↦ none
  | some true ↦ some (some p)
  | some false ↦ find_if pred ps
]

-- `std::remove_if`: each element that stays is moved to the place `result`, and what lies behind the
-- last place is left as it was. `rest` is what is still to be read; `none` is a fault.
unfoldable pub remove_loop : (ℕ → Option Bool) → List ℕ → List ℕ → ℕ → Option (List ℕ × ℕ)
remove_loop pred [] vec result = some (vec, result)
remove_loop pred (p ∷ rest) vec result = elim (pred p) [
  | none ↦ none
  | some true ↦ remove_loop pred rest vec result
  | some false ↦ remove_loop pred rest (set vec result p) (suc result)
]

-- The loop that finds `mFdMax` anew.
unfoldable pub max_loop : (ℕ → Option ServerConnection) → Option ℕ → List ℕ → Option (Option ℕ)
max_loop cells acc [] = some acc
max_loop cells acc (p ∷ ps) = elim (cells p) [
  | none ↦ none
  | some c ↦ max_loop cells (some (max_fd acc c.socket)) ps
]

module _ {W : Type 0} where
  -- `getServerConnection` by descriptor; the null pointer is `none`.
  unfoldable pub get_by_socket : ℕ → M (Store W) (Option ℕ)
  get_by_socket sckt s = demand (find_if (finder s sckt) s.container) s

  -- `getServerConnection` by identifier.
  unfoldable pub get_by_identifier : Bytes → M (Store W) ℕ
  get_by_identifier identifier s =
      or_raise (find Bytes-discrete identifier s.mapping) connection_not_found s

  unfoldable pub get_max : Store W → Option ℕ
  get_max s = s.fd_max

  unfoldable pub size : Store W → ℕ
  size s = length s.container

module _ {W : Type 0} (os : Os W) where
  -- `delete`, with `~ServerConnection`.
  unfoldable pub delete_cell : ℕ → M (Store W) (Unit {0})
  unfolding close_socket
  delete_cell p = do
    c ← deref p
    modify λ s. record s {
      env = record s.env { world = close_socket os c.socket s.env.world };
      cells = update s.cells p none;
    }

  -- What `removeServerConnection` does with the iterator that `remove_if` returns.
  abbrev erase_found : ℕ → Option ℕ → M (Store W) (Unit {0})
  erase_found last none = pure tt
  erase_found last (some p) = do
    c ← deref p
    modify (λ s. record s { mapping = erase Bytes-discrete c.identifier s.mapping })
    delete_cell p
    modify (λ s. record s { container = erase_at s.container last })
    s ← get
    fd_max ← demand (max_loop s.cells none s.container)
    modify (λ s. record s { fd_max = fd_max })

  unfoldable pub remove_server_connection : ℕ → M (Store W) (Unit {0})
  unfolding remove_loop max_loop delete_cell
  remove_server_connection sckt = do
    modify (λ s. record s { read = fd_clear sckt s.read })
    s ← get
    (vec, last) ← demand (remove_loop (finder s sckt) s.container s.container 0)
    modify (λ s. record s { container = vec })
    erase_found last (get_elem? vec last)

  delete_all : List ℕ → M (Store W) (Unit {0})
  unfolding delete_cell
  delete_all [] = pure tt
  delete_all (p ∷ ps) = delete_cell p >> delete_all ps

  -- `Connections::clear`, which is also the destructor. `mMapping` and `mFdMax` are left alone.
  unfoldable pub clear : M (Store W) (Unit {0})
  unfolding delete_all
  clear = do s ← get; delete_all s.container; modify (λ s. record s { container = [] })
