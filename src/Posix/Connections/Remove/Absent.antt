-- ===== src/Posix/Connections/Remove/Absent.antt =====
-- Removal by a descriptor that no connection has.
use c11http.Common.Pointers.{Owns, Fresh}
use mathlib.Core.List.{append-nil}
use c11http.Common.{ℕ, ◌≡◌, refl, false, some, List, [], arith, length, get_elem?-length, ok}
use c11http.Posix.{Os, fd_clear}
use c11http.Posix.Connection.{ServerConnection}
use c11http.Posix.Connections.{Store, finder, remove_loop, remove_server_connection}
use c11http.Posix.Connections.Represents.Lists.{sockets, Represents, finder-Fresh, readable-clear}
use c11http.Posix.Connections.Remove.Loop.{remove_loop-skip}

module _ {W : Type 0} (os : Os W) (s : Store W) (cs : List ServerConnection) (k : ℕ) where
  loop_absent :
      Owns s.cells s.container cs
      → Fresh k (sockets cs)
      → remove_loop (finder s k) s.container s.container 0 ≡ some (s.container, length s.container)
  unfolding remove_loop
  loop_absent o f =
      rw append-nil at
        (remove_loop-skip (finder s k) s.container [] [] (finder-Fresh s k s.container cs o f))

  cleared : Store W
  cleared = record s { read = fd_clear k s.read }

  remove_lem :
      Owns s.cells s.container cs
      → Fresh k (sockets cs)
      → remove_server_connection os k s ≡ (ok tt, cleared)
  unfolding remove_server_connection cleared
  remove_lem o f = rw (loop_absent o f, get_elem?-length)

  -- Removal by a descriptor that no connection of the store has returns, takes the descriptor out of
  -- the read set, and leaves the connections, the system and the callback as they are.
  pub remove_absent :
      Represents s cs
      → Fresh k (sockets cs)
      → (t : Store W) × (remove_server_connection os k s ≡ (ok tt, t))
        × Represents t cs
        × (t.env ≡ s.env)
        × (t.container ≡ s.container)
        × (t.read k ≡ false)
  remove_absent r f = (
    cleared,
    remove_lem r.owns f,
    unfold cleared in
        record {
          owns = r.owns;
          pointers = r.pointers;
          descriptors = r.descriptors;
          allocated = r.allocated;
          maximum = r.maximum;
          readable = readable-clear s.read k cs f r.readable;
          mapped = r.mapped;
        },
    unfold cleared in refl,
    unfold cleared in refl,
    unfold cleared in ground arith,
  )
