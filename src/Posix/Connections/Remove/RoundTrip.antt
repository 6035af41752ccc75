-- ===== src/Posix/Connections/Remove/RoundTrip.antt =====
-- A connection that is added and then removed.
use c11http.Common.{
  ℕ, ◌<◌, ◌≡◌, ◌≢◌, refl, sym, ◌∙◌, ap, false, List, arith, ok, M, and_then, ◌>>=◌, ◌>>◌,
}
use c11http.Common.Pointers.{Fresh}
use c11http.Common.Assoc.{find, find-assign_ne, find-erase_ne}
use c11http.Callback.{Bytes, Bytes-discrete}
use c11http.Posix.{Os, FdSet, fd_add, fd_clear}
use c11http.Posix.Socket.{close_socket}
use c11http.Posix.Connection.{ServerConnection}
use c11http.Posix.Connections.{Store, new_cell, add_server_connection, remove_server_connection}
use c11http.Posix.Connections.Represents.Lists.{sockets, Represents}
use c11http.Posix.Connections.Represents.Add.{added, add_lem, added-Represents}
use c11http.Posix.Connections.Remove.Last.{removed, remove_last_removed}

module _ {W : Type 0} (os : Os W) (s : Store W) (cs : List ServerConnection)
    (c : ServerConnection) where
  abbrev pub add_and_remove : M (Store W) (Unit {0})
  add_and_remove = (new_cell c >>= add_server_connection os) >> remove_server_connection os c.socket

  set_back : (set : FdSet) (fd k : ℕ) → set fd ≡ false → fd_clear fd (fd_add fd set) k ≡ set k
  set_back set fd k h = ground arith

  -- A new connection, with a descriptor of its own below FD_SETSIZE that is not watched, is added to a store that stands
  -- for some connections, and removed by its descriptor: both calls return, and the store stands for
  -- the same connections as before, with the same `fd_max` and the same descriptors watched; every
  -- other identifier leads where it led. The system has only closed the socket, and the callback has
  -- not noticed.
  pub add_and_remove-Represents :
      Represents s cs
      → Fresh c.socket (sockets cs)
      → c.socket < os.fd_setsize
      → s.read c.socket ≡ false
      → (t : Store W) × (add_and_remove s ≡ (ok tt, t))
        × Represents t cs
        × (t.fd_max ≡ s.fd_max)
        × ((k : ℕ) → t.read k ≡ s.read k)
        × ((i : Bytes)
            → c.identifier ≢ i
            → find Bytes-discrete i t.mapping ≡ find Bytes-discrete i s.mapping)
        × (t.env ≡ record s.env { world = close_socket os c.socket s.env.world })
  add_and_remove-Represents r f fits unwatched =
      let (qs, p, done, shape) =
        remove_last_removed os (added os s cs c) cs c (added-Represents os s cs c r f) in
      (
        removed os (added os s cs c) cs c qs p,
        ap (and_then (λ _. remove_server_connection os c.socket)) (add_lem os s cs c fits) ∙ done,
        shape,
        shape.maximum ∙ sym r.maximum,
        λ k. unfold added removed in set_back s.read c.socket k unwatched,
        λ i other.
            unfold added removed in
            find-erase_ne Bytes-discrete c.identifier i _ other
            ∙ find-assign_ne Bytes-discrete c.identifier i s.next_cell s.mapping other,
        unfold added removed in refl,
      )
