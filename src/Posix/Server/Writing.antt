-- ===== src/Posix/Server/Writing.antt =====
-- server/posix/Server.cpp: what the loop does with a descriptor that is ready for writing.
use c11http.Common.Pointers.{Fresh, update}
use c11http.Common.{
  ℕ, ◌≡◌, refl, subst, Bool, true, Option, some, List, [], ◌∷◌, ◌++◌, length, arith, if◌then◌else◌,
  ok, fault,
}
use c11http.Callback.{Bytes, send_complete}
use c11http.Posix.{Os, Env, fd_clear}
use c11http.Posix.Connection.{ServerConnection, send_queued_message, is_count}
use c11http.Posix.Connections.{at_cell, get_by_socket}
use c11http.Posix.Connections.Represents.Lists.{sockets, Represents, Represents-env}
use c11http.Posix.Connections.Represents.Find.{get_by_socket-known, get_by_socket-absent}
use c11http.Posix.Connections.Represents.Reshape.{replace-Represents}
use c11http.Posix.Server.{Server}
use c11http.Posix.Server.Loop.{handle_write}

abbrev pub emptied : ServerConnection → ServerConnection
emptied c = record c { outgoing_bytes = [] }

module _ {W : Type 0} (os : Os W) where
  abbrev pub taken : ServerConnection → Server W → Option ℕ × W
  taken c s = os.send c.socket c.outgoing_bytes s.env.world

  -- Whether the system takes all that waits.
  abbrev pub takes_all : ServerConnection → Server W → Bool
  takes_all c s = is_count (length c.outgoing_bytes) (taken c s).0

  abbrev pub env_after_write : ServerConnection → Bool → Server W → Env W
  env_after_write c all s = record s.env {
    world = (taken c s).1;
    log =
        if all
        then s.env.log ++ send_complete c.identifier (length c.outgoing_bytes) ∷ []
        else s.env.log;
  }

  abbrev pub after_write : ServerConnection → ℕ → Bool → Server W → Server W
  after_write c p all s = record s {
    store = record s.store {
      cells = update s.cells p (some (emptied c));
      env = env_after_write c all s;
    };
    master_write = fd_clear c.socket s.master_write;
  }

  pub write_lem :
      (s : Server W) (c : ServerConnection) (p : ℕ) (b : ℕ) (bytes : Bytes)
      → c.outgoing_bytes ≡ b ∷ bytes
      → get_by_socket c.socket s.store ≡ (ok (some p), s.store)
      → s.cells p ≡ some c
      → s.env.has_callback ≡ true
      → handle_write os c.socket s ≡ (ok tt, after_write c p (takes_all c s) s)
  unfolding handle_write send_queued_message at_cell
  write_lem s c p b bytes waits e live cb = ground (arith, waits)

  pub write_empty_lem :
      (s : Server W) (c : ServerConnection) (p : ℕ)
      → c.outgoing_bytes ≡ []
      → get_by_socket c.socket s.store ≡ (ok (some p), s.store)
      → s.cells p ≡ some c
      → (handle_write os c.socket s).0 ≡ fault
  unfolding handle_write send_queued_message at_cell
  write_empty_lem s c p waits e live = ground (arith, waits)

  -- A connection that is ready for writing and has something to send has its queue sent in one go and emptied, its descriptor
  -- leaves the write set, and the callback is told of the bytes exactly when the system took all.
  pub handle_write-Represents :
      (s : Server W) (cs : List ServerConnection) (before : List ServerConnection)
      (c : ServerConnection) (after : List ServerConnection) (b : ℕ) (bytes : Bytes)
      → c.outgoing_bytes ≡ b ∷ bytes
      → cs ≡ before ++ c ∷ after
      → Represents s.store cs
      → s.env.has_callback ≡ true
      → (t : Server W) × (handle_write os c.socket s ≡ (ok tt, t))
        × ((left : List ServerConnection) × (right : List ServerConnection) × (cs
              ≡ left ++ c ∷ right)
            × Represents t.store (left ++ emptied c ∷ right))
        × (t.env ≡ env_after_write c (takes_all c s) s)
        × (t.master_write ≡ fd_clear c.socket s.master_write)
  handle_write-Represents s cs before c after b bytes waits g r cb =
      let (p, e, live, at) =
        get_by_socket-known s.store before c after (subst (Represents s.store) g r) in
      let (left, right, h, shape) =
        replace-Represents s.store cs p c (emptied c) r at live refl refl in
      (
        after_write c p (takes_all c s) s,
        write_lem s c p b bytes waits e live cb,
        (left, right, h, Represents-env _ (left ++ emptied c ∷ right) _ shape),
        refl,
        refl,
      )

  -- A descriptor that no connection has any more is only taken out of the write set.
  pub handle_write-absent :
      (s : Server W) (cs : List ServerConnection) (k : ℕ)
      → Represents s.store cs
      → Fresh k (sockets cs)
      → handle_write os k s ≡ (ok tt, record s { master_write = fd_clear k s.master_write })
  unfolding handle_write
  handle_write-absent s cs k r f = rw (get_by_socket-absent s.store cs k r f)
