-- ===== src/Posix/Server/Accepting.antt =====
-- server/posix/Server.cpp: what the loop does when the listening socket is ready.
use c11http.Common.Pointers.{Fresh}
use c11http.Common.{
  ◌<◌, ltb, false, fault, ◌≡◌, refl, true, List, [], ◌∷◌, ◌++◌, arith, Error, Outcome, ok, throw,
  ◌>>=◌,
}
use c11http.Callback.{connected}
use c11http.Posix.{Os, Env}
use c11http.Posix.Connection.{ServerConnection, accept_connection}
use c11http.Posix.Connections.{Store, new_cell, add_server_connection}
use c11http.Posix.Connections.Represents.Lists.{sockets, Represents, Represents-env}
use c11http.Posix.Connections.Represents.Add.{add_new-Represents}
use c11http.Posix.Server.{Server}
use c11http.Posix.Server.Loop.{handle_new_connection}

module _ {W : Type 0} (os : Os W) where
  abbrev pub accepting : Server W → Outcome ServerConnection × W
  accepting s = accept_connection os s.connect_socket s.env.world

  abbrev pub env_after : ServerConnection → Server W → Env W
  env_after c s = record s.env {
    world = (accepting s).1;
    log = s.env.log ++ connected c.identifier ∷ [];
  }

  -- Of the two steps in between, the call of the callback does not touch the new object.
  pub accept_lem :
      (s : Server W) (c : ServerConnection) (t : Store W)
      → (accepting s).0 ≡ ok c
      → s.env.has_callback ≡ true
      → (new_cell c >>= add_server_connection os) (record s.store { env = env_after c s })
        ≡ (ok tt, t)
      → handle_new_connection os s ≡ (ok tt, record s { store = t })
  unfolding handle_new_connection new_cell add_server_connection
  accept_lem s c t e cb h = ground arith

  -- A descriptor that `FD_SET` cannot take.
  pub beyond_lem :
      (s : Server W) (c : ServerConnection)
      → (accepting s).0 ≡ ok c
      → s.env.has_callback ≡ true
      → ltb c.socket os.fd_setsize ≡ false
      → (handle_new_connection os s).0 ≡ fault
  unfolding handle_new_connection new_cell add_server_connection
  beyond_lem s c e cb beyond = ground arith

  -- A connection is accepted whose descriptor no other connection has and which is below FD_SETSIZE:
  -- the callback is told of it, and it comes behind the connections that there are.
  pub handle_new_connection-Represents :
      (s : Server W) (cs : List ServerConnection) (c : ServerConnection)
      → Represents s.store cs
      → (accepting s).0 ≡ ok c
      → s.env.has_callback ≡ true
      → Fresh c.socket (sockets cs)
      → c.socket < os.fd_setsize
      → (t : Server W) × (handle_new_connection os s ≡ (ok tt, t))
        × Represents t.store (cs ++ c ∷ [])
        × (t.env ≡ record s.env {
          world = (accepting s).1;
          log = s.env.log ++ connected c.identifier ∷ [];
        })
  handle_new_connection-Represents s cs c r e cb f fits =
      let (t, done, shape, env) =
        add_new-Represents os (record s.store { env = env_after c s }) cs c
          (Represents-env s.store cs _ r) f fits in
      (record s { store = t }, accept_lem s c t e cb done, shape, env)

  pub failed_lem :
      (s : Server W) (e : Error)
      → (accepting s).0 ≡ throw e
      → handle_new_connection os s ≡ (
        ok tt,
        record s { store = record s.store { env = record s.env { world = (accepting s).1 } } },
      )
  unfolding handle_new_connection
  failed_lem s e h = ground arith

  -- A connection that fails on the way is passed over: the loop goes on with the connections that
  -- there were, and the callback is not told.
  pub handle_new_connection-throw :
      (s : Server W) (cs : List ServerConnection) (e : Error)
      → Represents s.store cs
      → (accepting s).0 ≡ throw e
      → (t : Server W) × (handle_new_connection os s ≡ (ok tt, t))
        × Represents t.store cs
        × (t.env ≡ record s.env { world = (accepting s).1 })
  handle_new_connection-throw s cs e r h = (
    record s { store = record s.store { env = record s.env { world = (accepting s).1 } } },
    failed_lem s e h,
    Represents-env s.store cs _ r,
    refl,
  )
