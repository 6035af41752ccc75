-- ===== src/Posix/Server/Receiving.antt =====
-- server/posix/Server.cpp: `handleServerConnection`, for data and for a client that goes away.
use c11http.Common.Pointers.{Fresh}
use c11http.Common.{
  ℕ, ◌≡◌, refl, ◌∙◌, ap, ◌⊎◌, Option, none, some, List, [], ◌∷◌, ◌++◌, arith, if◌then◌else◌, ok,
  fault,
}
use c11http.Callback.{Bytes, receive_complete, disconnected}
use c11http.Posix.{Os, Env, max_buffer_size}
use c11http.Posix.Socket.{close_socket}
use c11http.Posix.Connection.{ServerConnection, perform_receive}
use c11http.Posix.Connections.{get_by_socket, remove_server_connection}
use c11http.Posix.Connections.Represents.Lists.{sockets, Represents, Represents-env}
use c11http.Posix.Connections.Represents.Find.{get_by_socket-known, get_by_socket-absent}
use c11http.Posix.Connections.Remove.Last.{remove_last}
use c11http.Posix.Connections.Remove.Other.{remove_other}
use c11http.Posix.Server.{Server, in_store}
use c11http.Posix.Server.Loop.{handle_server_connection}

module _ {W : Type 0} (os : Os W) where
  abbrev pub answer : ℕ → Server W → Option Bytes × W
  answer k s = os.recv k max_buffer_size s.env.world

  -- The receive that finds the client gone: an error, or no byte at all.
  abbrev pub IsGone : Option Bytes → Type 0
  IsGone r = (r ≡ none) ⊎ (r ≡ some [])

  abbrev pub env_after_data : Bytes → ServerConnection → Server W → Env W
  env_after_data bytes c s = record s.env {
    world = (answer c.socket s).1;
    log =
        if s.env.has_callback
        then s.env.log ++ receive_complete c.identifier bytes ∷ []
        else s.env.log;
  }

  abbrev pub env_after_loss : ServerConnection → Server W → Env W
  env_after_loss c s = record s.env {
    world = (answer c.socket s).1;
    log = if s.env.has_callback then s.env.log ++ disconnected c.identifier ∷ [] else s.env.log;
  }

  abbrev pub with_env : Env W → Server W → Server W
  with_env env s = record s { store = record s.store { env = env } }

  pub data_lem :
      (s : Server W) (c : ServerConnection) (p : ℕ) (b : ℕ) (bytes : Bytes)
      → get_by_socket c.socket s.store ≡ (ok (some p), s.store)
      → s.cells p ≡ some c
      → (answer c.socket s).0 ≡ some (b ∷ bytes)
      → handle_server_connection os c.socket s
        ≡ (ok tt, with_env (env_after_data (b ∷ bytes) c s) s)
  unfolding handle_server_connection perform_receive
  data_lem s c p b bytes e live r = ground arith

  pub loss_lem :
      (s : Server W) (c : ServerConnection) (p : ℕ)
      → get_by_socket c.socket s.store ≡ (ok (some p), s.store)
      → s.cells p ≡ some c
      → IsGone (answer c.socket s).0
      → handle_server_connection os c.socket s
        ≡ in_store (remove_server_connection os c.socket) (with_env (env_after_loss c s) s)
  unfolding handle_server_connection perform_receive
  loss_lem s c p e live r = ground arith

  -- Data from a connection: the callback, if there is one, is told of it under the connection's
  -- identifier, and no connection changes.
  pub handle_server_connection-data :
      (s : Server W) (before : List ServerConnection) (c : ServerConnection)
      (after : List ServerConnection) (b : ℕ) (bytes : Bytes)
      → Represents s.store (before ++ c ∷ after)
      → (answer c.socket s).0 ≡ some (b ∷ bytes)
      → (t : Server W) × (handle_server_connection os c.socket s ≡ (ok tt, t))
        × Represents t.store (before ++ c ∷ after)
        × (t.env ≡ env_after_data (b ∷ bytes) c s)
        × (t.master_write ≡ s.master_write)
  handle_server_connection-data s before c after b bytes r h =
      let (p, e, live, _) = get_by_socket-known s.store before c after r in
      (
        with_env (env_after_data (b ∷ bytes) c s) s,
        data_lem s c p b bytes e live h,
        Represents-env s.store (before ++ c ∷ after) _ r,
        refl,
        refl,
      )

  -- The client of the last connection goes away: the callback is told that it is disconnected, and
  -- the store stands for the connections before it, the socket closed.
  pub handle_server_connection-loss :
      (s : Server W) (cs : List ServerConnection) (c : ServerConnection)
      → Represents s.store (cs ++ c ∷ [])
      → IsGone (answer c.socket s).0
      → (t : Server W) × (handle_server_connection os c.socket s ≡ (ok tt, t))
        × Represents t.store cs
        × (t.env ≡ record (env_after_loss c s) {
          world = close_socket os c.socket (answer c.socket s).1;
        })
  handle_server_connection-loss s cs c r gone =
      let (p, e, live, _) = get_by_socket-known s.store cs c [] r in
      let (t, done, shape, env, _, _) =
        remove_last os (with_env (env_after_loss c s) s).store cs c
          (Represents-env s.store (cs ++ c ∷ []) _ r) in
      (
        record s { store = t },
        loss_lem s c p e live gone ∙ ap (λ x. (x.0, record s { store = x.1 })) done,
        shape,
        env,
      )

  -- The client of a connection that is not the last one of the container goes away: the server runs
  -- into undefined behaviour.
  pub handle_server_connection-fault :
      (s : Server W) (before : List ServerConnection) (c next : ServerConnection)
      (after : List ServerConnection)
      → Represents s.store (before ++ c ∷ next ∷ after)
      → IsGone (answer c.socket s).0
      → (handle_server_connection os c.socket s).0 ≡ fault
  handle_server_connection-fault s before c next after r gone =
      let (p, e, live, _) = get_by_socket-known s.store before c (next ∷ after) r in
      ap (λ x. x.0) (loss_lem s c p e live gone)
      ∙ remove_other os (with_env (env_after_loss c s) s).store before c next after
          (Represents-env s.store (before ++ c ∷ next ∷ after) _ r)

  -- A descriptor of no connection, such as that of the wakeup pipe: nothing happens.
  pub handle_server_connection-absent :
      (s : Server W) (cs : List ServerConnection) (k : ℕ)
      → Represents s.store cs
      → Fresh k (sockets cs)
      → handle_server_connection os k s ≡ (ok tt, s)
  unfolding handle_server_connection
  handle_server_connection-absent s cs k r f = rw (get_by_socket-absent s.store cs k r f)
