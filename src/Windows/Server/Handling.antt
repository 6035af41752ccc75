-- ===== src/Windows/Server/Handling.antt =====
-- server/windows/Server.cpp: what `waitForEvents` does with the handle of a connection.
use mathlib.Core.List.{map-append}
use c11http.Common.{
  Bool, Outcome, throw, prepare_receive_failed, ℕ, ◌≡◌, ◌≢◌, refl, sym, subst, true, false, Option,
  some, List, [], ◌∷◌, ◌++◌, ok, arith,
}
use c11http.Common.Pointers.{Distinct, Distinct-split}
use c11http.Callback.{Bytes, receive_complete, disconnected}
use c11http.Posix.{Env}
use c11http.Posix.Connections.{find_if}
use c11http.Windows.{Winsock}
use c11http.Windows.Socket.{destroy_overlap}
use c11http.Windows.Connections.{ServerConnection, Store, finder, get_by_handle, remove_by_handle}
use c11http.Windows.Connections.Represents.{events, Represents, Represents-env}
use c11http.Windows.Connections.Removal.{
  find_if-mid, finder-Fresh, Owns-mid, remove_by_handle-Represents,
}
use c11http.Windows.Server.{Server, fails, handle_event, queue_receive}

-- The lookup by handle finds the connection.
pub get_by_handle-found :
    {W : Type 0} (s : Store W) (before : List ServerConnection) (c : ServerConnection)
    (after : List ServerConnection)
    → Represents s (before ++ c ∷ after)
    → (p : ℕ) × (get_by_handle c.event s ≡ (ok p, s)) × (s.cells p ≡ some c)
unfolding get_by_handle
get_by_handle-found s before c after r =
    let (qs, p, rs, e, left, live, right) = Owns-mid s.cells s.container before c after r.owns in
    let (_, _, alone) =
      Distinct-split (events before) c.event (events after)
        (subst Distinct (map-append _ before (c ∷ after)) r.handles) in
    let found =
      subst (λ xs. find_if (finder s c.event) xs ≡ some (some p)) (sym e)
        (find_if-mid (finder s c.event) qs p rs (finder-Fresh s c.event qs before left alone)
          (ground (arith, live))) in
    (p, rw found refl, live)

module _ {W : Type 0} (ws : Winsock W) where
  -- The system once the event is reset, and its answer on the receive.
  abbrev pub result : ServerConnection → Server W → Option Bytes × W
  result c s = ws.overlapped_result c.socket c.event (ws.reset_event c.event s.store.env.world)

  -- The same once the next receive is queued.
  abbrev pub queued : ServerConnection → Server W → W
  queued c s = (ws.recv c.socket c.event (ws.reset_event c.event (result c s).1)).1

  abbrev pub with_env : Env W → Server W → Server W
  with_env env s = record s { store = record s.store { env = env } }

  -- How the queueing of the next receive ends.
  abbrev pub as_queued : Bool → Outcome (Unit {0})
  as_queued true = throw prepare_receive_failed
  as_queued false = ok tt

  data_lem :
      (s : Server W) (c : ServerConnection) (p : ℕ) (b : ℕ) (bytes : Bytes)
      → get_by_handle c.event
          (with_env
            (record s.store.env { world = ws.reset_event c.event s.store.env.world })
            s).store
        ≡ (
          ok p,
          (with_env
              (record s.store.env { world = ws.reset_event c.event s.store.env.world })
              s).store,
        )
      → s.store.cells p ≡ some c
      → s.event ≢ c.event
      → (result c s).0 ≡ some (b ∷ bytes)
      → s.store.env.has_callback ≡ true
      → s.has_been_shutdown ≡ false
      → handle_event ws c.event s ≡ (
        as_queued (fails (ws.recv c.socket c.event (ws.reset_event c.event (result c s).1)).0),
        with_env
            (record s.store.env {
              world = queued c s;
              log = s.store.env.log ++ receive_complete c.identifier (b ∷ bytes) ∷ [];
            })
            s,
      )
  unfolding handle_event queue_receive
  data_lem s c p b bytes found live other answer cb running = ground (arith, found, live, answer)

  loss_lem :
      (s : Server W) (c : ServerConnection) (p : ℕ) (t : Store W)
      → get_by_handle c.event
          (with_env
            (record s.store.env { world = ws.reset_event c.event s.store.env.world })
            s).store
        ≡ (
          ok p,
          (with_env
              (record s.store.env { world = ws.reset_event c.event s.store.env.world })
              s).store,
        )
      → s.store.cells p ≡ some c
      → s.event ≢ c.event
      → (result c s).0 ≡ some []
      → s.store.env.has_callback ≡ true
      → remove_by_handle ws c.event
          (with_env
            (record s.store.env {
              world = (result c s).1;
              log = s.store.env.log ++ disconnected c.identifier ∷ [];
            })
            s).store
        ≡ (ok tt, t)
      → handle_event ws c.event s ≡ (ok tt, record s { store = t })
  unfolding handle_event
  loss_lem s c p t found live other answer cb gone = ground (arith, found, live, answer, gone)

  -- Data from a connection of a running server with a callback, wherever it stands: the callback is
  -- told of it under the connection's identifier, the next receive is asked for, and no connection
  -- changes; it ends by an exception exactly if that receive can be neither completed nor queued.
  pub handle_event-data :
      (s : Server W) (before : List ServerConnection) (c : ServerConnection)
      (after : List ServerConnection) (b : ℕ) (bytes : Bytes)
      → Represents s.store (before ++ c ∷ after)
      → s.event ≢ c.event
      → (result c s).0 ≡ some (b ∷ bytes)
      → s.store.env.has_callback ≡ true
      → s.has_been_shutdown ≡ false
      → (t : Server W) × (handle_event ws c.event s ≡ (
        as_queued (fails (ws.recv c.socket c.event (ws.reset_event c.event (result c s).1)).0),
        t,
      ))
        × Represents t.store (before ++ c ∷ after)
        × (t.store.env ≡ record s.store.env {
          world = queued c s;
          log = s.store.env.log ++ receive_complete c.identifier (b ∷ bytes) ∷ [];
        })
  handle_event-data s before c after b bytes r other answer cb running =
      let cs = before ++ c ∷ after in
      let (p, found, live) = get_by_handle-found _ before c after (Represents-env s.store cs _ r) in
      (
        _,
        data_lem s c p b bytes found live other answer cb running,
        Represents-env s.store cs _ r,
        refl,
      )

  -- The end of the stream of a connection, wherever it stands, on a server with a callback: the
  -- callback is told of it, the connection is removed with its socket and its event closed, and the
  -- others stay in their order.
  pub handle_event-loss :
      (s : Server W) (before : List ServerConnection) (c : ServerConnection)
      (after : List ServerConnection)
      → Represents s.store (before ++ c ∷ after)
      → s.event ≢ c.event
      → (result c s).0 ≡ some []
      → s.store.env.has_callback ≡ true
      → (t : Server W) × (handle_event ws c.event s ≡ (ok tt, t))
        × Represents t.store (before ++ after)
        × (t.store.env ≡ record s.store.env {
          world = destroy_overlap ws c.event (ws.close_socket c.socket (result c s).1);
          log = s.store.env.log ++ disconnected c.identifier ∷ [];
        })
  handle_event-loss s before c after r other answer cb =
      let cs = before ++ c ∷ after in
      let (p, found, live) = get_by_handle-found _ before c after (Represents-env s.store cs _ r) in
      let (t, gone, shape, env, _) =
        remove_by_handle-Represents ws _ before c after (Represents-env s.store cs _ r) in
      (record s { store = t }, loss_lem s c p t found live other answer cb gone, shape, env)
