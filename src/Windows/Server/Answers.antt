-- ===== src/Windows/Server/Answers.antt =====
-- server/windows/Server.cpp: what becomes of a connection whose handle is signalled, by the answer
-- on its receive.
use c11http.Common.{
  none, Outcome, ℕ, ◌≡◌, ◌≢◌, refl, true, false, Option, some, List, [], ◌∷◌, ◌++◌, ok, arith,
}
use c11http.Callback.{Bytes, receive_complete, disconnected}
use c11http.Windows.{Winsock}
use c11http.Windows.Socket.{destroy_overlap}
use c11http.Windows.Connections.{ServerConnection, get_by_handle}
use c11http.Windows.Connections.Represents.{Represents, Represents-env}
use c11http.Windows.Server.{Server, fails, handle_event}
use c11http.Windows.Server.Handling.{
  get_by_handle-found, with_env, result, queued, as_queued, handle_event-data, handle_event-loss,
}

module _ {W : Type 0} (ws : Winsock W) where
  idle_lem :
      (s : Server W) (c : ServerConnection) (p : ℕ)
      → get_by_handle c.event
          (with_env ws
            (record s.store.env { world = ws.reset_event c.event s.store.env.world })
            s).store
        ≡ (
          ok p,
          (with_env ws
              (record s.store.env { world = ws.reset_event c.event s.store.env.world })
              s).store,
        )
      → s.store.cells p ≡ some c
      → s.event ≢ c.event
      → (result ws c s).0 ≡ none
      → handle_event ws c.event s
        ≡ (ok tt, with_env ws (record s.store.env { world = (result ws c s).1 }) s)
  unfolding handle_event
  idle_lem s c p found live other answer = ground (arith, found, live, answer)

  -- What the server makes of a connection between others and of what its receive answers.
  abbrev pub Handles :
      List ServerConnection
      → ServerConnection
      → List ServerConnection
      → Server W
      → Option Bytes
      → Outcome (Unit {0}) × Server W
      → Type 0
  Handles before c after s none r =
      (r.0 ≡ ok tt)
      × Represents r.1.store (before ++ c ∷ after)
      × (r.1.store.env ≡ record s.store.env { world = (result ws c s).1 })
  Handles before c after s (some []) r =
      (r.0 ≡ ok tt)
      × Represents r.1.store (before ++ after)
      × (r.1.store.env ≡ record s.store.env {
        world = destroy_overlap ws c.event (ws.close_socket c.socket (result ws c s).1);
        log = s.store.env.log ++ disconnected c.identifier ∷ [];
      })
  Handles before c after s (some (b ∷ bytes)) r =
      (r.0
        ≡ as_queued ws
            (fails (ws.recv c.socket c.event (ws.reset_event c.event (result ws c s).1)).0))
      × Represents r.1.store (before ++ c ∷ after)
      × (r.1.store.env ≡ record s.store.env {
        world = queued ws c s;
        log = s.store.env.log ++ receive_complete c.identifier (b ∷ bytes) ∷ [];
      })

  by_answer :
      (o : Option Bytes) (s : Server W) (before : List ServerConnection) (c : ServerConnection)
      (after : List ServerConnection)
      → Represents s.store (before ++ c ∷ after)
      → s.event ≢ c.event
      → s.store.env.has_callback ≡ true
      → s.has_been_shutdown ≡ false
      → (result ws c s).0 ≡ o
      → Handles before c after s o (handle_event ws c.event s)
  by_answer none s before c after r other cb running answer =
      let cs = before ++ c ∷ after in
      let (p, found, live) = get_by_handle-found _ before c after (Represents-env s.store cs _ r) in
      rw (idle_lem s c p found live other answer) (refl, Represents-env s.store cs _ r, refl)
  by_answer (some []) s before c after r other cb running answer =
      let (t, done, shape, env) = handle_event-loss ws s before c after r other answer cb in
      rw done (refl, shape, env)
  by_answer (some (b ∷ bytes)) s before c after r other cb running answer =
      let (t, done, shape, env) =
        handle_event-data ws s before c after b bytes r other answer cb running in
      rw done (refl, shape, env)

  -- The handle of a connection of a running server with a callback is signalled, wherever the
  -- connection stands among the others. Where its receive gives data, the callback is told of it under
  -- the connection's identifier, the next receive is asked for, no connection changes, and it ends by an
  -- exception exactly if that receive can be neither completed nor queued. Where the stream is at its
  -- end, the callback is told that the connection is disconnected, it is removed with its socket and its
  -- event closed, and the others stay in their order. Where the system has no result, nothing
  -- has happened but the reset of the event.
  pub handle_event-Handles :
      (s : Server W) (before : List ServerConnection) (c : ServerConnection)
      (after : List ServerConnection)
      → Represents s.store (before ++ c ∷ after)
      → s.event ≢ c.event
      → s.store.env.has_callback ≡ true
      → s.has_been_shutdown ≡ false
      → Handles before c after s (result ws c s).0 (handle_event ws c.event s)
  handle_event-Handles s before c after r other cb running =
      by_answer (result ws c s).0 s before c after r other cb running refl
