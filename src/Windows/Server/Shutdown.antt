-- ===== src/Windows/Server/Shutdown.antt =====
-- server/windows/Server.cpp: what `shutdown` leaves behind.
use c11http.Common.{ℕ, ◌≡◌, refl, ◌∙◌, true, some, List, [], ◌∷◌, ok}
use c11http.Common.Pointers.{Owns}
use c11http.Windows.{Winsock}
use c11http.Windows.Connections.{ServerConnection, Store, remove_by_handle}
use c11http.Windows.Connections.Represents.{Represents, Represents-env}
use c11http.Windows.Connections.Removal.{removed, remove_mid, removed-Represents}
use c11http.Windows.Server.{Server, shut_each, shutdown}

module _ {W : Type 0} (ws : Winsock W) where
  abbrev pub cut_off : ServerConnection → Store W → Store W
  cut_off c s = record s {
    env = record s.env {
      world = ws.send_disconnect c.socket (ws.recv_disconnect c.socket s.env.world);
    };
  }

  pub shut_step :
      (s : Server W) (p : ℕ) (ps : List ℕ) (c : ServerConnection) (t : Store W)
      → s.store.cells p ≡ some c
      → remove_by_handle ws c.event (cut_off c s.store) ≡ (ok tt, t)
      → shut_each ws (p ∷ ps) s ≡ shut_each ws ps (record s { store = t })
  unfolding shut_each
  shut_step s p ps c t live gone = rw (live, gone)

  -- What the loop over the connections leaves.
  abbrev Emptied : Server W → Server W → Type 0
  Emptied s t =
      Represents t.store []
      × (t.store.container ≡ [])
      × (t.store.env.log ≡ s.store.env.log)
      × (t.has_been_shutdown ≡ s.has_been_shutdown)
      × (t.incoming_socket ≡ s.incoming_socket)

  shut_each-Emptied :
      (ps : List ℕ) (cs : List ServerConnection) (s : Server W)
      → Owns s.store.cells ps cs
      → s.store.container ≡ ps
      → Represents s.store cs
      → (t : Server W) × (shut_each ws ps s ≡ (ok tt, t)) × Emptied s t
  unfolding shut_each
  shut_each-Emptied [] [] s o e r = (s, refl, (r, e, refl, refl, refl))
  shut_each-Emptied [] (c ∷ cs) s o e r = absurd o
  shut_each-Emptied (p ∷ ps) [] s o e r = absurd o
  shut_each-Emptied (p ∷ ps) (c ∷ cs) s o e r =
      let store = cut_off c s.store in
      let r' = Represents-env s.store (c ∷ cs) store.env r in
      let shape = removed-Represents ws store c [] p ps [] cs r' e tt o.0 o.1 in
      let next = record s { store = removed ws store c [] p ps } in
      let (t, run, (represents, empty, log, flag, incoming)) =
        shut_each-Emptied ps cs next (unfold removed in shape.owns) (unfold removed in refl)
          shape in
      (
        t,
        shut_step s p ps c (removed ws store c [] p ps) o.0
              (remove_mid ws store c [] p ps [] cs r' e tt o.0 o.1)
            ∙ run,
        (represents, empty, log ∙ (unfold removed in refl), flag, incoming),
      )

  -- `shutdown` on a server with any number of connections returns, marks the server as shut down and
  -- leaves no connection, with every one removed through its own handle; the callback is not called,
  -- and the socket for the next connection stays.
  pub shutdown-Represents :
      (s : Server W) (cs : List ServerConnection)
      → Represents s.store cs
      → (t : Server W) × (shutdown ws s ≡ (ok tt, t))
        × (t.has_been_shutdown ≡ true)
        × Represents t.store []
        × (t.store.container ≡ [])
        × (t.store.env.log ≡ s.store.env.log)
        × (t.incoming_socket ≡ s.incoming_socket)
  unfolding shutdown
  shutdown-Represents s cs r =
      let marked = record s { has_been_shutdown = true } in
      let (t, run, (represents, empty, log, flag, incoming)) =
        shut_each-Emptied s.store.container cs marked r.owns refl r in
      let env = record t.store.env { world = ws.set_event s.event t.store.env.world } in
      (
        record t { store = record t.store { env = env } },
        rw run refl,
        flag,
        Represents-env t.store [] env represents,
        empty,
        log,
        incoming,
      )
