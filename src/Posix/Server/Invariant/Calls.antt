-- ===== src/Posix/Server/Invariant/Calls.antt =====
-- server/posix/Server.cpp: the calls that other threads make keep what holds of a server.
use c11http.Common.{
  ℕ, ◌≡◌, ◌≢◌, refl, sym, subst, inl, inr, Bool, Option-cases, true, some, List, [], ◌∷◌, ◌++◌, map,
  arith, ok,
}
use c11http.Common.Assoc.{find}
use c11http.Common.Pointers.{Fresh}
use c11http.Callback.{Bytes, Bytes-discrete}
use c11http.Callback.Sessions.{Session}
use c11http.Posix.{Os, FdSet}
use c11http.Posix.Descriptors.{Keeps, Descriptors, close_socket_keeps}
use c11http.Posix.Socket.{close_socket}
use c11http.Posix.Connection.{ServerConnection, add_queued_message}
use c11http.Posix.Connections.Represents.Lists.{sockets, Represents, Represents-env}
use c11http.Posix.Connections.Represents.Reshape.{
  Alike, Alike-names, Alike-replace, Alike-sockets, replace-Represents,
}
use c11http.Posix.Server.{Server, send, broadcast, shutdown}
use c11http.Posix.Server.Sending.{
  woken, in_state, queued, queued-Represents, Alike-queue, broadcast_lem, send_unknown, send_known,
}
use c11http.Posix.Server.Invariant.{AllOpen, AllOpen-Keeps, Sound, Kept}

module _ {W : Type 0} (os : Os W) where
  -- The server once it is shut down.
  abbrev pub closed : Server W → W
  closed s = close_socket os s.connect_socket s.env.world

  abbrev pub stopped : Server W → Server W
  stopped s = record s {
    store = record s.store { env = record s.env { world = woken os (in_state os (closed s) s) } };
    has_been_shutdown = true;
  }

  pub shutdown_lem : (s : Server W) → shutdown os s ≡ (ok tt, stopped s)
  unfolding shutdown
  shutdown_lem s = refl

module _ {W : Type 0} (os : Os W) (opened : W → FdSet) (laws : Descriptors os opened) where
  woken-Keeps : (s : Server W) → Keeps (opened s.env.world) (opened (woken os s))
  woken-Keeps s k h =
      laws.write_keeps s.wakeup_write (b'.' ∷ []) _ k
        (laws.poll_out_keeps s.wakeup_write s.env.world k h)

  -- After bytes have been queued at some of the connections, and the wakeup.
  requeued-Sound :
      (down : Bool) (s : Server W) (ps : List ℕ) (cs ds : List ServerConnection) (bytes : Bytes)
      (h : Sound os opened down s)
      → Represents (in_state os (woken os s) (queued os bytes ps cs s)).store ds
      → Alike h.connections ds
      → Sound os opened down (in_state os (woken os s) (queued os bytes ps cs s))
  requeued-Sound down s ps cs ds bytes h r alike = record {
    connections = ds;
    represents = r;
    all_open =
        subst (AllOpen (opened (woken os s))) (sym (Alike-sockets _ _ alike))
          (AllOpen-Keeps _ _ (woken-Keeps s) (sockets h.connections) h.all_open);
    apart = subst (Fresh s.connect_socket) (sym (Alike-sockets _ _ alike)) h.apart;
    listening = λ up. woken-Keeps s s.connect_socket (h.listening up);
    made = h.made;
    heard = h.heard;
    flag = h.flag;
    session = subst (λ is. Session is s.env.log) (sym (Alike-names _ _ alike)) h.session;
  }

  pub broadcast-Kept :
      (down : Bool) (bytes : Bytes) (s : Server W)
      → Sound os opened down s
      → Kept os opened down (broadcast os bytes s)
  broadcast-Kept down bytes s h =
      subst (Kept os opened down) (sym (broadcast_lem os bytes s h.connections h.made h.represents))
        (requeued-Sound down s s.store.container h.connections
          (map (add_queued_message bytes) h.connections) bytes h
          (queued-Represents os bytes s h.connections h.represents)
          (Alike-queue bytes h.connections))

  send_mapped :
      (down : Bool) (bytes i : Bytes) (s : Server W) (p : ℕ)
      → Sound os opened down s
      → find Bytes-discrete i s.store.mapping ≡ some p
      → Kept os opened down (send os bytes i s)
  unfolding add_queued_message
  send_mapped down bytes i s p h e =
      let (c, live, name, at) = h.represents.mapped i p e in
      let d = add_queued_message bytes c in
      let (before, after, g, shape) =
        replace-Represents s.store h.connections p c d h.represents at live refl refl in
      subst (Kept os opened down) (sym (send_known os bytes i s p c h.made e live)) (
        requeued-Sound down s (p ∷ []) (c ∷ []) (before ++ d ∷ after) bytes h
          (Represents-env _ (before ++ d ∷ after) _ shape)
          (subst (λ cs. Alike cs (before ++ d ∷ after)) (sym g)
            (Alike-replace before c d after refl refl)))

  pub send-Kept :
      (down : Bool) (bytes i : Bytes) (s : Server W)
      → Sound os opened down s
      → Kept os opened down (send os bytes i s)
  send-Kept down bytes i s h = elim (Option-cases (find Bytes-discrete i s.store.mapping)) [
    | inl e ↦ subst (Kept os opened down) (sym (send_unknown os bytes i s h.made e)) h
    | inr (p, e) ↦ send_mapped down bytes i s p h e
  ]

  stopped_keeps :
      (s : Server W) (k : ℕ)
      → s.connect_socket ≢ k
      → opened s.env.world k ≡ true
      → opened (woken os (in_state os (closed os s) s)) k ≡ true
  stopped_keeps s k other h =
      woken-Keeps (in_state os (closed os s) s) k
        (close_socket_keeps os opened laws s.connect_socket k s.env.world other h)

  pub stopped-AllOpen :
      (s : Server W) (ks : List ℕ)
      → Fresh s.connect_socket ks
      → AllOpen (opened s.env.world) ks
      → AllOpen (opened (woken os (in_state os (closed os s) s))) ks
  stopped-AllOpen s [] f h = tt
  stopped-AllOpen s (k ∷ ks) f h = (stopped_keeps s k f.0 h.0, stopped-AllOpen s ks f.1 h.1)

  pub shutdown-Kept :
      (down : Bool) (s : Server W) → Sound os opened down s → Kept os opened true (shutdown os s)
  shutdown-Kept down s h = subst (Kept os opened true) (sym (shutdown_lem os s)) (record {
    connections = h.connections;
    represents = Represents-env s.store h.connections _ h.represents;
    all_open = stopped-AllOpen s (sockets h.connections) h.apart h.all_open;
    apart = h.apart;
    listening = λ up. absurd (ground arith);
    made = h.made;
    heard = h.heard;
    flag = refl;
    session = h.session;
  })
