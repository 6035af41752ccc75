-- ===== src/Posix/Server/Invariant/Handlers.antt =====
-- server/posix/Server.cpp: the other branches of the loop keep what holds of a server that is not shut
-- down.
use mathlib.Core.List.{map-append}
use c11http.Common.{
  ltb, Bool-cases, ◌<◌, ℕ, ◌≡◌, refl, sym, ◌∙◌, ap, subst, inl, inr, true, false, List, [], ◌∷◌,
  ◌++◌, arith, All-append, Outcome, ok, throw, fault,
}
use c11http.Common.Pointers.{Fresh, Fresh-append}
use c11http.Callback.{Bytes}
use c11http.Callback.Sessions.{Session, connects, sends, maybe_told-Session}
use c11http.Posix.{Os, Env, FdSet, max_buffer_size}
use c11http.Posix.Descriptors.{Keeps, Descriptors, accept_connection-Keeps}
use c11http.Posix.Connection.{ServerConnection}
use c11http.Posix.Connection.Accept.{Accepts, accept_connection-Accepts}
use c11http.Posix.Connections.Represents.Lists.{sockets, names, Represents, Represents-env}
use c11http.Posix.Connections.Represents.Add.{add_new-Represents}
use c11http.Posix.Connections.Represents.Find.{get_by_socket-known}
use c11http.Posix.Connections.Represents.Reshape.{
  Alike-replace, Alike-sockets, Alike-names, replace-Represents,
}
use c11http.Posix.Server.{Server}
use c11http.Posix.Server.Loop.{handle_new_connection, handle_write, read_wakeup}
use c11http.Posix.Server.Accepting.{accepting, env_after, accept_lem, beyond_lem, failed_lem}
use c11http.Posix.Server.Writing.{
  emptied, takes_all, after_write, write_lem, write_empty_lem, handle_write-absent,
}
use c11http.Posix.Server.Wakeup.{read_lem}
use c11http.Posix.Server.Invariant.{
  AllOpen, AllOpen-Keeps, Sound, Kept, fault-Kept, with_env-Sound, marked-Sound,
}
use c11http.Posix.Server.Invariant.Clients.{find_socket}

Fresh-open :
    (opened : FdSet) (fd : ℕ) (ks : List ℕ) → opened fd ≡ false → AllOpen opened ks → Fresh fd ks
Fresh-open opened fd [] closed h = tt
Fresh-open opened fd (k ∷ ks) closed h = ((λ e. ground arith), Fresh-open opened fd ks closed h.1)

module _ {W : Type 0} (os : Os W) (opened : W → FdSet) (laws : Descriptors os opened) where
  accepted-Kept :
      (s : Server W) (c : ServerConnection)
      → Sound os opened false s
      → (accepting os s).0 ≡ ok c
      → c.socket < os.fd_setsize
      → Kept os opened false (handle_new_connection os s)
  accepted-Kept s c h e fits =
      let got =
        (subst (Accepts os s.connect_socket s.env.world) e
          (accept_connection-Accepts os s.connect_socket s.env.world)).0 in
      let (closed, fresh_open) = laws.accept_new s.connect_socket c.socket s.env.world got in
      let later = accept_connection-Keeps os opened laws s.connect_socket s.env.world in
      let keeps = λ (k : ℕ) (o : opened s.env.world k ≡ true).
        later k (laws.accept_keeps s.connect_socket s.env.world k o) in
      let fresh =
        Fresh-open (opened s.env.world) c.socket (sockets h.connections) closed h.all_open in
      let env = env_after os c s in
      let (t, done, shape, same) =
        add_new-Represents os (record s.store { env = env }) h.connections c
          (Represents-env s.store h.connections env h.represents) fresh fits in
      let fds = map-append (λ (x : ServerConnection). x.socket) h.connections (c ∷ []) in
      subst (Kept os opened false) (sym (accept_lem os s c t e h.heard done)) (record {
        connections = h.connections ++ c ∷ [];
        represents = shape;
        all_open =
            subst (λ (v : Env W). AllOpen (opened v.world) (sockets (h.connections ++ c ∷ [])))
              (sym same)
              (subst (AllOpen (opened env.world)) (sym fds) (
                All-append _ (sockets h.connections) (c.socket ∷ [])
                  (AllOpen-Keeps _ _ keeps (sockets h.connections) h.all_open)
                  (later c.socket fresh_open, tt)));
        apart = subst (Fresh s.connect_socket) (sym fds) (
            Fresh-append s.connect_socket (sockets h.connections) (c.socket ∷ []) h.apart
              ((λ x. ground (arith, h.listening refl, x, closed)), tt));
        listening = λ up.
            subst (λ (v : Env W). opened v.world s.connect_socket ≡ true) (sym same)
              (keeps s.connect_socket (h.listening up));
        made = h.made;
        heard = subst (λ (v : Env W). v.has_callback ≡ true) (sym same) h.heard;
        flag = h.flag;
        session =
            subst (λ (v : Env W). Session (names (h.connections ++ c ∷ [])) v.log) (sym same)
              (connects c.identifier h.session
                (map-append (λ (x : ServerConnection). x.identifier) h.connections (c ∷ [])) refl);
      })

  -- A connection is accepted, or fails on the way.
  pub handle_new_connection-Kept :
      (s : Server W) → Sound os opened false s → Kept os opened false (handle_new_connection os s)
  handle_new_connection-Kept s h = by_outcome (accepting os s).0 refl
    where
      keeps : Keeps (opened s.env.world) (opened (accepting os s).1)
      keeps k o =
          accept_connection-Keeps os opened laws s.connect_socket s.env.world k
            (laws.accept_keeps s.connect_socket s.env.world k o)

      by_outcome :
          (o : Outcome ServerConnection)
          → (accepting os s).0 ≡ o
          → Kept os opened false (handle_new_connection os s)
      by_outcome (ok c) e = elim (Bool-cases (ltb c.socket os.fd_setsize)) [
        | inl fits ↦ accepted-Kept s c h e (ground arith)
        | inr beyond ↦ fault-Kept os opened false _ (beyond_lem os s c e h.heard beyond)
      ]
      by_outcome (throw x) e = subst (Kept os opened false) (sym (failed_lem os s x e)) (
          with_env-Sound os opened false s (record s.env { world = (accepting os s).1 }) h keeps
            h.heard h.session)
      by_outcome fault e = absurd (
          subst (Accepts os s.connect_socket s.env.world) e
            (accept_connection-Accepts os s.connect_socket s.env.world))

  write-Kept :
      (s : Server W) (before : List ServerConnection) (c : ServerConnection)
      (after : List ServerConnection) (h : Sound os opened false s) (bytes : Bytes)
      → h.connections ≡ before ++ c ∷ after
      → c.outgoing_bytes ≡ bytes
      → Kept os opened false (handle_write os c.socket s)
  write-Kept s before c after h [] e waits =
      let (p, found, live, _) =
        get_by_socket-known s.store before c after (subst (Represents s.store) e h.represents) in
      fault-Kept os opened false _ (write_empty_lem os s c p waits found live)
  write-Kept s before c after h (b ∷ bytes) e waits =
      let (p, found, live, at) =
        get_by_socket-known s.store before c after (subst (Represents s.store) e h.represents) in
      let (left, right, g, shape) =
        replace-Represents s.store h.connections p c (emptied c) h.represents at live refl refl in
      let end = after_write os c p (takes_all os c s) s in
      let alike = Alike-replace left c (emptied c) right refl refl in
      let fds = Alike-sockets _ _ alike ∙ ap sockets (sym g) in
      let called = Alike-names _ _ alike ∙ ap names (sym g) in
      subst (Kept os opened false) (sym (write_lem os s c p b bytes waits found live h.heard))
        (record {
          connections = left ++ emptied c ∷ right;
          represents = Represents-env _ (left ++ emptied c ∷ right) _ shape;
          all_open = subst (AllOpen (opened end.env.world)) (sym fds) (
              AllOpen-Keeps _ _ (laws.send_keeps c.socket c.outgoing_bytes s.env.world)
                (sockets h.connections) h.all_open);
          apart = subst (Fresh s.connect_socket) (sym fds) h.apart;
          listening = λ up.
              laws.send_keeps c.socket c.outgoing_bytes s.env.world s.connect_socket
                (h.listening up);
          made = h.made;
          heard = h.heard;
          flag = h.flag;
          session =
              subst (λ is. Session is end.env.log) (sym called)
                (maybe_told-Session (takes_all os c s) s.env.log _ h.session (
                  sends (names before) (names after) c.identifier _ h.session
                    (ap names e
                      ∙ map-append (λ (x : ServerConnection). x.identifier) before (c ∷ after))
                    refl));
        })

  pub handle_write-Kept :
      (k : ℕ) (s : Server W) → Sound os opened false s → Kept os opened false (handle_write os k s)
  handle_write-Kept k s h = elim (find_socket k h.connections) [
    | inl fresh ↦
        subst (Kept os opened false)
          (sym (handle_write-absent os s h.connections k h.represents fresh))
          (marked-Sound os opened false s _ h)
    | inr (before, c, after, e, at) ↦
        subst (λ j. Kept os opened false (handle_write os j s)) at
          (write-Kept s before c after h c.outgoing_bytes e refl)
  ]

  pub read_wakeup-Kept :
      (s : Server W) → Sound os opened false s → Kept os opened false (read_wakeup os s)
  read_wakeup-Kept s h = subst (Kept os opened false) (sym (read_lem os s)) (
      with_env-Sound os opened false s _ h
        (laws.recv_keeps s.wakeup_read max_buffer_size s.env.world) h.heard h.session)
