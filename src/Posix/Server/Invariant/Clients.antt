-- ===== src/Posix/Server/Invariant/Clients.antt =====
-- server/posix/Server.cpp: `handleServerConnection` keeps what holds of a server that is not shut down.
use mathlib.Core.List.{map-append, append-nil}
use c11http.Common.{
  ℕ, ◌≡◌, refl, sym, ◌∙◌, ap, subst, inl, inr, ◌⊎◌, Bool-cases, true, false, Option, none, some,
  List, [], ◌∷◌, ◌++◌, arith, All-split, ◌==◌,
}
use c11http.Common.Pointers.{Fresh, Fresh-split, Distinct, Distinct-split}
use c11http.Callback.{Bytes}
use c11http.Callback.Sessions.{Session, receives, disconnects, told-Session}
use c11http.Posix.{Os, Env, FdSet, max_buffer_size}
use c11http.Posix.Descriptors.{Descriptors, close_socket_keeps}
use c11http.Posix.Socket.{close_socket}
use c11http.Posix.Connection.{ServerConnection}
use c11http.Posix.Connections.Represents.Lists.{sockets, names, Represents, Represents-env}
use c11http.Posix.Connections.Represents.Find.{get_by_socket-known}
use c11http.Posix.Connections.Remove.Last.{remove_last}
use c11http.Posix.Server.{Server}
use c11http.Posix.Server.Loop.{handle_server_connection}
use c11http.Posix.Server.Receiving.{
  IsGone, answer, with_env, env_after_data, env_after_loss, data_lem, loss_lem,
  handle_server_connection-fault, handle_server_connection-absent,
}
use c11http.Posix.Server.Invariant.{AllOpen, AllOpen-Keeps, Sound, Kept, fault-Kept, with_env-Sound}

-- A descriptor is that of no connection, or of one of them.
pub find_socket :
    (k : ℕ) (cs : List ServerConnection)
    → Fresh k (sockets cs)
      ⊎ ((before : List ServerConnection) × (c : ServerConnection) × (after : List ServerConnection)
          × (cs ≡ before ++ c ∷ after)
          × (c.socket ≡ k))
find_socket k [] = inl tt
find_socket k (c ∷ cs) = elim (Bool-cases (c.socket == k)) [
  | inl here ↦ inr ([], c, cs, refl, ground arith)
  | inr other ↦ elim (find_socket k cs) [
    | inl fresh ↦ inl ((λ e. ground arith), fresh)
    | inr (before, d, after, e, at) ↦ inr (c ∷ before, d, after, ap (◌∷◌ c) e, at)
  ]
]

module _ {W : Type 0} (os : Os W) (opened : W → FdSet) (laws : Descriptors os opened) where
  close_other-AllOpen :
      (fd : ℕ) (w : W) (ks : List ℕ)
      → Fresh fd ks
      → AllOpen (opened w) ks
      → AllOpen (opened (close_socket os fd w)) ks
  close_other-AllOpen fd w [] f h = tt
  close_other-AllOpen fd w (k ∷ ks) f h =
      (close_socket_keeps os opened laws fd k w f.0 h.0, close_other-AllOpen fd w ks f.1 h.1)

  data-Kept :
      (s : Server W) (before : List ServerConnection) (c : ServerConnection)
      (after : List ServerConnection) (b : ℕ) (bytes : Bytes) (h : Sound os opened false s)
      → h.connections ≡ before ++ c ∷ after
      → (answer os c.socket s).0 ≡ some (b ∷ bytes)
      → Kept os opened false (handle_server_connection os c.socket s)
  data-Kept s before c after b bytes h e r =
      let (p, found, live, _) =
        get_by_socket-known s.store before c after (subst (Represents s.store) e h.represents) in
      subst (Kept os opened false) (sym (data_lem os s c p b bytes found live r)) (
        with_env-Sound os opened false s (env_after_data os (b ∷ bytes) c s) h
          (laws.recv_keeps c.socket max_buffer_size s.env.world) h.heard
          (told-Session s.env.has_callback s.env.log _ h.heard (
            receives (names before) (names after) c.identifier (b ∷ bytes) h.session
              (ap names e ∙ map-append (λ (x : ServerConnection). x.identifier) before (c ∷ after))
              refl)))

  loss-Kept :
      (s : Server W) (before : List ServerConnection) (c : ServerConnection)
      (after : List ServerConnection) (h : Sound os opened false s)
      → h.connections ≡ before ++ c ∷ after
      → IsGone os (answer os c.socket s).0
      → Kept os opened false (handle_server_connection os c.socket s)
  loss-Kept s before c (d ∷ after) h e gone = fault-Kept os opened false _ (
      handle_server_connection-fault os s before c d after
        (subst (Represents s.store) e h.represents) gone)
  loss-Kept s before c [] h e gone =
      let r = subst (Represents s.store) e h.represents in
      let (p, found, live, _) = get_by_socket-known s.store before c [] r in
      let env = env_after_loss os c s in
      let (t, done, shape, same, _, _) =
        remove_last os (with_env os env s).store before c
          (Represents-env s.store (before ++ c ∷ []) env r) in
      let fds = map-append (λ (x : ServerConnection). x.socket) before (c ∷ []) in
      let (_, _, alone) =
        Distinct-split (sockets before) c.socket [] (subst Distinct fds r.descriptors) in
      let (free, other) =
        Fresh-split s.connect_socket (sockets before) (c.socket ∷ [])
          (subst (Fresh s.connect_socket) (ap sockets e ∙ fds) h.apart) in
      let (still, _) =
        All-split _ (sockets before) (c.socket ∷ [])
          (subst (AllOpen (opened s.env.world)) (ap sockets e ∙ fds) h.all_open) in
      let keeps = laws.recv_keeps c.socket max_buffer_size s.env.world in
      subst (Kept os opened false)
        (sym (loss_lem os s c p found live gone ∙ ap (λ x. (x.0, record s { store = x.1 })) done))
        (record {
          connections = before;
          represents = shape;
          all_open =
              subst (λ (v : Env W). AllOpen (opened v.world) (sockets before)) (sym same)
                (close_other-AllOpen c.socket _ (sockets before) alone
                  (AllOpen-Keeps _ _ keeps (sockets before) still));
          apart = free;
          listening = λ up.
              subst (λ (v : Env W). opened v.world s.connect_socket ≡ true) (sym same)
                (close_socket_keeps os opened laws c.socket s.connect_socket _
                  (λ x. other.0 (sym x)) (keeps s.connect_socket (h.listening up)));
          made = h.made;
          heard = subst (λ (v : Env W). v.has_callback ≡ true) (sym same) h.heard;
          flag = h.flag;
          session =
              subst (λ (v : Env W). Session (names before) v.log) (sym same)
                (told-Session s.env.has_callback s.env.log _ h.heard (
                  disconnects (names before) [] c.identifier h.session
                    (ap names e
                      ∙ map-append (λ (x : ServerConnection). x.identifier) before (c ∷ []))
                    (sym (append-nil (names before))) refl));
        })

  -- Data or the end of a client, on the descriptor of a connection or on any other.
  pub handle_server_connection-Kept :
      (k : ℕ) (s : Server W)
      → Sound os opened false s
      → Kept os opened false (handle_server_connection os k s)
  handle_server_connection-Kept k s h = elim (find_socket k h.connections) [
    | inl fresh ↦
        subst (Kept os opened false)
          (sym (handle_server_connection-absent os s h.connections k h.represents fresh)) h
    | inr (before, c, after, e, at) ↦
        subst (λ j. Kept os opened false (handle_server_connection os j s)) at
          (by_answer before c after e (answer os c.socket s).0 refl)
  ]
    where
      by_answer :
          (before : List ServerConnection) (c : ServerConnection) (after : List ServerConnection)
          → h.connections ≡ before ++ c ∷ after
          → (r : Option Bytes) → (answer os c.socket s).0 ≡ r
          → Kept os opened false (handle_server_connection os c.socket s)
      by_answer before c after e none r = loss-Kept s before c after h e (inl r)
      by_answer before c after e (some []) r = loss-Kept s before c after h e (inr r)
      by_answer before c after e (some (b ∷ bytes)) r = data-Kept s before c after b bytes h e r
