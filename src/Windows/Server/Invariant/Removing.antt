-- ===== src/Windows/Server/Invariant/Removing.antt =====
-- server/windows/Connections.cpp: a removal keeps what holds of the server.
use c11http.Common.{
  ℕ, ◌≡◌, ◌≢◌, sym, subst, ap, Bool, true, Option, Option-cases, some, List, [], ◌∷◌, ◌++◌, ok, inl,
  inr, arith,
}
use c11http.Common.Assoc.{find}
use c11http.Common.Pointers.{Owns, In}
use c11http.Callback.{Bytes, Bytes-discrete}
use c11http.Posix.{FdSet}
use c11http.Windows.{Winsock}
use c11http.Windows.Socket.{destroy_overlap}
use c11http.Windows.Connections.{ServerConnection, Store, remove_by_handle, remove_by_identifier}
use c11http.Windows.Connections.Represents.{Represents}
use c11http.Windows.Connections.Removal.{Owns-mid, removed, remove_mid, removed-Represents}
use c11http.Windows.Server.{Server, in_store}
use c11http.Windows.Server.Events.{Events}
use c11http.Windows.Server.Invariant.{Sound, Kept}

-- A connection that is behind a pointer of the container.
pub at_pointer :
    (cells : ℕ → Option ServerConnection) (p : ℕ) (c : ServerConnection) (ps : List ℕ)
    (cs : List ServerConnection)
    → Owns cells ps cs
    → In p ps
    → cells p ≡ some c
    → (before : List ServerConnection) × (after : List ServerConnection) × (cs
        ≡ before ++ c ∷ after)
at_pointer cells p c [] cs o i e = absurd i
at_pointer cells p c (q ∷ ps) [] o i e = absurd o
at_pointer cells p c (q ∷ ps) (d ∷ cs) o (inl here) e = ([], cs, ground (arith, o.0))
at_pointer cells p c (q ∷ ps) (d ∷ cs) o (inr i) e =
    let (before, after, f) = at_pointer cells p c ps cs o.1 i e in (d ∷ before, after, ap (◌∷◌ d) f)

module _ {W : Type 0} (ws : Winsock W) (opened : W → FdSet) (on_way : W → ℕ)
    (laws : Events ws opened on_way) where
  -- What is behind a pointer once another is deleted.
  kept_cell :
      (s : Store W) (c : ServerConnection) (qs : List ℕ) (p : ℕ) (rs : List ℕ) (q : ℕ)
      (d : ServerConnection)
      → (removed ws s c qs p rs).cells q ≡ some d
      → (s.cells q ≡ some d) × (q ≢ p)
  unfolding removed
  kept_cell s c qs p rs q d live = (ground arith, (λ e. ground arith))

  close_other :
      (fd e k : ℕ) (w : W)
      → e ≢ k
      → opened w k ≡ true
      → opened (ws.heap_free (ws.close_event e (ws.close_socket fd w))) k ≡ true
  close_other fd e k w other o =
      (laws.heap_free_mild _).0 k
        (laws.close_event_other e k _ other ((laws.close_socket_mild fd w).0 k o))

  pub removed-Sound :
      (accepting : Bool) (s : Server W) (before : List ServerConnection) (c : ServerConnection)
      (after : List ServerConnection) (qs : List ℕ) (p : ℕ) (rs : List ℕ)
      → Sound ws opened on_way accepting s
      → Represents s.store (before ++ c ∷ after)
      → s.store.container ≡ qs ++ p ∷ rs
      → Owns s.store.cells qs before
      → s.store.cells p ≡ some c
      → Owns s.store.cells rs after
      → Sound ws opened on_way accepting (record s { store = removed ws s.store c qs p rs })
  unfolding removed destroy_overlap
  removed-Sound accepting s before c after qs p rs h r e left live right = record {
    connections = before ++ after;
    represents = removed-Represents ws s.store c qs p rs before after r e left live right;
    allocated = λ q d there. h.allocated q d (kept_cell s.store c qs p rs q d there).0;
    events_open = λ q d there.
        let (was, apart) = kept_cell s.store c qs p rs q d there in
        let (o, other) = h.events_open q d was in
        (
          close_other c.socket c.event d.event _ (λ x. apart (sym (h.separate p q c d live was x)))
              o,
          other,
        );
    separate = λ q q' d d' there there' same.
        h.separate q q' d d' (kept_cell s.store c qs p rs q d there).0
          (kept_cell s.store c qs p rs q' d' there').0 same;
    own =
        let (o, other) = h.events_open p c live in
        close_other c.socket c.event s.event _ (λ x. other (sym x)) h.own;
    owed = omega (
      arith,
      h.owed,
      (laws.close_socket_mild c.socket s.store.env.world).1,
      laws.close_event_sends c.event (ws.close_socket c.socket s.store.env.world),
      (laws.heap_free_mild (ws.close_event c.event (ws.close_socket c.socket s.store.env.world))).1,
    );
    incoming = h.incoming;
  }

  -- A connection of the container is removed by its handle.
  pub remove_known :
      (accepting : Bool) (s : Server W) (before : List ServerConnection) (c : ServerConnection)
      (after : List ServerConnection)
      → Sound ws opened on_way accepting s
      → Represents s.store (before ++ c ∷ after)
      → (t : Store W) × (remove_by_handle ws c.event s.store ≡ (ok tt, t))
        × Sound ws opened on_way accepting (record s { store = t })
  remove_known accepting s before c after h r =
      let (qs, p, rs, e, left, live, right) =
        Owns-mid s.store.cells s.store.container before c after r.owns in
      (
        removed ws s.store c qs p rs,
        remove_mid ws s.store c qs p rs before after r e left live right,
        removed-Sound accepting s before c after qs p rs h r e left live right,
      )

  pub remove_by_identifier-Kept :
      (i : Bytes) (s : Server W)
      → Sound ws opened on_way true s
      → Kept ws opened on_way ⊥ true (in_store (remove_by_identifier ws i) s)
  unfolding remove_by_identifier
  remove_by_identifier-Kept i s h = elim (Option-cases (find Bytes-discrete i s.store.mapping)) [
    | inl none_there ↦ rw none_there h
    | inr (p, there) ↦
        let r = h.represents in
        let (c, live, name, at) = r.mapped i p there in
        let (before, after, e) =
          at_pointer s.store.cells p c s.store.container h.connections r.owns at live in
        let (t, gone, sound) =
          remove_known true s before c after h (subst (Represents s.store) e r) in
        rw (there, live, gone) sound
  ]
