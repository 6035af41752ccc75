-- ===== src/Windows/Server/Invariant/Calls.antt =====
-- server/windows/Server.cpp: `shutdown` and `addConnection` keep what holds of the server.
use mathlib.Core.List.{map-append}
use c11http.Common.{
  ℕ, ◌≡◌, ◌≢◌, refl, sym, subst, ◌∙◌, Bool-cases, true, some, List, [], ◌∷◌, ◌++◌, ok, inl, inr,
  arith, ◌==◌,
}
use c11http.Common.Assoc.{assign, find-assign_self, find-assign_ne}
use c11http.Common.Pointers.{
  Owns, Owns-update, Owns-append, Fresh, Fresh-ne, Distinct, Distinct-snoc, In-append_left,
  In-append_right, update,
}
use c11http.Callback.{Bytes, Bytes-discrete}
use c11http.Posix.{FdSet}
use c11http.Windows.{Winsock}
use c11http.Windows.Connections.{ServerConnection, add_server_connection}
use c11http.Windows.Connections.Represents.{events, Represents, Represents-env}
use c11http.Windows.Connections.Removal.{removed, remove_mid, removed-Represents}
use c11http.Windows.Server.{Server, shut_each, shutdown, add_connection}
use c11http.Windows.Server.Handling.{with_env}
use c11http.Windows.Server.Shutdown.{cut_off, shut_step}
use c11http.Windows.Server.Events.{Mild-trans, Events}
use c11http.Windows.Server.Invariant.{Sound, Kept, and_then-Kept, flagged-Sound, with_env-Sound}
use c11http.Windows.Server.Invariant.Removing.{removed-Sound}

module _ {W : Type 0} (ws : Winsock W) (opened : W → FdSet) (on_way : W → ℕ)
    (laws : Events ws opened on_way) where
  shut_each-Kept :
      (ps : List ℕ) (cs : List ServerConnection) (s : Server W)
      → Owns s.store.cells ps cs
      → s.store.container ≡ ps
      → Represents s.store cs
      → Sound ws opened on_way true s
      → Kept ws opened on_way ⊥ true (shut_each ws ps s)
  unfolding shut_each
  shut_each-Kept [] cs s o e r h = h
  shut_each-Kept (p ∷ ps) [] s o e r h = absurd o
  shut_each-Kept (p ∷ ps) (c ∷ cs) s o e r h =
      let w = s.store.env.world in
      let store = cut_off ws c s.store in
      let received = ws.recv_disconnect c.socket w in
      let mild =
        Mild-trans opened on_way w received store.env.world (laws.recv_disconnect_mild c.socket w)
          (laws.send_disconnect_mild c.socket received) in
      let r' = Represents-env s.store (c ∷ cs) store.env r in
      let shape = removed-Represents ws store c [] p ps [] cs r' e tt o.0 o.1 in
      let sound =
        removed-Sound ws opened on_way laws true (with_env ws store.env s) [] c cs [] p ps
          (with_env-Sound ws opened on_way true s store.env h mild) r' e tt o.0 o.1 in
      subst (Kept ws opened on_way ⊥ true)
        (sym (shut_step ws s p ps c _ o.0 (remove_mid ws store c [] p ps [] cs r' e tt o.0 o.1)))
        (shut_each-Kept ps cs _ (unfold removed in shape.owns) (unfold removed in refl) shape sound)

  marked-Sound :
      (s : Server W)
      → Sound ws opened on_way true s
      → Sound ws opened on_way true (record s { has_been_shutdown = true })
  marked-Sound s h =
      flagged-Sound ws opened on_way true true s s.incoming_socket true s.waiting_for_events h
        h.incoming

  pub shutdown-Kept :
      (s : Server W) → Sound ws opened on_way true s → Kept ws opened on_way ⊥ true (shutdown ws s)
  unfolding shutdown
  shutdown-Kept s h =
      and_then-Kept ws opened on_way ⊥ true _ _
        (shut_each-Kept s.store.container h.connections (record s { has_been_shutdown = true })
          h.represents.owns refl h.represents (marked-Sound s h))
        λ _ t k.
          with_env-Sound ws opened on_way true t _ k (laws.set_event_mild s.event t.store.env.world)

  -- The object behind a pointer, with a name.
  abbrev named : Bytes → ServerConnection → ServerConnection
  named i c = record c { identifier = i }

  abbrev added : ℕ → ServerConnection → Bytes → Server W → Server W
  added p c i s = record s {
    store = record s.store {
      cells = update s.store.cells p (some (named i c));
      mapping = assign Bytes-discrete i p s.store.mapping;
      container = s.store.container ++ p ∷ [];
    };
  }

  add_lem :
      (p : ℕ) (c : ServerConnection) (i : Bytes) (s : Server W)
      → s.store.cells p ≡ some c
      → add_connection ws p i s ≡ (ok tt, added p c i s)
  unfolding add_connection add_server_connection
  add_lem p c i s live = rw live refl

  -- What was behind a pointer before: an object with the same event.
  before_adding :
      (p : ℕ) (c : ServerConnection) (i : Bytes) (s : Server W) (q : ℕ) (d : ServerConnection)
      → s.store.cells p ≡ some c
      → (added p c i s).store.cells q ≡ some d
      → (b : ServerConnection) × (s.store.cells q ≡ some b) × (b.event ≡ d.event)
  before_adding p c i s q d live there = elim (Bool-cases (p == q)) [
    | inl same ↦ (c, ground arith, ground arith)
    | inr other ↦ (d, ground arith, refl)
  ]

  -- The event of an object that is not in the container is that of no connection.
  events-Fresh :
      (s : Server W) (p : ℕ) (c : ServerConnection) (ps : List ℕ) (cs : List ServerConnection)
      → Sound ws opened on_way true s
      → s.store.cells p ≡ some c
      → Fresh p ps
      → Owns s.store.cells ps cs
      → Fresh c.event (events cs)
  events-Fresh s p c [] [] h live f o = tt
  events-Fresh s p c [] (d ∷ cs) h live f o = absurd o
  events-Fresh s p c (q ∷ ps) [] h live f o = absurd o
  events-Fresh s p c (q ∷ ps) (d ∷ cs) h live f o =
      ((λ same. f.0 (h.separate p q c d live o.0 same)), events-Fresh s p c ps cs h live f.1 o.1)

  added-Represents :
      (p : ℕ) (c : ServerConnection) (i : Bytes) (s : Server W) (cs : List ServerConnection)
      → Sound ws opened on_way true s
      → Represents s.store cs
      → s.store.cells p ≡ some c
      → Fresh p s.store.container
      → Represents (added p c i s).store (cs ++ named i c ∷ [])
  added-Represents p c i s cs h r live fresh = record {
    owns =
        Owns-append (update s.store.cells p (some (named i c))) s.store.container (p ∷ []) cs
          (named i c ∷ [])
          (Owns-update s.store.cells p (some (named i c)) s.store.container cs fresh r.owns)
          (ground arith, tt);
    pointers = Distinct-snoc s.store.container p r.pointers fresh;
    handles = subst Distinct (sym (map-append _ cs (named i c ∷ []))) (
        Distinct-snoc (events cs) c.event r.handles
          (events-Fresh s p c s.store.container cs h live fresh r.owns));
    mapped = λ j q e. elim (Bytes-discrete i j) [
      | yes same ↦
          let here : p ≡ q =
            ground (arith, e, same, find-assign_self Bytes-discrete i p s.store.mapping) in
          (
            named i c,
            ground arith,
            same,
            In-append_right q s.store.container (p ∷ []) (inl (sym here)),
          )
      | no other ↦
          let (d, there, name, at) =
            r.mapped j q (sym (find-assign_ne Bytes-discrete i j p s.store.mapping other) ∙ e) in
          let apart = Fresh-ne p q s.store.container fresh at in
          (d, ground arith, name, In-append_left q s.store.container (p ∷ []) at)
    ];
  }

  pub add_connection-Kept :
      (p : ℕ) (c : ServerConnection) (i : Bytes) (s : Server W)
      → Sound ws opened on_way true s
      → s.store.cells p ≡ some c
      → Fresh p s.store.container
      → Kept ws opened on_way ⊥ true (add_connection ws p i s)
  add_connection-Kept p c i s h live fresh =
      subst (Kept ws opened on_way ⊥ true) (sym (add_lem p c i s live)) (record {
        connections = h.connections ++ named i c ∷ [];
        represents = added-Represents p c i s h.connections h h.represents live fresh;
        allocated = λ q d there.
            let (b, was, _) = before_adding p c i s q d live there in h.allocated q b was;
        events_open = λ q d there.
            let (b, was, same) = before_adding p c i s q d live there in
            subst (λ e. (opened s.store.env.world e ≡ true) × (s.event ≢ e)) same
              (h.events_open q b was);
        separate = λ q q' d d' there there' e.
            let (b, was, same) = before_adding p c i s q d live there in
            let (b', was', same') = before_adding p c i s q' d' live there' in
            h.separate q q' b b' was was' (same ∙ e ∙ sym same');
        own = h.own;
        owed = h.owed;
        incoming = h.incoming;
      })
