-- ===== src/Windows/Server/Invariant/Creating.antt =====
-- server/windows/ServerConnection.cpp: a new connection keeps what holds of the server.
use c11http.Common.{
  ℕ, suc, ◌<◌, ◌≡◌, ◌≢◌, Bool-cases, false, Option, some, List, [], ◌∷◌, inl, inr, arith, ◌⊎◌, ◌==◌,
  All,
}
use c11http.Common.Pointers.{Owns, Owns-update, Fresh-of_below, In-lt, update}
use c11http.Posix.{FdSet}
use c11http.Windows.{Winsock}
use c11http.Windows.Connections.{ServerConnection}
use c11http.Windows.Server.{Server}
use c11http.Windows.Server.Events.{Events}
use c11http.Windows.Server.Invariant.{Sound}

module _ {W : Type 0} (ws : Winsock W) (opened : W → FdSet) (on_way : W → ℕ)
    (laws : Events ws opened on_way) where
  below :
      (cells : ℕ → Option ServerConnection) (n : ℕ) (ps : List ℕ) (cs : List ServerConnection)
      → ((p : ℕ) (c : ServerConnection) → cells p ≡ some c → p < n)
      → Owns cells ps cs
      → All (λ p. p < n) ps
  below cells n [] [] a o = tt
  below cells n [] (c ∷ cs) a o = absurd o
  below cells n (p ∷ ps) [] a o = absurd o
  below cells n (p ∷ ps) (c ∷ cs) a o = (a p c o.0, below cells n ps cs a o.1)

  -- A new object with a new event.
  abbrev pub object : ℕ → ℕ → ServerConnection
  object fd e = record { socket = fd; event = e; identifier = [] }

  abbrev pub created : ℕ → ℕ → Server W → Server W
  created fd e s = record s {
    store = record s.store {
      env = record s.store.env { world = (ws.create_event s.store.env.world).1 };
      cells = update s.store.cells s.store.next_cell (some (object fd e));
      next_cell = suc s.store.next_cell;
    };
  }

  old_or_new :
      (s : Server W) (fd e p : ℕ) (c : ServerConnection)
      → (created fd e s).store.cells p ≡ some c
      → ((s.store.next_cell ≡ p) × (c.event ≡ e)) ⊎ (s.store.cells p ≡ some c)
  old_or_new s fd e p c live = elim (Bool-cases (s.store.next_cell == p)) [
    | inl new ↦ inl (ground arith, ground arith)
    | inr old ↦ inr (ground arith)
  ]

  unlike :
      (s : Server W) (e q : ℕ) (d : ServerConnection)
      → Sound ws opened on_way false s
      → (ws.create_event s.store.env.world).0 ≡ some e
      → s.store.cells q ≡ some d
      → d.event ≢ e
  unlike s e q d h made live x =
      ground (arith, (h.events_open q d live).0, (laws.create_event_new e s.store.env.world made).0)

  pub created-Sound :
      (s : Server W) (fd e : ℕ)
      → Sound ws opened on_way false s
      → (ws.create_event s.store.env.world).0 ≡ some e
      → Sound ws opened on_way false (created fd e s)
  created-Sound s fd e h made =
      let (closed, fresh_open) = laws.create_event_new e s.store.env.world made in
      let (keeps, calm) = laws.create_event_mild s.store.env.world in
      let n = s.store.next_cell in
      let under =
        below s.store.cells n s.store.container h.connections h.allocated h.represents.owns in
      record {
        connections = h.connections;
        represents = record {
          owns =
              Owns-update s.store.cells n (some (object fd e)) s.store.container h.connections
                (Fresh-of_below n s.store.container under) h.represents.owns;
          pointers = h.represents.pointers;
          handles = h.represents.handles;
          mapped = λ i p f.
              let (c, live, name, at) = h.represents.mapped i p f in
              (c, ground (arith, In-lt p n s.store.container at under), name, at);
        };
        allocated = λ p c live. elim (old_or_new s fd e p c live) [
          | inl (new, _) ↦ omega arith
          | inr old ↦ omega (arith, h.allocated p c old)
        ];
        events_open = λ p c live. elim (old_or_new s fd e p c live) [
          | inl (new, same) ↦ (rw same fresh_open, (λ x. ground (arith, h.own, closed)))
          | inr old ↦ let (o, other) = h.events_open p c old in (keeps c.event o, other)
        ];
        separate = λ p q c d live live' same. elim (old_or_new s fd e p c live) [
          | inl (new, x) ↦ elim (old_or_new s fd e q d live') [
            | inl (new', y) ↦ cc
            | inr old' ↦ absurd (unlike s e q d h made old' (cc))
          ]
          | inr old ↦ elim (old_or_new s fd e q d live') [
            | inl (new', y) ↦ absurd (unlike s e p c h made old (cc))
            | inr old' ↦ h.separate p q c d old old' same
          ]
        ];
        own = keeps s.event h.own;
        owed = omega (arith, h.owed, calm);
        incoming = h.incoming;
      }
