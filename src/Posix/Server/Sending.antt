-- ===== src/Posix/Server/Sending.antt =====
-- server/posix/Server.cpp: `broadcast` and `send`, which queue bytes and mark descriptors for writing.
use c11http.Common.Pointers.{Owns, Fresh, Distinct, Owns-update, update}
use c11http.Common.{
  ℕ, ◌≡◌, refl, sym, ◌∙◌, subst, inl, inr, true, none, some, List, [], ◌∷◌, ◌++◌, map, arith, All,
  Outcome, ok, throw, fault, connection_not_found, Option-cases,
}
use c11http.Common.Assoc.{find}
use c11http.Callback.{Bytes, Bytes-discrete}
use c11http.Posix.{Os, FdSet, fd_add}
use c11http.Posix.Connection.{ServerConnection, add_queued_message}
use c11http.Posix.Connections.{get_by_identifier}
use c11http.Posix.Connections.Represents.Lists.{Cells, sockets, Represents, Represents-env}
use c11http.Posix.Connections.Represents.Reshape.{Alike, reshape, replace-Represents}
use c11http.Posix.Server.{Server, send_to, send, send_each, broadcast}

-- A connection with bytes in front of those that wait.
abbrev pub fronted : Bytes → ServerConnection → ServerConnection
fronted bytes c = record c { outgoing_bytes = bytes ++ c.outgoing_bytes }

-- The write set with the descriptors of some connections.
abbrev pub mark_all : List ServerConnection → FdSet → FdSet
mark_all [] set = set
mark_all (c ∷ cs) set = mark_all cs (fd_add c.socket set)

mark_all-keeps :
    (cs : List ServerConnection) (set : FdSet) (fd : ℕ) → set fd ≡ true → mark_all cs set fd ≡ true
mark_all-keeps [] set fd h = h
mark_all-keeps (c ∷ cs) set fd h = mark_all-keeps cs (fd_add c.socket set) fd (ground arith)

mark_all-marks :
    (cs : List ServerConnection) (set : FdSet) → All (λ c. mark_all cs set c.socket ≡ true) cs
mark_all-marks [] set = tt
mark_all-marks (c ∷ cs) set = (
  mark_all-keeps cs (fd_add c.socket set) c.socket (ground arith),
  mark_all-marks cs (fd_add c.socket set),
)

mark_all-Fresh :
    (cs : List ServerConnection) (set : FdSet) (fd : ℕ)
    → Fresh fd (sockets cs)
    → mark_all cs set fd ≡ set fd
mark_all-Fresh [] set fd f = refl
mark_all-Fresh (c ∷ cs) set fd f =
    mark_all-Fresh cs (fd_add c.socket set) fd f.1 ∙ ground (arith, f.0)

-- The heap with the bytes queued at each of some pointers.
abbrev pub queue_each : Bytes → List ℕ → List ServerConnection → Cells → Cells
queue_each bytes [] cs cells = cells
queue_each bytes (p ∷ ps) [] cells = cells
queue_each bytes (p ∷ ps) (c ∷ cs) cells =
    queue_each bytes ps cs (update cells p (some (add_queued_message bytes c)))

queue_each-Fresh :
    (bytes : Bytes) (q : ℕ) (ps : List ℕ) (cs : List ServerConnection) (cells : Cells)
    → Fresh q ps
    → queue_each bytes ps cs cells q ≡ cells q
queue_each-Fresh bytes q [] cs cells f = refl
queue_each-Fresh bytes q (p ∷ ps) [] cells f = refl
queue_each-Fresh bytes q (p ∷ ps) (c ∷ cs) cells f =
    queue_each-Fresh bytes q ps cs (update cells p (some (add_queued_message bytes c))) f.1
    ∙ ground (arith, f.0)

queue_each-Owns :
    (bytes : Bytes) (ps : List ℕ) (cs : List ServerConnection) (cells : Cells)
    → Distinct ps
    → Owns cells ps cs
    → Owns (queue_each bytes ps cs cells) ps (map (add_queued_message bytes) cs)
queue_each-Owns bytes [] [] cells d o = tt
queue_each-Owns bytes [] (c ∷ cs) cells d o = absurd o
queue_each-Owns bytes (p ∷ ps) [] cells d o = absurd o
queue_each-Owns bytes (p ∷ ps) (c ∷ cs) cells d o =
    let cells' = update cells p (some (add_queued_message bytes c)) in
    (
      queue_each-Fresh bytes p ps cs cells' d.0 ∙ ground arith,
      queue_each-Owns bytes ps cs cells' d.1 (Owns-update cells p _ ps cs d.0 o.1),
    )

pub Alike-queue :
    (bytes : Bytes) (cs : List ServerConnection) → Alike cs (map (add_queued_message bytes) cs)
unfolding add_queued_message
Alike-queue bytes [] = tt
Alike-queue bytes (c ∷ cs) = (refl, refl, Alike-queue bytes cs)

module _ {W : Type 0} (os : Os W) where
  abbrev pub queued : Bytes → List ℕ → List ServerConnection → Server W → Server W
  queued bytes ps cs s = record s {
    store = record s.store { cells = queue_each bytes ps cs s.cells };
    master_write = mark_all cs s.master_write;
  }

  send_to_lem :
      (bytes : Bytes) (p : ℕ) (c : ServerConnection) (s : Server W)
      → s.cells p ≡ some c
      → send_to os bytes p s ≡ (ok tt, queued bytes (p ∷ []) (c ∷ []) s)
  unfolding send_to
  send_to_lem bytes p c s live = rw live

  send_each_lem :
      (bytes : Bytes) (ps : List ℕ) (cs : List ServerConnection) (s : Server W)
      → Distinct ps
      → Owns s.cells ps cs
      → send_each os bytes ps s ≡ (ok tt, queued bytes ps cs s)
  unfolding send_each
  send_each_lem bytes [] [] s d o = refl
  send_each_lem bytes [] (c ∷ cs) s d o = absurd o
  send_each_lem bytes (p ∷ ps) [] s d o = absurd o
  send_each_lem bytes (p ∷ ps) (c ∷ cs) s d o = rw (send_to_lem bytes p c s o.0) (
      send_each_lem bytes ps cs (queued bytes (p ∷ []) (c ∷ []) s) d.1
        (Owns-update s.cells p _ ps cs d.0 o.1))

  -- The wakeup, which ends both calls.
  abbrev pub woken : Server W → W
  woken s = os.write s.wakeup_write (b'.' ∷ []) (os.poll_out s.wakeup_write s.env.world).1

  -- The server with another state of the system.
  abbrev pub in_state : W → Server W → Server W
  in_state w s = record s { store = record s.store { env = record s.env { world = w } } }

  pub broadcast_lem :
      (bytes : Bytes) (s : Server W) (cs : List ServerConnection)
      → s.has_connections ≡ true
      → Represents s.store cs
      → broadcast os bytes s ≡ (ok tt, in_state (woken s) (queued bytes s.container cs s))
  unfolding broadcast
  broadcast_lem bytes s cs ready r =
      ground (arith, ready, send_each_lem bytes s.container cs s r.pointers r.owns)

  pub queued-Represents :
      (bytes : Bytes) (s : Server W) (cs : List ServerConnection)
      → Represents s.store cs
      → Represents
          (in_state (woken s) (queued bytes s.container cs s)).store
          (map (add_queued_message bytes) cs)
  queued-Represents bytes s cs r =
      let cells = queue_each bytes s.container cs s.cells in
      Represents-env (record s.store { cells = cells }) (map (add_queued_message bytes) cs) _
        (reshape s.store cells cs (map (add_queued_message bytes) cs) r
          (queue_each-Owns bytes s.container cs s.cells r.pointers r.owns) (Alike-queue bytes cs))

  -- On a server with connections, `broadcast` returns; each connection then has the bytes at the front
  -- of its queue and its descriptor in the write set, no other descriptor comes into that set or
  -- leaves it, the callback is not called, and the system sees the wakeup and nothing else.
  pub broadcast-Represents :
      (bytes : Bytes) (s : Server W) (cs : List ServerConnection)
      → s.has_connections ≡ true
      → Represents s.store cs
      → (t : Server W) × (broadcast os bytes s ≡ (ok tt, t))
        × Represents t.store (map (fronted bytes) cs)
        × All (λ c. t.master_write c.socket ≡ true) cs
        × ((fd : ℕ) → Fresh fd (sockets cs) → t.master_write fd ≡ s.master_write fd)
        × (t.env ≡ record s.env { world = woken s })
  unfolding add_queued_message
  broadcast-Represents bytes s cs ready r = (
    in_state (woken s) (queued bytes s.container cs s),
    broadcast_lem bytes s cs ready r,
    queued-Represents bytes s cs r,
    mark_all-marks cs s.master_write,
    mark_all-Fresh cs s.master_write,
    refl,
  )

  -- What `send` by identifier may come to. If it returns, one connection that carries the identifier
  -- has the bytes at the front of its queue and its descriptor in the write set, and all else is as
  -- it was but for the wakeup.
  abbrev pub SendsTo :
      Bytes → Bytes → Server W → List ServerConnection → Outcome (Unit {0}) × Server W → Type 0
  SendsTo bytes i s cs (ok _, t) =
      (before : List ServerConnection) × (c : ServerConnection) × (after : List ServerConnection)
      × (cs ≡ before ++ c ∷ after)
      × (c.identifier ≡ i)
      × Represents t.store (before ++ fronted bytes c ∷ after)
      × (t.master_write ≡ fd_add c.socket s.master_write)
      × (t.env ≡ record s.env { world = woken s })
  SendsTo bytes i s cs (throw e, t) =
      (e ≡ connection_not_found) × (find Bytes-discrete i s.store.mapping ≡ none) × (t ≡ s)
  SendsTo bytes i s cs (fault, t) = ⊥

  pub send_unknown :
      (bytes i : Bytes) (s : Server W)
      → s.has_connections ≡ true
      → find Bytes-discrete i s.store.mapping ≡ none
      → send os bytes i s ≡ (throw connection_not_found, s)
  unfolding send get_by_identifier
  send_unknown bytes i s ready e = ground arith

  pub send_known :
      (bytes i : Bytes) (s : Server W) (p : ℕ) (c : ServerConnection)
      → s.has_connections ≡ true
      → find Bytes-discrete i s.store.mapping ≡ some p
      → s.cells p ≡ some c
      → send os bytes i s ≡ (ok tt, in_state (woken s) (queued bytes (p ∷ []) (c ∷ []) s))
  unfolding send get_by_identifier
  send_known bytes i s p c ready e live = ground (arith, send_to_lem bytes p c s live)

  sent_known :
      (bytes i : Bytes) (s : Server W) (cs : List ServerConnection)
      → s.has_connections ≡ true
      → Represents s.store cs
      → (p : ℕ) → find Bytes-discrete i s.store.mapping ≡ some p
      → SendsTo bytes i s cs (send os bytes i s)
  unfolding add_queued_message
  sent_known bytes i s cs ready r p e =
      let (c, live, name, at) = r.mapped i p e in
      let (before, after, g, shape) =
        replace-Represents s.store cs p c (add_queued_message bytes c) r at live refl refl in
      subst (SendsTo bytes i s cs) (sym (send_known bytes i s p c ready e live)) (
        before,
        c,
        after,
        g,
        name,
        Represents-env _ (before ++ add_queued_message bytes c ∷ after) _ shape,
        refl,
        refl,
      )

  -- `send` by identifier puts the bytes in front of those that wait at exactly one connection of that
  -- identifier, marks its descriptor for writing and wakes the loop, or raises the exception for an
  -- identifier that is not mapped and changes nothing. It never faults.
  pub send-SendsTo :
      (bytes i : Bytes) (s : Server W) (cs : List ServerConnection)
      → s.has_connections ≡ true
      → Represents s.store cs
      → SendsTo bytes i s cs (send os bytes i s)
  send-SendsTo bytes i s cs ready r = elim (Option-cases (find Bytes-discrete i s.store.mapping)) [
    | inl e ↦ subst (SendsTo bytes i s cs) (sym (send_unknown bytes i s ready e)) (refl, e, refl)
    | inr (p, e) ↦ sent_known bytes i s cs ready r p e
  ]
