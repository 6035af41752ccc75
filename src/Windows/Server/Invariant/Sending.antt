-- ===== src/Windows/Server/Invariant/Sending.antt =====
-- server/windows/Server.cpp: sends keep what holds of the server.
use c11http.Common.{
  ℕ, ◌≤◌, ◌≡◌, Bool, true, false, Option-cases, some, List, [], ◌∷◌, ◌++◌, inl, inr, arith, length,
  length-snoc, if◌then◌else◌,
}
use c11http.Common.Assoc.{find}
use c11http.Callback.{Bytes, Bytes-discrete, Event, send_complete}
use c11http.Posix.{Env, FdSet}
use c11http.Windows.{Winsock, Io, completed, pending, io_error}
use c11http.Windows.Connections.{ServerConnection, get_by_identifier}
use c11http.Windows.Server.{Server, report_send, send_to, send, send_each, broadcast}
use c11http.Windows.Server.Handling.{with_env}
use c11http.Windows.Server.Events.{Mild, Events}
use c11http.Windows.Server.Invariant.{Sound, Kept, allowing-Kept, and_then-Kept, with_env-Sound}
use c11http.Windows.Server.Invariant.Removing.{remove_by_identifier-Kept}

module _ {W : Type 0} (ws : Winsock W) (opened : W → FdSet) (on_way : W → ℕ)
    (laws : Events ws opened on_way) where
  -- Other targets, and a system in which a send more may be on its way.
  pub retargeted :
      (s : Server W) (v : W) (ts : List Bytes)
      → Sound ws opened on_way true s
      → ((k : ℕ) → opened s.store.env.world k ≡ true → opened v k ≡ true)
      → on_way v ≤ length ts
      → Sound ws opened on_way true (record s {
        store = record s.store { env = record s.store.env { world = v } };
        targets = ts;
      })
  retargeted s v ts h keeps owed = record {
    connections = h.connections;
    represents = record {
      owns = h.represents.owns;
      pointers = h.represents.pointers;
      handles = h.represents.handles;
      mapped = h.represents.mapped;
    };
    allocated = h.allocated;
    events_open = λ p c live. let (o, other) = h.events_open p c live in (keeps c.event o, other);
    separate = h.separate;
    own = keeps s.event h.own;
    owed = owed;
    incoming = h.incoming;
  }

  abbrev notified : Event → Env W → Env W
  notified e env = if env.has_callback then record env { log = env.log ++ e ∷ [] } else env

  notified-Mild : (e : Event) (env : Env W) → Mild opened on_way env.world (notified e env).world
  notified-Mild e env = by_callback env.has_callback
    where
      by_callback :
          (b : Bool)
          → Mild opened on_way env.world
              (if b then record env { log = env.log ++ e ∷ [] } else env).world
      by_callback true = ((λ k o. o), omega arith)
      by_callback false = ((λ k o. o), omega arith)

  pub notified-Sound :
      (e : Event) (s : Server W)
      → Sound ws opened on_way true s
      → Sound ws opened on_way true (with_env ws (notified e s.store.env) s)
  notified-Sound e s h =
      with_env-Sound ws opened on_way true s (notified e s.store.env) h
        (notified-Mild e s.store.env)

  report_send-Kept :
      (io : Io) (c : ServerConnection) (count : ℕ) (s : Server W)
      → Sound ws opened on_way true s
      → Kept ws opened on_way ⊥ true (report_send ws c count io s)
  report_send-Kept completed c count s h = notified-Sound (send_complete c.identifier count) s h
  report_send-Kept pending c count s h = h
  report_send-Kept io_error c count s h =
      remove_by_identifier-Kept ws opened on_way laws c.identifier _ (notified-Sound _ s h)

  send_to-Kept :
      (bytes : Bytes) (p : ℕ) (c : ServerConnection) (s : Server W)
      → Sound ws opened on_way true s
      → s.store.cells p ≡ some c
      → Kept ws opened on_way ⊥ true (send_to ws bytes p s)
  unfolding send_to
  send_to-Kept bytes p c s h live =
      let w = s.store.env.world in
      let sent = ws.send c.socket bytes c.event w in
      rw live (
        report_send-Kept sent.0 c (length bytes) _ (
          retargeted s sent.1 (s.targets ++ c.identifier ∷ []) h
            (laws.send_keeps c.socket bytes c.event w)
            (omega (
              arith,
              h.owed,
              laws.send_counts c.socket bytes c.event w,
              length-snoc s.targets c.identifier,
            ))))

  pub send-Kept :
      (bytes i : Bytes) (s : Server W)
      → Sound ws opened on_way true s
      → Kept ws opened on_way ⊥ true (send ws bytes i s)
  unfolding send get_by_identifier
  send-Kept bytes i s h = elim (Option-cases (find Bytes-discrete i s.store.mapping)) [
    | inl none_there ↦ rw none_there h
    | inr (p, there) ↦
        let (c, live, name, at) = h.represents.mapped i p there in
        rw there (
          and_then-Kept ws opened on_way ⊥ true _ _ (send_to-Kept bytes p c s h live) λ _ t k.
            retargeted t t.store.env.world (t.targets ++ i ∷ []) k (λ j o. o)
              (omega (arith, k.owed, length-snoc t.targets i)))
  ]

  -- A connection that one of its sends has removed may come up again: its pointer dangles.
  send_each-Kept :
      (bytes : Bytes) (ps : List ℕ) (s : Server W)
      → Sound ws opened on_way true s
      → Kept ws opened on_way (Unit {0}) true (send_each ws bytes ps s)
  unfolding send_each send_to
  send_each-Kept bytes [] s h = h
  send_each-Kept bytes (p ∷ ps) s h = elim (Option-cases (s.store.cells p)) [
    | inl gone ↦ rw gone tt
    | inr (c, live) ↦
        and_then-Kept ws opened on_way (Unit {0}) true (λ _. send_each ws bytes ps)
          (send_to ws bytes p s)
          (allowing-Kept ws opened on_way true _ (send_to-Kept bytes p c s h live))
          (λ _ t k. send_each-Kept bytes ps t k)
  ]

  pub broadcast-Kept :
      (bytes : Bytes) (s : Server W)
      → Sound ws opened on_way true s
      → Kept ws opened on_way (Unit {0}) true (broadcast ws bytes s)
  unfolding broadcast
  broadcast-Kept bytes s h = send_each-Kept bytes s.store.container s h
