-- ===== src/Windows/Server/Final.antt =====
-- server/windows/Server.cpp: the loop and other threads after `shutdown`.
use c11http.Common.{
  ok, throw, fault, Outcome, ◌≢◌, if◌then◌else◌, Bool, ℕ, ◌≡◌, refl, sym, subst, true, none, List,
  [], ◌∷◌, M, arith, beside, schedule, schedule-starts, inl, inr, Option-cases, ◌>>◌,
}
use c11http.Common.Assoc.{find}
use c11http.Common.Pointers.{In}
use c11http.Callback.{Bytes, Bytes-discrete, Event}
use c11http.Windows.{Winsock, Wait, wait_error, io_completion, signalled}
use c11http.Windows.Connections.{ServerConnection, get_by_identifier}
use c11http.Windows.Connections.Represents.{Represents}
use c11http.Windows.Server.{
  Server, Point, testing, entering, waiting, finished, pump, send, send_each, broadcast, shutdown,
  shut_each, effect, after_wait,
}
use c11http.Windows.Server.Shutdown.{shutdown-Represents}

-- What happens next: the loop runs to its next point, or another thread makes a call.
pub data Act : Type 0 where
  pumps : Act
  sends : Bytes → Bytes → Act
  broadcasts : Bytes → Act
  shuts_down : Act

module _ {W : Type 0} (ws : Winsock W) where
  abbrev act : Act → Point → M (Server W) Point
  act pumps p s = pump ws p s
  act (sends bytes i) p s = beside p (send ws bytes i s)
  act (broadcasts bytes) p s = beside p (broadcast ws bytes s)
  act shuts_down p s = beside p (shutdown ws s)

  abbrev pub run : List Act → Point → M (Server W) Point
  run = schedule act

  -- After `shutdown`: no connection is left, and these events have been told to the callback.
  record Quiet (log : List Event) (s : Server W) : Type 0 where
    down : s.has_been_shutdown ≡ true
    told : s.store.env.log ≡ log
    empty : s.store.container ≡ []
    unknown : (i : Bytes) → find Bytes-discrete i s.store.mapping ≡ none

  -- Not between the two tests of the loops without any handles.
  abbrev pub InTime : Point → Type 0
  InTime testing = Unit {0}
  InTime (entering handles) = handles ≢ []
  InTime (waiting handles) = handles ≢ []
  InTime finished = Unit {0}

  -- A stretch of the loop and a call end so, neither by undefined behaviour.
  abbrev Calm : List Event → Outcome Point × Server W → Type 0
  Calm log (ok p, s) = InTime p × Quiet log s
  Calm log (throw e, s) = Quiet log s
  Calm log (fault, s) = ⊥

  abbrev CalledCalm : List Event → Outcome (Unit {0}) × Server W → Type 0
  CalledCalm log (ok _, s) = Quiet log s
  CalledCalm log (throw e, s) = Quiet log s
  CalledCalm log (fault, s) = ⊥

  beside-Calm :
      (log : List Event) (p : Point) (r : Outcome (Unit {0}) × Server W)
      → InTime p
      → CalledCalm log r
      → Calm log (beside p r)
  beside-Calm log p (ok _, s) h q = (h, q)
  beside-Calm log p (throw e, s) h q = (h, q)
  beside-Calm log p (fault, s) h q = absurd q

  down_branch :
      (log : List Event) (down : Bool) (m k : M (Server W) Point) (s : Server W)
      → down ≡ true
      → Calm log (m s)
      → Calm log ((if down then m else k) s)
  down_branch log down m k s e h = subst (λ b. Calm log ((if b then m else k) s)) (sym e) h

  answered-Calm :
      (log : List Event) (h : ℕ) (hs : List ℕ) (a : Wait) (s : Server W)
      → Quiet log s
      → Calm log (after_wait ws (h ∷ hs) a s)
  answered-Calm log h hs wait_error s q = q
  answered-Calm log h hs io_completion s q = ((λ e. ground arith), q)
  answered-Calm log h hs (signalled i) s q =
      down_branch log s.has_been_shutdown _ _ s q.down (tt, q)

  pump-Calm :
      (log : List Event) (p : Point) (s : Server W)
      → InTime p
      → Quiet log s
      → Calm log (pump ws p s)
  unfolding pump
  pump-Calm log testing s h q =
      down_branch log s.has_been_shutdown _ _ _ q.down
        (tt, record { down = q.down; told = q.told; empty = q.empty; unknown = q.unknown })
  pump-Calm log (entering []) s h q = absurd (h refl)
  pump-Calm log (entering (k ∷ hs)) s h q = down_branch log s.has_been_shutdown _ _ s q.down (tt, q)
  pump-Calm log (waiting []) s h q = absurd (h refl)
  pump-Calm log (waiting (k ∷ hs)) s h q =
      answered-Calm log k hs (ws.wait (k ∷ hs) s.store.env.world).0 _
        (record { down = q.down; told = q.told; empty = q.empty; unknown = q.unknown })
  pump-Calm log finished s h q = (tt, q)

  send-Calm :
      (log : List Event) (bytes i : Bytes) (s : Server W)
      → Quiet log s
      → CalledCalm log (send ws bytes i s)
  unfolding send get_by_identifier
  send-Calm log bytes i s q = rw (q.unknown i) q

  broadcast-Calm :
      (log : List Event) (bytes : Bytes) (s : Server W)
      → Quiet log s
      → CalledCalm log (broadcast ws bytes s)
  unfolding broadcast
  broadcast-Calm log bytes s q =
      subst (λ ps. CalledCalm log (send_each ws bytes ps s)) (sym q.empty) (unfold send_each in q)

  -- `shutdown` on a server with connections, and so on one that has been shut down.
  shutdown-Calm :
      (s : Server W) (cs : List ServerConnection)
      → Represents s.store cs
      → CalledCalm s.store.env.log (shutdown ws s)
  shutdown-Calm s cs r =
      let (t, run, down, shape, empty, log, _) = shutdown-Represents ws s cs r in
      subst (CalledCalm s.store.env.log) (sym run) (record {
        down = down;
        told = log;
        empty = empty;
        unknown = λ i. elim (Option-cases (find Bytes-discrete i t.store.mapping)) [
          | inl none_there ↦ none_there
          | inr (p, there) ↦
              let (c, live, name, at) = shape.mapped i p there in absurd (subst (In p) empty at)
        ];
      })

  shutdown_again-Calm :
      (log : List Event) (s : Server W) → Quiet log s → CalledCalm log (shutdown ws s)
  unfolding shutdown
  shutdown_again-Calm log s q =
      subst
        (λ ps. CalledCalm log (
          (shut_each ws ps >> effect (ws.set_event s.event))
            (record s { has_been_shutdown = true })))
        (sym q.empty) (unfold shut_each in quiet)
    where
      quiet : Quiet log (record s {
        store = record s.store {
          env = record s.store.env { world = ws.set_event s.event s.store.env.world };
        };
        has_been_shutdown = true;
      })
      quiet = record { down = refl; told = q.told; empty = q.empty; unknown = q.unknown }

  act-Calm :
      (log : List Event) (a : Act) (p : Point) (s : Server W)
      → Calm log (ok p, s)
      → Calm log (act a p s)
  act-Calm log pumps p s (h, q) = pump-Calm log p s h q
  act-Calm log (sends bytes i) p s (h, q) = beside-Calm log p _ h (send-Calm log bytes i s q)
  act-Calm log (broadcasts bytes) p s (h, q) = beside-Calm log p _ h (broadcast-Calm log bytes s q)
  act-Calm log shuts_down p s (h, q) = beside-Calm log p _ h (shutdown_again-Calm log s q)

  -- What a run from `shutdown` on comes to.
  abbrev pub Ends : Bytes → List Event → Outcome Point × Server W → Type 0
  Ends i log r =
      (r.0 ≢ fault)
      × (r.1.has_been_shutdown ≡ true)
      × (r.1.store.container ≡ [])
      × (find Bytes-discrete i r.1.store.mapping ≡ none)
      × (r.1.store.env.log ≡ log)

  Calm-Ends :
      (i : Bytes) (log : List Event) (r : Outcome Point × Server W) → Calm log r → Ends i log r
  Calm-Ends i log (ok p, s) (h, q) = ((λ e. ground arith), q.down, q.empty, q.unknown i, q.told)
  Calm-Ends i log (throw e, s) q = ((λ e. ground arith), q.down, q.empty, q.unknown i, q.told)
  Calm-Ends i log (fault, s) q = absurd q

  -- Once a server on any number of connections has been shut down, no schedule of its loop and of
  -- sends, broadcasts and shutdowns by other threads brings it back, makes a connection, calls the
  -- callback or has undefined behaviour, and no identifier leads to a connection. The loop does not stand
  -- between its two tests without any handles when `shutdown` is called, and no completion routine
  -- comes.
  pub shutdown_empties_for_good :
      (acts : List Act) (p : Point) (s : Server W) (cs : List ServerConnection) (i : Bytes)
      → InTime p
      → Represents s.store cs
      → Ends i s.store.env.log (run (shuts_down ∷ acts) p s)
  shutdown_empties_for_good acts p s cs i h r =
      let log = s.store.env.log in
      Calm-Ends i log _ (
        schedule-starts (Calm log) act (act-Calm log) shuts_down acts p s
          (beside-Calm log p _ h (shutdown-Calm s cs r)))
