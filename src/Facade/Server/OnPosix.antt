-- ===== src/Facade/Server/OnPosix.antt =====
-- server/Server.cpp over server/posix/Server.cpp: what the posix server gives the class.
use mathlib.Core.List.{append_assoc}
use c11http.Common.{
  subst, ℕ, ◌≡◌, refl, ap, ◌∙◌, true, false, Option, none, some, List, [], ◌∷◌, ◌++◌, ok, arith,
  schedule-keeps, inl, inr,
}
use c11http.Common.Pointers.{Fresh}
use c11http.Callback.{Bytes, Event, receive_complete, disconnected}
use c11http.Posix.{Os, FdSet}
use c11http.Posix.Descriptors.{Descriptors}
use c11http.Posix.Connection.{ServerConnection}
use c11http.Posix.Connections.Represents.Lists.{sockets, Represents, Represents-env}
use c11http.Posix.Server.{Server, Point, send, broadcast, shutdown}
use c11http.Posix.Server.Loop.{pump, handle_server_connection}
use c11http.Posix.Server.Receiving.{
  IsGone, answer, handle_server_connection-data, handle_server_connection-loss,
}
use c11http.Posix.Server.Shutdown.{Quiet, pump-Quiet, shutdown_starts}
use c11http.Posix.Server.Invariant.{AllOpen}
use c11http.Posix.Server.Invariant.Calls.{stopped, shutdown_lem, stopped-AllOpen}
use c11http.Facade.{Facade, passed_on, heard, goes_on}
use c11http.Facade.Server.{PlatformServer, Silent, destroy}

heard-append : (log more : List Event) → heard (log ++ more) ≡ heard log ++ heard more
heard-append [] more = refl
heard-append (e ∷ log) more =
    ground (arith, heard-append log more, append_assoc (passed_on e) (heard log) (heard more))

module _ {W : Type 0} (os : Os W) where
  abbrev pub posix_server : PlatformServer (Server W) Point
  posix_server = record {
    wait_for_events = pump os;
    send = send os;
    broadcast = broadcast os;
    shutdown = shutdown os;
    log = λ s. s.env.log;
  }

  posix_tells_nothing :
      (n : ℕ) (p : Point) (s : Server W)
      → (goes_on (pump os) n p (shutdown os s).1).1.env.log ≡ s.env.log
  posix_tells_nothing n p s =
      let q =
        schedule-keeps (λ r. Quiet os s.env.log r.1) (λ (_ : Unit {0}). pump os)
          (λ _ p s q. pump-Quiet os _ p s q) _ p _ (shutdown_starts os s) in
      q.told

  pub posix-Silent : Silent posix_server (λ s. Unit {0})
  posix-Silent = record {
    shuts_down = λ s _. ap (λ x. x.0) (shutdown_lem os s);
    tells_nothing = λ n p s _. posix_tells_nothing n p s;
  }

  -- What the user hears of an answer to a receive.
  abbrev heard_of : Bytes → Option Bytes → List (Bytes × Bytes)
  heard_of i none = []
  heard_of i (some []) = []
  heard_of i (some (b ∷ bytes)) = (i, b ∷ bytes) ∷ []

  abbrev Hears : ServerConnection → List (Bytes × Bytes) → Server W → Type 0
  Hears c news s =
      (t : Server W) × (handle_server_connection os c.socket s ≡ (ok tt, t))
      × (heard t.env.log ≡ heard s.env.log ++ news)

  lost :
      (s : Server W) (cs : List ServerConnection) (c : ServerConnection)
      → Represents s.store (cs ++ c ∷ [])
      → s.env.has_callback ≡ true
      → IsGone os (answer os c.socket s).0
      → Hears c [] s
  lost s cs c r cb gone =
      let (t, done, _, env) = handle_server_connection-loss os s cs c r gone in
      (
        t,
        done,
        ap (λ e. heard e.log) env
            ∙ ground (arith, cb, heard-append s.env.log (disconnected c.identifier ∷ [])),
      )

  answered-Hears :
      (s : Server W) (cs : List ServerConnection) (c : ServerConnection) (bytes : Option Bytes)
      → Represents s.store (cs ++ c ∷ [])
      → s.env.has_callback ≡ true
      → (answer os c.socket s).0 ≡ bytes
      → Hears c (heard_of c.identifier bytes) s
  answered-Hears s cs c none r cb e = lost s cs c r cb (inl e)
  answered-Hears s cs c (some []) r cb e = lost s cs c r cb (inr e)
  answered-Hears s cs c (some (b ∷ bytes)) r cb e =
      let (t, done, _, env, _) = handle_server_connection-data os s cs c [] b bytes r e in
      (
        t,
        done,
        ap (λ e. heard e.log) env
            ∙ ground (
              arith,
              cb,
              heard-append s.env.log (receive_complete c.identifier (b ∷ bytes) ∷ []),
            ),
      )

  -- On the last connection, whatever the receive answers, the user hears of the bytes received, under
  -- the connection's identifier and behind all that was heard before, and of nothing where the client
  -- has gone away. The posix server has the callback of the class.
  pub handle_server_connection-Hears :
      (s : Server W) (cs : List ServerConnection) (c : ServerConnection)
      → Represents s.store (cs ++ c ∷ [])
      → s.env.has_callback ≡ true
      → Hears c (heard_of c.identifier (answer os c.socket s).0) s
  handle_server_connection-Hears s cs c r cb =
      answered-Hears s cs c (answer os c.socket s).0 r cb refl

  module _ (opened : W → FdSet) (laws : Descriptors os opened) where
    still_silent :
        (s : Server W) (n : ℕ) (p : Point)
        → heard (goes_on (pump os) n p (stopped os s)).1.env.log ≡ heard s.env.log
    still_silent s n p =
        subst (λ (t : Server W). heard (goes_on (pump os) n p t).1.env.log ≡ heard s.env.log)
          (ap (λ x. x.1) (shutdown_lem os s)) (ap heard (posix_tells_nothing n p s))

    -- The destructor of the class, over a posix server with some connections, each with an open
    -- descriptor other than the listening one: it ends, the callback deleted, and a thread that is
    -- still in `waitForEvents` calls the user's method no more. But the posix server still stands for
    -- all of the connections, and every one of their descriptors is still open.
    pub destroy_leaks :
        (f : Facade (Server W)) (cs : List ServerConnection)
        → f.has_platform ≡ true
        → Represents f.platform.store cs
        → AllOpen (opened f.platform.env.world) (sockets cs)
        → Fresh f.platform.connect_socket (sockets cs)
        → (g : Facade (Server W)) × (destroy posix_server f ≡ (ok tt, g))
          × (g.has_callback ≡ false)
          × ((n : ℕ) (p : Point)
              → heard (goes_on (pump os) n p g.platform).1.env.log ≡ heard f.platform.env.log)
          × Represents g.platform.store cs
          × AllOpen (opened g.platform.env.world) (sockets cs)
    unfolding destroy
    destroy_leaks f cs there r all apart = (
      record { platform = stopped os f.platform; has_platform = false; has_callback = false },
      ground (arith, there, shutdown_lem os f.platform),
      refl,
      still_silent f.platform,
      Represents-env f.platform.store cs _ r,
      stopped-AllOpen os opened laws f.platform (sockets cs) apart all,
    )
