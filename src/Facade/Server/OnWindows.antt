-- ===== src/Facade/Server/OnWindows.antt =====
-- server/Server.cpp over server/windows/Server.cpp: what the Windows server gives the class.
use c11http.Common.{ℕ, ◌≡◌, ap, true, List, arith, schedule-keeps}
use c11http.Callback.{Event}
use c11http.Windows.{Winsock, Wait, wait_error, io_completion, signalled}
use c11http.Windows.Connections.{ServerConnection}
use c11http.Windows.Connections.Represents.{Represents}
use c11http.Windows.Server.{
  Server, Point, testing, entering, waiting, finished, send, broadcast, shutdown, after_wait, pump,
}
use c11http.Windows.Server.Shutdown.{shutdown-Represents}
use c11http.Facade.{Facade, goes_on}
use c11http.Facade.Server.{PlatformServer, Silent}

module _ {W : Type 0} (ws : Winsock W) where
  abbrev pub windows_server : PlatformServer (Server W) Point
  windows_server = record {
    wait_for_events = pump ws;
    send = send ws;
    broadcast = broadcast ws;
    shutdown = shutdown ws;
    log = λ s. s.store.env.log;
  }

  -- Shut down, with these events told to the callback.
  record Quiet (log : List Event) (s : Server W) : Type 0 where
    down : s.has_been_shutdown ≡ true
    told : s.store.env.log ≡ log

  after_wait-Quiet :
      (log : List Event) (handles : List ℕ) (answer : Wait) (s : Server W)
      → Quiet log s
      → Quiet log (after_wait ws handles answer s).1
  after_wait-Quiet log handles wait_error s q = q
  after_wait-Quiet log handles io_completion s q = q
  after_wait-Quiet log handles (signalled i) s q = ground arith

  pump-Quiet :
      (log : List Event) (p : Point) (s : Server W) → Quiet log s → Quiet log (pump ws p s).1
  unfolding pump
  pump-Quiet log testing s q = ground arith
  pump-Quiet log (entering handles) s q = ground arith
  pump-Quiet log (waiting handles) s q =
      let asked = ws.wait handles s.store.env.world in
      after_wait-Quiet log handles asked.0
        (record s { store = record s.store { env = record s.store.env { world = asked.1 } } })
        (record { down = q.down; told = q.told })
  pump-Quiet log finished s q = q

  -- The server stands for some connections.
  abbrev pub Stands : Server W → Type 0
  Stands s = (cs : List ServerConnection) × Represents s.store cs

  shutdown_starts : (s : Server W) → Stands s → Quiet s.store.env.log (shutdown ws s).1
  shutdown_starts s (cs, r) =
      let (t, done, down, _, _, told, _) = shutdown-Represents ws s cs r in
      rw done (record { down = down; told = told })

  windows_tells_nothing :
      (n : ℕ) (p : Point) (s : Server W)
      → Stands s
      → (goes_on (pump ws) n p (shutdown ws s).1).1.store.env.log ≡ s.store.env.log
  windows_tells_nothing n p s h =
      let q =
        schedule-keeps (λ r. Quiet s.store.env.log r.1) (λ (_ : Unit {0}). pump ws)
          (λ _ p s q. pump-Quiet _ p s q) _ p _ (shutdown_starts s h) in
      q.told

  pub windows-Silent : Silent windows_server Stands
  windows-Silent = record {
    shuts_down = λ s h. ap (λ x. x.0) (shutdown-Represents ws s h.0 h.1).1;
    tells_nothing = windows_tells_nothing;
  }
