-- ===== src/Facade/Client/OnPosix.antt =====
-- client/Client.cpp over client/posix/Client.cpp: what the posix client gives the class.
use c11http.Common.{ℕ, ◌≡◌, true, schedule-keeps}
use c11http.Posix.{Os}
use c11http.Posix.Client.{Client, Point, send_data_to_server, disconnect, pump}
use c11http.Posix.Client.Final.{Quiet, pump-Quiet, disconnect_starts}
use c11http.Facade.{Facade, heard, goes_on}
use c11http.Facade.Client.{PlatformClient, Silent, Ends, destroy, destroy_client_silences}

module _ {W : Type 0} (os : Os W) where
  abbrev pub posix_client : PlatformClient (Client W) Point
  posix_client = record {
    wait_for_events = pump os;
    send = send_data_to_server os;
    disconnect = disconnect os;
    log = λ s. s.env.log;
  }

  posix_tells_nothing :
      (n : ℕ) (p : Point) (s : Client W)
      → (goes_on (pump os) n p (disconnect os s).1).1.env.log ≡ s.env.log
  posix_tells_nothing n p s =
      let q =
        schedule-keeps (λ r. Quiet os s.env.log r.1) (λ (_ : Unit {0}). pump os)
          (λ _ p s q. pump-Quiet os _ p s q) _ p _ (disconnect_starts os s) in
      q.told

  pub posix_client-Silent : Silent posix_client
  posix_client-Silent = record { tells_nothing = posix_tells_nothing }

  -- The destructor of the class, over a posix client: it ends as `disconnect` does, with the callback
  -- deleted unless that is by an exception, and in each case a thread that is still in
  -- `waitForEvents` calls the user's method no more.
  pub destroy-posix_client-Ends :
      (n : ℕ) (p : Point) (f : Facade (Client W))
      → f.has_platform ≡ true
      → f.has_callback ≡ true
      → Ends posix_client (disconnect os f.platform).0 (destroy posix_client f)
        × (heard (goes_on (pump os) n p (destroy posix_client f).1.platform).1.env.log
            ≡ heard f.platform.env.log)
  destroy-posix_client-Ends n p f there cb =
      destroy_client_silences posix_client posix_client-Silent n p f there cb
