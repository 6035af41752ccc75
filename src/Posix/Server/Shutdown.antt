-- ===== src/Posix/Server/Shutdown.antt =====
-- server/posix/Server.cpp: the loop under calls from other threads, and its end after `shutdown`.
use c11http.Common.{
  beside, beside-keeps, schedule, schedule-starts, ℕ, ◌≡◌, refl, inl, ◌⊎◌, true, List, [], ◌∷◌,
  arith, ok, throw, M, select_failed,
}
use c11http.Callback.{Bytes, Event}
use c11http.Posix.{Os}
use c11http.Posix.Connections.{get_by_identifier}
use c11http.Posix.Server.{
  Server, Point, testing, selecting, finished, send, send_to, send_each, broadcast, shutdown,
}
use c11http.Posix.Server.Loop.{pump}

-- What happens next: the loop runs to its next point, or another thread makes a call.
pub data Act : Type 0 where
  pumps : Act
  sends : Bytes → Bytes → Act
  broadcasts : Bytes → Act
  shuts_down : Act

module _ {W : Type 0} (os : Os W) where
  abbrev pub act : Act → Point → M (Server W) Point
  act pumps p s = pump os p s
  act (sends bytes i) p s = beside p (send os bytes i s)
  act (broadcasts bytes) p s = beside p (broadcast os bytes s)
  act shuts_down p s = beside p (shutdown os s)

  abbrev pub run : List Act → Point → M (Server W) Point
  run = schedule act

  -- After `shutdown`, and with these events told to the callback.
  pub record Quiet (log : List Event) (s : Server W) : Type 0 where
    pub down : s.has_been_shutdown ≡ true
    pub told : s.env.log ≡ log

  pub pump-Quiet :
      (log : List Event) (p : Point) (s : Server W) → Quiet log s → Quiet log (pump os p s).1
  unfolding pump
  pump-Quiet log testing s q = ground arith
  pump-Quiet log (selecting top r w) s q = ground arith
  pump-Quiet log finished s q = q

  send_to-Quiet :
      (log : List Event) (bytes : Bytes) (p : ℕ) (s : Server W)
      → Quiet log s
      → Quiet log (send_to os bytes p s).1
  unfolding send_to
  send_to-Quiet log bytes p s q = ground arith

  send-Quiet :
      (log : List Event) (bytes i : Bytes) (s : Server W)
      → Quiet log s
      → Quiet log (send os bytes i s).1
  unfolding send get_by_identifier
  send-Quiet log bytes i s q = ground arith

  send_each-Quiet :
      (log : List Event) (bytes : Bytes) (ps : List ℕ) (s : Server W)
      → Quiet log s
      → Quiet log (send_each os bytes ps s).1
  unfolding send_each
  send_each-Quiet log bytes [] s q = q
  send_each-Quiet log bytes (p ∷ ps) s q =
      ground (
        arith,
        send_to-Quiet log bytes p s q,
        send_each-Quiet log bytes ps (send_to os bytes p s).1,
      )

  broadcast-Quiet :
      (log : List Event) (bytes : Bytes) (s : Server W)
      → Quiet log s
      → Quiet log (broadcast os bytes s).1
  unfolding broadcast
  broadcast-Quiet log bytes s q = ground (arith, send_each-Quiet log bytes s.container s q)

  shutdown-Quiet : (log : List Event) (s : Server W) → Quiet log s → Quiet log (shutdown os s).1
  unfolding shutdown
  shutdown-Quiet log s q = ground arith

  act-Quiet :
      (log : List Event) (a : Act) (p : Point) (s : Server W)
      → Quiet log s
      → Quiet log (act a p s).1
  act-Quiet log pumps p s q = pump-Quiet log p s q
  act-Quiet log (sends bytes i) p s q = beside-keeps (Quiet log) p _ (send-Quiet log bytes i s q)
  act-Quiet log (broadcasts bytes) p s q =
      beside-keeps (Quiet log) p _ (broadcast-Quiet log bytes s q)
  act-Quiet log shuts_down p s q = beside-keeps (Quiet log) p _ (shutdown-Quiet log s q)

  pub shutdown_starts : (s : Server W) → Quiet s.env.log (shutdown os s).1
  unfolding shutdown
  shutdown_starts s = ground arith

  -- Once a server has been shut down, no schedule of its loop and of calls of other threads brings it
  -- back or calls the callback.
  pub shutdown_is_final :
      (acts : List Act) (p : Point) (s : Server W)
      → let t = (run (shuts_down ∷ acts) p s).1 in
        (t.has_been_shutdown ≡ true) × (t.env.log ≡ s.env.log)
  shutdown_is_final acts p s =
      let q =
        schedule-starts (λ r. Quiet s.env.log r.1) act (act-Quiet s.env.log) shuts_down acts p s
          (beside-keeps (Quiet s.env.log) p _ (shutdown_starts s)) in
      (q.down, q.told)

  -- The loop of a server that has been shut down ends at its next point, wherever it stands, if it is
  -- not by the exception of a failed `select`.
  pub pump_after_shutdown :
      (p : Point) (s : Server W)
      → s.has_been_shutdown ≡ true
      → ((pump os p s).0 ≡ ok finished) ⊎ ((pump os p s).0 ≡ throw select_failed)
  unfolding pump
  pump_after_shutdown testing s d = ground arith
  pump_after_shutdown (selecting top r w) s d = ground arith
  pump_after_shutdown finished s d = inl refl
