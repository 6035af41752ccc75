-- ===== src/Posix/Client/Final.antt =====
-- client/posix/Client.cpp: the loop under calls from other threads, and its end after `disconnect`.
use c11http.Common.{
  beside, beside-keeps, schedule, schedule-starts, ◌≡◌, refl, inl, ◌⊎◌, false, List, ◌∷◌, arith, ok,
  throw, M, select_failed,
}
use c11http.Callback.{Bytes, Event}
use c11http.Posix.{Os}
use c11http.Posix.Client.{
  Client, Point, testing, selecting, finished, send_data_to_server, disconnect, destroy, pump,
}

-- What happens next: the loop runs to its next point, or another thread makes a call.
pub data Act : Type 0 where
  pumps : Act
  sends : Bytes → Act
  disconnects : Act

module _ {W : Type 0} (os : Os W) where
  abbrev pub act : Act → Point → M (Client W) Point
  act pumps p s = pump os p s
  act (sends bytes) p s = beside p (send_data_to_server os bytes s)
  act disconnects p s = beside p (disconnect os s)

  abbrev pub run : List Act → Point → M (Client W) Point
  run = schedule act

  -- Disconnected, with these events told to the callback.
  pub record Quiet (log : List Event) (s : Client W) : Type 0 where
    pub down : s.is_connected ≡ false
    pub told : s.env.log ≡ log

  pub pump-Quiet :
      (log : List Event) (p : Point) (s : Client W) → Quiet log s → Quiet log (pump os p s).1
  unfolding pump
  pump-Quiet log testing s q = ground arith
  pump-Quiet log (selecting w) s q = ground arith
  pump-Quiet log finished s q = q

  send-Quiet :
      (log : List Event) (bytes : Bytes) (s : Client W)
      → Quiet log s
      → Quiet log (send_data_to_server os bytes s).1
  unfolding send_data_to_server
  send-Quiet log bytes s q = ground arith

  -- Whether or not the poll that it begins with fails, `disconnect` leaves a client disconnected.
  pub disconnect_starts : (s : Client W) → Quiet s.env.log (disconnect os s).1
  unfolding disconnect
  disconnect_starts s = ground arith

  disconnect-Quiet : (log : List Event) (s : Client W) → Quiet log s → Quiet log (disconnect os s).1
  unfolding disconnect
  disconnect-Quiet log s q = ground arith

  act-Quiet :
      (log : List Event) (a : Act) (p : Point) (s : Client W)
      → Quiet log s
      → Quiet log (act a p s).1
  act-Quiet log pumps p s q = pump-Quiet log p s q
  act-Quiet log (sends bytes) p s q = beside-keeps (Quiet log) p _ (send-Quiet log bytes s q)
  act-Quiet log disconnects p s q = beside-keeps (Quiet log) p _ (disconnect-Quiet log s q)

  -- Once `disconnect` has been called, no schedule of the loop and of calls of other threads connects
  -- the client again or calls the callback.
  pub disconnect_is_final :
      (acts : List Act) (p : Point) (s : Client W)
      → let t = (run (disconnects ∷ acts) p s).1 in
        (t.is_connected ≡ false) × (t.env.log ≡ s.env.log)
  disconnect_is_final acts p s =
      let q =
        schedule-starts (λ r. Quiet s.env.log r.1) act (act-Quiet s.env.log) disconnects acts p s
          (beside-keeps (Quiet s.env.log) p _ (disconnect_starts s)) in
      (q.down, q.told)

  -- The loop of a client that is disconnected ends at its next point, if it is not by the exception of
  -- a failed `select`; another `disconnect`, and the destructor, change nothing more.
  pub disconnected_ends :
      (p : Point) (s : Client W)
      → s.is_connected ≡ false
      → (((pump os p s).0 ≡ ok finished) ⊎ ((pump os p s).0 ≡ throw select_failed))
        × (disconnect os s ≡ (ok tt, s))
        × (destroy os s ≡ (ok tt, s))
  unfolding pump disconnect destroy
  disconnected_ends testing s d = (ground arith, ground arith, ground arith)
  disconnected_ends (selecting w) s d = (ground arith, ground arith, ground arith)
  disconnected_ends finished s d = (inl refl, ground arith, ground arith)
