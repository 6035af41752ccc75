-- ===== src/Windows/Client/Final.antt =====
-- client/windows/Client.cpp: the loop under calls from other threads, and its end after `disconnect`.
use c11http.Common.{
  beside, beside-keeps, schedule, schedule-starts, schedule_congr, true, ℕ, zero, suc, ◌≡◌, refl,
  false, List, [], ◌∷◌, arith, M,
}
use c11http.Callback.{Bytes, Event}
use c11http.Windows.{Winsock, Io, Received, Wait, wait_error, io_completion, signalled}
use c11http.Windows.Client.{
  Client, Point, testing, waiting, finished, send_data_to_server, disconnect,
}
use c11http.Windows.Client.Loop.{handle_receive, handle_sent, after_wait, pump}

-- What happens next: the loop runs to its next point, or another thread makes a call.
pub data Act : Type 0 where
  pumps : Act
  sends : Bytes → Act
  disconnects : Act

module _ {W : Type 0} (ws : Winsock W) where
  abbrev pub act : Act → Point → M (Client W) Point
  act pumps p s = pump ws p s
  act (sends bytes) p s = beside p (send_data_to_server ws bytes s)
  act disconnects p s = beside p (disconnect ws s)

  abbrev pub run : List Act → Point → M (Client W) Point
  run = schedule act

  -- Disconnected, without a callback, and with these events told to it before.
  record Quiet (log : List Event) (s : Client W) : Type 0 where
    down : s.is_connected ≡ false
    mute : s.env.has_callback ≡ false
    told : s.env.log ≡ log

  pump-Quiet :
      (log : List Event) (p : Point) (s : Client W) → Quiet log s → Quiet log (pump ws p s).1
  unfolding pump
  pump-Quiet log (testing e d) s q = ground arith
  pump-Quiet log (waiting e d) s q = ground arith
  pump-Quiet log finished s q = q

  send-Quiet :
      (log : List Event) (bytes : Bytes) (s : Client W)
      → Quiet log s
      → Quiet log (send_data_to_server ws bytes s).1
  unfolding send_data_to_server
  send-Quiet log bytes s q = ground arith

  disconnect-Quiet : (log : List Event) (s : Client W) → Quiet log s → Quiet log (disconnect ws s).1
  unfolding disconnect
  disconnect-Quiet log s q = ground arith

  act-Quiet :
      (log : List Event) (a : Act) (p : Point) (s : Client W)
      → Quiet log s
      → Quiet log (act a p s).1
  act-Quiet log pumps p s q = pump-Quiet log p s q
  act-Quiet log (sends bytes) p s q = beside-keeps (Quiet log) p _ (send-Quiet log bytes s q)
  act-Quiet log disconnects p s q = beside-keeps (Quiet log) p _ (disconnect-Quiet log s q)

  disconnect_starts : (s : Client W) → s.is_connected ≡ true → Quiet s.env.log (disconnect ws s).1
  unfolding disconnect
  disconnect_starts s c = ground arith

  -- Once `disconnect` has been called on a connected client, no schedule of the loop and of calls of
  -- other threads connects it again, brings its callback back or calls it.
  pub disconnect_silences :
      (acts : List Act) (p : Point) (s : Client W)
      → s.is_connected ≡ true
      → let t = (run (disconnects ∷ acts) p s).1 in
        (t.is_connected ≡ false) × (t.env.has_callback ≡ false) × (t.env.log ≡ s.env.log)
  disconnect_silences acts p s c =
      let q =
        schedule-starts (λ r. Quiet s.env.log r.1) act (act-Quiet s.env.log) disconnects acts p s
          (beside-keeps (Quiet s.env.log) p _ (disconnect_starts s c)) in
      (q.down, q.mute, q.told)

-- Winsock, but with another answer and effect of each `WSARecv`, in both of the forms in which the
-- Windows code looks at its answer.
abbrev pub answering :
    {W : Type 0} → (ℕ → ℕ → W → Io × W) → (ℕ → ℕ → W → Received × W) → Winsock W → Winsock W
answering recv recv_now ws = record ws { recv = recv; recv_now = recv_now }

module _ {W : Type 0} (ws : Winsock W) (recv : ℕ → ℕ → W → Io × W)
    (recv_now : ℕ → ℕ → W → Received × W) where
  after_wait_alike :
      (e d : ℕ) (answer : Wait) (s : Client W)
      → after_wait (answering recv recv_now ws) e d answer s ≡ after_wait ws e d answer s
  unfolding handle_receive handle_sent
  after_wait_alike e d wait_error s = refl
  after_wait_alike e d io_completion s = refl
  after_wait_alike e d (signalled zero) s = refl
  after_wait_alike e d (signalled (suc zero)) s = refl
  after_wait_alike e d (signalled (suc (suc i))) s = refl

  act_alike :
      (a : Act) (p : Point) (s : Client W) → act (answering recv recv_now ws) a p s ≡ act ws a p s
  unfolding pump send_data_to_server disconnect handle_receive handle_sent
  act_alike pumps (testing e d) s = refl
  act_alike pumps (waiting e d) s =
      after_wait_alike e d (ws.wait (e ∷ d ∷ []) s.env.world).0
        (record s { env = record s.env { world = (ws.wait (e ∷ d ∷ []) s.env.world).1 } })
  act_alike pumps finished s = refl
  act_alike (sends bytes) p s = refl
  act_alike disconnects p s = refl

  -- No schedule of the loop and of calls of other threads asks for another receive than the one that
  -- `connect` has queued: the run is the same whatever `WSARecv` would answer and do.
  pub run_never_receives :
      (acts : List Act) (p : Point) (s : Client W)
      → run (answering recv recv_now ws) acts p s ≡ run ws acts p s
  run_never_receives acts p s =
      schedule_congr (act (answering recv recv_now ws)) (act ws) act_alike acts p s
