-- ===== src/Windows/Client/Loop.antt =====
-- client/windows/Client.cpp: `waitForEvents` as a state machine that stops in
-- `WSAWaitForMultipleEvents`, where other threads come in.
use c11http.Common.{
  ℕ, zero, suc, Option, none, some, List, [], ◌∷◌, if◌then◌else◌, M, fault, get, modify, pure,
  raise, demand, ◌>>=◌, ◌>>◌, call, wait_failed, invalid_handle,
}
use c11http.Callback.{Bytes, receive_complete}
use c11http.Posix.{notify_if}
use c11http.Windows.{Winsock, Wait, wait_error, io_completion, signalled}
use c11http.Windows.Client.{
  Client, Point, testing, waiting, finished, in_env, on_world, effect, report_sent,
}

module _ {W : Type 0} (ws : Winsock W) where
  -- The front of the buffers is taken off. An empty queue has no front.
  abbrev pop_buffer : List Bytes → M (Client W) (Unit {0})
  pop_buffer [] = λ s. (fault, s)
  pop_buffer (b ∷ buffers) = modify (λ s. record s { send_buffers = buffers })

  abbrev report_received : Option Bytes → M (Client W) (Unit {0})
  report_received none = pure tt
  report_received (some bytes) = do
    s ← get
    in_env (notify_if (receive_complete s.identifier bytes))

  abbrev finish_send : Option ℕ → M (Client W) (Unit {0})
  finish_send none = pure tt
  finish_send (some count) = do s ← get; pop_buffer s.send_buffers; report_sent ws (some count)

  -- The two cases of the `switch`, with the reset of the handle behind it.
  unfoldable pub handle_receive : ℕ → M (Client W) (Unit {0})
  handle_receive event = do
    s ← get
    result ← on_world (call (ws.overlapped_result s.socket event))
    report_received result
    effect (ws.reset_event event)

  unfoldable pub handle_sent : ℕ → M (Client W) (Unit {0})
  handle_sent event = do
    s ← get
    result ← on_world (call (ws.sent_result s.socket event))
    finish_send result
    effect (ws.reset_event event)

  abbrev handle_index : ℕ → ℕ → ℕ → M (Client W) (Unit {0})
  handle_index zero event send_event = handle_receive event
  handle_index (suc zero) event send_event = handle_sent send_event
  handle_index (suc (suc i)) event send_event = raise invalid_handle

  abbrev pub after_wait : ℕ → ℕ → Wait → M (Client W) Point
  after_wait event send_event wait_error = raise wait_failed
  after_wait event send_event io_completion = pure (testing event send_event)
  after_wait event send_event (signalled i) = do
    s ← get
    if s.is_connected
        then handle_index i event send_event >> pure (testing event send_event)
        else pure finished

  -- The start of `waitForEvents`.
  unfoldable pub start_waiting : M (Client W) Point
  start_waiting = do
    s ← get
    event ← demand s.event
    send_event ← demand s.send_event
    pure (testing event send_event)

  -- One stretch of the loop, from one point to the next.
  unfoldable pub pump : Point → M (Client W) Point
  unfolding handle_receive handle_sent
  pump (testing event send_event) = do
    s ← get
    pure (if s.is_connected then waiting event send_event else finished)
  pump (waiting event send_event) = do
    answer ← on_world (call (ws.wait (event ∷ send_event ∷ [])))
    after_wait event send_event answer
  pump finished = pure finished
