-- ===== src/Windows/Server/Invariant/Completing.antt =====
-- server/windows/Server.cpp: the completion routines of a send and of a receive keep what holds of the server.
use c11http.Common.{
  ℕ, ◌<◌, ◌≡◌, Bool, true, false, not, some, List, [], ◌∷◌, arith, M, ◌>>◌, ◌>>=◌, length, when,
}
use c11http.Callback.{Bytes, send_complete, receive_unnamed}
use c11http.Posix.{FdSet, notify_if}
use c11http.Windows.{Winsock}
use c11http.Windows.Connections.{ServerConnection}
use c11http.Windows.Server.{Server, in_env, effect, pop_target, data_sent, client_data_ready}
use c11http.Windows.Server.Events.{Events}
use c11http.Windows.Server.Invariant.{Sound, Kept, and_then-Kept}
use c11http.Windows.Server.Invariant.Receiving.{queue_receive-Kept}
use c11http.Windows.Server.Invariant.Sending.{retargeted, notified-Sound}

module _ {W : Type 0} (ws : Winsock W) (opened : W → FdSet) (on_way : W → ℕ)
    (laws : Events ws opened on_way) where
  pub client_data_ready-Kept :
      (p : ℕ) (c : ServerConnection) (s : Server W)
      → Sound ws opened on_way true s
      → s.store.cells p ≡ some c
      → Kept ws opened on_way ⊥ true (client_data_ready ws p s)
  unfolding client_data_ready
  client_data_ready-Kept p c s h live =
      and_then-Kept ws opened on_way ⊥ true _ _
        (queue_receive-Kept ws opened on_way laws p c s h live)
        λ _ t k. notified-Sound ws opened on_way laws (receive_unnamed []) t k

  -- The completion of a send for a server that is not shut down, or is.
  abbrev report_target : ServerConnection → ℕ → List Bytes → M (Server W) (Unit {0})
  report_target c count ts = pop_target ws ts >>= λ target.
      effect (ws.reset_event c.event) >> in_env (notify_if (send_complete target count))

  report_target-Kept :
      (c : ServerConnection) (count : ℕ) (ts : List Bytes) (s : Server W)
      → Sound ws opened on_way true s
      → on_way s.store.env.world < length ts
      → Kept ws opened on_way ⊥ true (report_target c count ts s)
  report_target-Kept c count [] s h more = absurd (omega arith)
  report_target-Kept c count (t ∷ ts) s h more =
      let (keeps, calm) = laws.reset_event_mild c.event s.store.env.world in
      notified-Sound ws opened on_way laws (send_complete t count) _ (
        retargeted ws opened on_way laws s (ws.reset_event c.event s.store.env.world) ts h keeps
          (omega (arith, more, calm)))

  when-Kept :
      (b : Bool) (m : M (Server W) (Unit {0})) (s : Server W)
      → Sound ws opened on_way true s
      → Kept ws opened on_way ⊥ true (m s)
      → Kept ws opened on_way ⊥ true (when (not b) m s)
  when-Kept true m s h k = h
  when-Kept false m s h k = k

  pub data_sent-Kept :
      (p count : ℕ) (c : ServerConnection) (s : Server W)
      → Sound ws opened on_way true s
      → s.store.cells p ≡ some c
      → on_way s.store.env.world < length s.targets
      → Kept ws opened on_way ⊥ true (data_sent ws p count s)
  unfolding data_sent
  data_sent-Kept p count c s h live more = rw live (
      when-Kept s.has_been_shutdown (report_target c count s.targets) s h
        (report_target-Kept c count s.targets s h more))
