-- ===== src/Posix/Client/Queue.antt =====
-- client/posix/Client.cpp: `sendDataToServer`.
use c11http.Common.{
  ◌<◌, ◌≡◌, ◌≢◌, ◌⊎◌, inl, inr, refl, ◌∙◌, ap, List, [], ◌∷◌, ◌++◌, reverse, arith, Outcome, ok, M,
  pure, ◌>>◌,
}
use c11http.Callback.{Bytes}
use c11http.Messages.{joined, joined-reverse_cons}
use c11http.Posix.{Os, fd_add}
use c11http.Posix.Client.{Client, send_data_to_server}

module _ {W : Type 0} (os : Os W) where
  abbrev pub send_all : List Bytes → M (Client W) (Unit {0})
  send_all [] = pure tt
  send_all (m ∷ ms) = send_data_to_server os m >> send_all ms

  -- The fields that a send leaves alone, and its outcome.
  record Sent (s : Client W) (bytes : Bytes) (r : Outcome (Unit {0}) × Client W) : Type 0 where
    done : r.0 ≡ ok tt
    queue : r.1.outgoing_bytes ≡ bytes ++ s.outgoing_bytes
    told : r.1.env.log ≡ s.env.log
    linked : r.1.is_connected ≡ s.is_connected
    same : r.1.socket ≡ s.socket

  send_one :
      (s : Client W) (m : Bytes) → s.socket < os.fd_setsize → Sent s m (send_data_to_server os m s)
  unfolding send_data_to_server
  send_one s [] fits = ground arith
  send_one s (b ∷ m) fits = ground arith

  -- On a client whose socket is below FD_SETSIZE, messages that are sent one after another wait in the reverse of that order, before all that was
  -- waiting, each whole. Every send returns, and neither calls the callback nor connects or
  -- disconnects.
  pub send_all-reverse :
      (ms : List Bytes) (s : Client W)
      → s.socket < os.fd_setsize
      → let r = send_all ms s in
        (r.0 ≡ ok tt)
        × (r.1.outgoing_bytes ≡ joined (reverse ms) ++ s.outgoing_bytes)
        × (r.1.env.log ≡ s.env.log)
        × (r.1.is_connected ≡ s.is_connected)
  send_all-reverse [] s fits = (refl, refl, refl, refl)
  send_all-reverse (m ∷ ms) s fits =
      let one = send_one s m fits in
      let (a, b, c, d) = send_all-reverse ms (send_data_to_server os m s).1 (rw one.same fits) in
      rw one.done (
        a,
        b ∙ ap (◌++◌ (joined (reverse ms))) one.queue ∙ joined-reverse_cons m ms s.outgoing_bytes,
        c ∙ one.told,
        d ∙ one.linked,
      )

  -- A send marks the socket for writing and wakes the loop exactly if there is something to send;
  -- with nothing to send it changes nothing at all.
  pub send_data_to_server-marks :
      (m : Bytes) (s : Client W)
      → s.socket < os.fd_setsize
      → let t = (send_data_to_server os m s).1 in
        ((m ≡ []) × (t ≡ s))
        ⊎ ((m ≢ [])
            × (t.master_write ≡ fd_add s.socket s.master_write)
            × (t.env.world
                ≡ os.write s.wakeup_write (b'.' ∷ []) (os.poll_out s.wakeup_write s.env.world).1))
  unfolding send_data_to_server
  send_data_to_server-marks [] s fits = inl (refl, refl)
  send_data_to_server-marks (b ∷ m) s fits = inr ((λ e. cc), ground arith, ground arith)
