-- ===== src/Windows/Server/Invariant/Reach.antt =====
-- server/windows/Server.cpp: all that a server can come to, by its loop, by the completions of its
-- sends and receives, and by the calls of other threads.
use c11http.Common.{
  ℕ, suc, ◌≡◌, ◌≢◌, refl, subst, true, false, some, Outcome, ok, throw, fault, arith,
}
use c11http.Common.Pointers.{Fresh}
use c11http.Callback.{Bytes}
use c11http.Posix.{FdSet}
use c11http.Posix.Descriptors.{Keeps}
use c11http.Windows.{Winsock}
use c11http.Windows.Connections.{ServerConnection}
use c11http.Windows.Server.{
  Server, Point, testing, pump, send, broadcast, shutdown, add_connection, data_sent,
  client_data_ready,
}
use c11http.Windows.Server.Handling.{with_env}
use c11http.Windows.Server.Events.{Events}
use c11http.Windows.Server.Invariant.{Sound, Kept, with_env-Sound}
use c11http.Windows.Server.Invariant.Sending.{send-Kept, broadcast-Kept}
use c11http.Windows.Server.Invariant.Completing.{data_sent-Kept, client_data_ready-Kept}
use c11http.Windows.Server.Invariant.Calls.{shutdown-Kept, add_connection-Kept}
use c11http.Windows.Server.Invariant.Runs.{pump-Kept}

-- What another thread or the system does with a server: a call, the adding of a connection that is
-- accepted and not in the container, the completion of a send of a live connection, or a call of
-- `ClientDataReady` for a live connection.
pub data Act {W : Type 0} (opened : W → FdSet) (on_way : W → ℕ) (s : Server W) : Type 0 where
  sends : Bytes → Bytes → Act opened on_way s
  broadcasts : Bytes → Act opened on_way s
  shuts_down : Act opened on_way s
  adds :
      (p : ℕ) (c : ServerConnection) (i : Bytes)
      → s.store.cells p ≡ some c
      → Fresh p s.store.container
      → Act opened on_way s
  completes :
      (p count : ℕ) (c : ServerConnection) (w : W)
      → s.store.cells p ≡ some c
      → Keeps (opened s.store.env.world) (opened w)
      → suc (on_way w) ≡ on_way s.store.env.world
      → Act opened on_way s
  readies : (p : ℕ) (c : ServerConnection) → s.store.cells p ≡ some c → Act opened on_way s

module _ {W : Type 0} (ws : Winsock W) (opened : W → FdSet) (on_way : W → ℕ) where
  abbrev pub perform : (s : Server W) → Act opened on_way s → Outcome (Unit {0}) × Server W
  perform s (sends bytes i) = send ws bytes i s
  perform s (broadcasts bytes) = broadcast ws bytes s
  perform s shuts_down = shutdown ws s
  perform s (readies p c live) = client_data_ready ws p s
  perform s (adds p c i live fresh) = add_connection ws p i s
  perform s (completes p count c w live keeps fewer) =
      data_sent ws p count (with_env ws (record s.store.env { world = w }) s)

-- The server, from the start of its loop on: the loop goes on from one point to the next, and at each
-- point the others act. Their exceptions stay with them.
pub data Reached {W : Type 0} (ws : Winsock W) (opened : W → FdSet) (on_way : W → ℕ)
    (start : Server W) : Point → Server W → Type 0 where
  starts : Reached ws opened on_way start testing start
  pumped :
      {p q : Point} {s t : Server W}
      → Reached ws opened on_way start p s
      → pump ws p s ≡ (ok q, t)
      → Reached ws opened on_way start q t
  performed :
      {p : Point} {s t : Server W} {o : Outcome (Unit {0})}
      → Reached ws opened on_way start p s
      → (a : Act opened on_way s) → perform ws opened on_way s a ≡ (o, t)
      → o ≢ fault
      → Reached ws opened on_way start p t

module _ {W : Type 0} (ws : Winsock W) (opened : W → FdSet) (on_way : W → ℕ)
    (laws : Events ws opened on_way) where
  -- What undefined behaviour says of an act: that it is a `broadcast`.
  abbrev pub Risk : {s : Server W} → Act opened on_way s → Type 0
  Risk (broadcasts bytes) = Unit {0}
  Risk (sends bytes i) = ⊥
  Risk shuts_down = ⊥
  Risk (readies p c live) = ⊥
  Risk (adds p c i live fresh) = ⊥
  Risk (completes p count c w live keeps fewer) = ⊥

  pub perform-Kept :
      (s : Server W) (a : Act opened on_way s)
      → Sound ws opened on_way true s
      → Kept ws opened on_way (Risk a) true (perform ws opened on_way s a)
  perform-Kept s (sends bytes i) h = send-Kept ws opened on_way laws bytes i s h
  perform-Kept s (broadcasts bytes) h = broadcast-Kept ws opened on_way laws bytes s h
  perform-Kept s shuts_down h = shutdown-Kept ws opened on_way laws s h
  perform-Kept s (readies p c live) h = client_data_ready-Kept ws opened on_way laws p c s h live
  perform-Kept s (adds p c i live fresh) h =
      add_connection-Kept ws opened on_way laws p c i s h live fresh
  perform-Kept s (completes p count c w live keeps fewer) h =
      data_sent-Kept ws opened on_way laws p count c _
        (with_env-Sound ws opened on_way true s (record s.store.env { world = w }) h
          (keeps, omega arith))
        live (omega (arith, h.owed))

  -- No undefined behaviour, but for a `broadcast`, of which nothing is said.
  abbrev pub Safe : {s : Server W} → Act opened on_way s → Outcome (Unit {0}) × Server W → Type 0
  Safe (broadcasts bytes) r = Unit {0}
  Safe (sends bytes i) r = r.0 ≢ fault
  Safe shuts_down r = r.0 ≢ fault
  Safe (readies p c live) r = r.0 ≢ fault
  Safe (adds p c i live fresh) r = r.0 ≢ fault
  Safe (completes p count c w live keeps fewer) r = r.0 ≢ fault

  never_faults : (r : Outcome (Unit {0}) × Server W) → Kept ws opened on_way ⊥ true r → r.0 ≢ fault
  never_faults (ok a, s) k e = absurd (ground arith)
  never_faults (throw x, s) k e = absurd (ground arith)
  never_faults (fault, s) k e = k

  pub Kept-Safe :
      {s : Server W} (a : Act opened on_way s) (r : Outcome (Unit {0}) × Server W)
      → Kept ws opened on_way (Risk a) true r
      → Safe a r
  Kept-Safe (broadcasts bytes) r k = tt
  Kept-Safe (sends bytes i) r k = never_faults r k
  Kept-Safe shuts_down r k = never_faults r k
  Kept-Safe (readies p c live) r k = never_faults r k
  Kept-Safe (adds p c i live fresh) r k = never_faults r k
  Kept-Safe (completes p count c w live keeps fewer) r k = never_faults r k

  -- What holds of a server at the start of its loop holds wherever it comes.
  pub Reached-Sound :
      {start t : Server W} {p : Point}
      → Sound ws opened on_way true start
      → Reached ws opened on_way start p t
      → Sound ws opened on_way true t
  Reached-Sound h starts = h
  Reached-Sound h (pumped {p} {q} {s} {t} before e) =
      subst (Kept ws opened on_way (Unit {0}) false) e
        (pump-Kept ws opened on_way laws p s (Reached-Sound h before))
  Reached-Sound h (performed {p} {s} {t} {o} before a e fine) =
      returned (Risk a) o t fine
        (subst (Kept ws opened on_way (Risk a) true) e (perform-Kept s a (Reached-Sound h before)))
    where
      returned :
          (Undefined : Type 0) (o : Outcome (Unit {0})) (t : Server W)
          → o ≢ fault
          → Kept ws opened on_way Undefined true (o, t)
          → Sound ws opened on_way true t
      returned Undefined (ok a) t fine k = k
      returned Undefined (throw x) t fine k = k
      returned Undefined fault t fine k = absurd (fine refl)
