-- ===== src/Windows/Server/Invariant/Runs.antt =====
-- server/windows/Server.cpp: a stretch of the loop keeps what holds of a server.
use c11http.Common.{
  arith, fault, [], ◌∷◌, ℕ, ◌<◌, ◌≡◌, refl, Bool, true, false, List, Outcome, ok, throw, fault, not,
  ◌>>◌, ◌>>=◌, pure, demand, length, get_elem?, get_elem?-some, if◌then◌else◌, ◌==◌,
}
use c11http.Posix.{FdSet}
use c11http.Windows.{Winsock, Wait, wait_error, io_completion, signalled}
use c11http.Windows.Connections.{ServerConnection, rotate}
use c11http.Windows.Connections
use c11http.Windows.Connections.Rotation.{rotated, rotate-Represents, get_handle_array_lem}
use c11http.Windows.Server.{
  Server, Point, testing, entering, waiting, finished, in_store, add_new_connection,
  handle_connection, handle_event, after_wait, pump,
}
use c11http.Windows.Server.Events.{Events}
use c11http.Windows.Server.Invariant.{
  Sound, Kept, and_then-Kept, flagged-Sound, with_env-Sound, after_exception,
}
use c11http.Windows.Server.Invariant.Receiving.{handle_connection-Kept}
use c11http.Windows.Server.Invariant.Accepting.{add_new_connection-Kept}

module _ {W : Type 0} (ws : Winsock W) (opened : W → FdSet) (on_way : W → ℕ)
    (laws : Events ws opened on_way) where
  weakened :
      {A : Type 0} (r : Outcome A × Server W)
      → Kept ws opened on_way ⊥ true r
      → Kept ws opened on_way (Unit {0}) false r
  weakened (ok a, s) k = k
  weakened (throw e, s) k = after_exception ws opened on_way s k
  weakened (fault, s) k = tt

  branch-Kept :
      (b : Bool) (handle : ℕ) (s : Server W)
      → Sound ws opened on_way true s
      → Kept ws opened on_way
          (Unit {0})
          false
          ((if b then add_new_connection ws else handle_connection ws handle) s)
  branch-Kept true handle s h = add_new_connection-Kept ws opened on_way laws s h
  branch-Kept false handle s h =
      weakened _ (handle_connection-Kept ws opened on_way laws handle s h)

  handle_event-Kept :
      (handle : ℕ) (s : Server W)
      → Sound ws opened on_way true s
      → Kept ws opened on_way (Unit {0}) false (handle_event ws handle s)
  unfolding handle_event
  handle_event-Kept handle s h =
      branch-Kept (s.event == handle) handle _ (
        with_env-Sound ws opened on_way true s _ h (laws.reset_event_mild handle s.store.env.world))

  -- Behind a wait that has been answered by the place of a handle.
  signalled-Kept :
      (down : Bool) (handles : List ℕ) (i : ℕ) (s : Server W)
      → Sound ws opened on_way true s
      → i < length handles
      → Kept ws opened on_way (Unit {0}) false (
          (if down
              then (demand (get_elem? handles 0) >>= λ _. pure testing)
              else demand (get_elem? handles i) >>= λ handle.
                  handle_event ws handle >> pure testing)
            s)
  signalled-Kept true [] i s h below = absurd (omega arith)
  signalled-Kept true (k ∷ handles) i s h below = h
  signalled-Kept false handles i s h below =
      let (handle, there) = get_elem?-some handles i below in
      rw there (
        and_then-Kept ws opened on_way {B = Point} (Unit {0}) false (λ _. pure testing) _
          (handle_event-Kept handle s h) λ _ t k. k)

  after_wait-Kept :
      (handles : List ℕ) (answer : Wait) (s : Server W)
      → ((i : ℕ) → answer ≡ signalled i → i < length handles)
      → Sound ws opened on_way true s
      → Kept ws opened on_way (Unit {0}) false (after_wait ws handles answer s)
  after_wait-Kept handles wait_error s below h = after_exception ws opened on_way s h
  after_wait-Kept handles io_completion s below h = h
  after_wait-Kept handles (signalled i) s below h =
      signalled-Kept s.has_been_shutdown handles i s h (below i refl)

  -- The flag of a server in its loop, and the container in another order.
  tested-Sound :
      (s : Server W) (b : Bool)
      → Sound ws opened on_way true s
      → Sound ws opened on_way true (record s { waiting_for_events = b })
  tested-Sound s b h =
      flagged-Sound ws opened on_way true true s s.incoming_socket s.has_been_shutdown b h
        h.incoming

  rotated-Sound :
      (s : Server W)
      → Sound ws opened on_way true s
      → Sound ws opened on_way true (record s { store = rotated s.store })
  rotated-Sound s h = record {
    connections = rotate h.connections;
    represents = rotate-Represents s.store h.connections h.represents;
    allocated = h.allocated;
    events_open = h.events_open;
    separate = h.separate;
    own = h.own;
    owed = h.owed;
    incoming = h.incoming;
  }

  entered-Kept :
      (down : Bool) (s : Server W)
      → Sound ws opened on_way true s
      → Kept ws opened on_way
          (Unit {0})
          false
          ((if down then pure finished else pure (entering [])) s)
  entered-Kept true s h = h
  entered-Kept false s h = h

  asked-Kept :
      (down : Bool) (handles : List ℕ) (s : Server W)
      → Sound ws opened on_way true s
      → Kept ws opened on_way (Unit {0}) false (
          (if down
              then (demand (get_elem? handles 0) >>= λ _. pure testing)
              else in_store (Connections.get_handle_array s.event) >>= λ handles.
                  pure (waiting handles))
            s)
  asked-Kept true [] s h = tt
  asked-Kept true (k ∷ handles) s h = h
  asked-Kept false handles s h =
      rw (get_handle_array_lem s.event s.store h.connections h.represents) (rotated-Sound s h)

  pub pump-Kept :
      (p : Point) (s : Server W)
      → Sound ws opened on_way true s
      → Kept ws opened on_way (Unit {0}) false (pump ws p s)
  unfolding pump
  pump-Kept testing s h =
      entered-Kept s.has_been_shutdown _ (tested-Sound s (not s.has_been_shutdown) h)
  pump-Kept (entering handles) s h = asked-Kept s.has_been_shutdown handles s h
  pump-Kept (waiting handles) s h =
      let answer = ws.wait handles s.store.env.world in
      after_wait-Kept handles answer.0 _ (λ i e. laws.wait_in_range handles i s.store.env.world e)
        (with_env-Sound ws opened on_way true s (record s.store.env { world = answer.1 }) h
          (laws.wait_mild handles s.store.env.world))
  pump-Kept finished s h = h
