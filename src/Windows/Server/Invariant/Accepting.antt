-- ===== src/Windows/Server/Invariant/Accepting.antt =====
-- server/windows/Server.cpp: a new connection, and the socket for the next one, keep what holds of the
-- server.
use c11http.Common.{
  ℕ, ◌≡◌, refl, Bool-cases, true, false, Option, Option-cases, none, some, inl, inr, arith, demand,
  throw_if, prepare_receive_failed, call, modify, ◌>>◌, ◌>>=◌, M,
}
use c11http.Posix.{FdSet, in_world}
use c11http.Windows.{Winsock}
use c11http.Windows.Socket.{new_socket, create_overlap, construct_overlap}
use c11http.Windows.Connections.{ServerConnection, deref, new_connection}
use c11http.Windows.Server.{
  Server, in_store, in_env, effect, fails, prepare_for_server_connection, add_new_connection,
}
use c11http.Windows.Server.Events.{Mild, Mild-trans, Events}
use c11http.Windows.Server.Invariant.{Sound, Kept, flagged-Sound, with_env-Sound, after_exception}
use c11http.Windows.Server.Invariant.Creating.{object, created-Sound}

module _ {W : Type 0} (ws : Winsock W) (opened : W → FdSet) (on_way : W → ℕ)
    (laws : Events ws opened on_way) where
  with_incoming :
      (s : Server W) (fd : ℕ)
      → Sound ws opened on_way false s
      → Sound ws opened on_way true (record s { incoming_socket = some fd })
  with_incoming s fd h =
      flagged-Sound ws opened on_way false true s (some fd) s.has_been_shutdown s.waiting_for_events
        h (λ e. (fd, refl))

  without_incoming :
      (s : Server W)
      → Sound ws opened on_way false s
      → Sound ws opened on_way false (record s { incoming_socket = none })
  without_incoming s h =
      flagged-Sound ws opened on_way false false s none s.has_been_shutdown s.waiting_for_events h
        (λ e. absurd (ground arith))

  pub prepare-Kept :
      (s : Server W)
      → Sound ws opened on_way false s
      → Kept ws opened on_way (Unit {0}) false (prepare_for_server_connection ws s)
  unfolding prepare_for_server_connection new_socket
  prepare-Kept s h =
      let w = s.store.env.world in
      let w1 = (ws.socket w).1 in
      let at = λ (v : W) (m : Mild opened on_way w v).
        with_env-Sound ws opened on_way false s (record s.store.env { world = v }) h m in
      elim (Option-cases (ws.socket w).0) [
        | inl none_made ↦ rw none_made (at w1 (laws.socket_mild w))
        | inr (fd, made) ↦
            let w2 = ws.no_send_buffer fd w1 in
            let m2 =
              Mild-trans opened on_way w w1 w2 (laws.socket_mild w)
                (laws.no_send_buffer_mild fd w1) in
            let asked = ws.accept_ex_pointer s.server_socket w2 in
            let m3 =
              Mild-trans opened on_way w w2 asked.1 m2 (laws.pointer_mild s.server_socket w2) in
            let tried = ws.accept_ex s.server_socket fd s.event asked.1 in
            let m4 =
              Mild-trans opened on_way w asked.1 tried.1 m3
                (laws.accept_ex_mild s.server_socket fd s.event asked.1) in
            elim (Bool-cases asked.0) [
              | inr bad ↦
                  rw (made, bad)
                    (after_exception ws opened on_way _ (with_incoming _ fd (at asked.1 m3)))
              | inl good ↦ elim (Bool-cases (fails tried.0)) [
                | inl bad ↦
                    rw (made, good, bad)
                      (after_exception ws opened on_way _ (with_incoming _ fd (at tried.1 m4)))
                | inr fine ↦ rw (made, good, fine) (with_incoming _ fd (at tried.1 m4))
              ]
            ]
      ]

  -- The first receive of the new connection, and the socket for the next.
  abbrev first_receive : ℕ → M (Server W) (Unit {0})
  first_receive p = in_store (deref p) >>= λ c.
      in_env (in_world (call (ws.recv c.socket c.event))) >>= λ io.
      throw_if (fails io) prepare_receive_failed >> prepare_for_server_connection ws

  first_receive-Kept :
      (p : ℕ) (c : ServerConnection) (s : Server W)
      → Sound ws opened on_way false s
      → s.store.cells p ≡ some c
      → Kept ws opened on_way (Unit {0}) false (first_receive p s)
  first_receive-Kept p c s h live =
      let queued = ws.recv c.socket c.event s.store.env.world in
      let sound =
        with_env-Sound ws opened on_way false s (record s.store.env { world = queued.1 }) h
          (laws.recv_mild c.socket c.event s.store.env.world) in
      elim (Bool-cases (fails queued.0)) [
        | inl bad ↦ rw (live, bad) sound
        | inr good ↦ rw (live, good) (prepare-Kept _ sound)
      ]

  abbrev accept_on : ℕ → M (Server W) (Unit {0})
  accept_on fd =
      effect (ws.update_accept_context fd)
      >> (in_store (new_connection ws fd) >>= λ p.
          modify (λ s. record s { incoming_socket = none }) >> first_receive p)

  accept_on-Kept :
      (fd : ℕ) (s : Server W)
      → Sound ws opened on_way false s
      → Kept ws opened on_way (Unit {0}) false (accept_on fd s)
  unfolding new_connection create_overlap construct_overlap
  accept_on-Kept fd s h =
      let w = s.store.env.world in
      let w1 = ws.update_accept_context fd w in
      let w2 = (ws.heap_alloc w1).1 in
      let m2 = Mild-trans opened on_way w w1 w2 (laws.update_mild fd w) (laws.heap_alloc_mild w1) in
      let at = λ (v : W) (m : Mild opened on_way w v).
        with_env-Sound ws opened on_way false s (record s.store.env { world = v }) h m in
      elim (Bool-cases (ws.heap_alloc w1).0) [
        | inr bad ↦ rw bad tt
        | inl good ↦ elim (Option-cases (ws.create_event w2).0) [
          | inl none_made ↦ rw (good, none_made) tt
          | inr (e, made) ↦
              rw (good, made)
                (first_receive-Kept s.store.next_cell (object ws opened on_way laws fd e) _
                  (without_incoming _ (created-Sound ws opened on_way laws _ fd e (at w2 m2) made))
                  (ground arith))
        ]
      ]

  by_socket :
      (o : Option ℕ) (s : Server W)
      → ((fd : ℕ) × (o ≡ some fd))
      → Sound ws opened on_way true s
      → Kept ws opened on_way (Unit {0}) false ((demand o >>= accept_on) s)
  by_socket none s (fd, e) h = absurd (ground arith)
  by_socket (some fd) s found h = accept_on-Kept fd s (after_exception ws opened on_way s h)

  pub add_new_connection-Kept :
      (s : Server W)
      → Sound ws opened on_way true s
      → Kept ws opened on_way (Unit {0}) false (add_new_connection ws s)
  unfolding add_new_connection
  add_new_connection-Kept s h = by_socket s.incoming_socket s (h.incoming refl) h
