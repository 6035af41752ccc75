-- ===== src/Windows/Server/Invariant/Start.antt =====
-- server/windows/Server.cpp: what the constructor leaves, and the server from there on.
use c11http.Common.{
  ℕ, ◌≤◌, ◌≡◌, subst, Bool, Bool-cases, Option-cases, true, false, not, Option, none, some, [],
  Outcome, ok, throw, fault, inl, inr, arith, M, Error, and_then, get, modify, pure, throw_if, when,
  ◌>>=◌, ◌>>◌, listen_failed,
}
use c11http.Common.Assoc.{find}
use c11http.Posix.{FdSet}
use c11http.Windows.{Winsock}
use c11http.Windows.Socket.{new_socket, create_overlap, construct_overlap}
use c11http.Windows.Server.{Server, Point, prepare_for_server_connection}
use c11http.Windows.Server.Construct.{
  address_of, create_server_socket, constructed, unwound, empty_store, new_server,
}
use c11http.Windows.Server.Events.{Mild, Mild-trans, Events}
use c11http.Windows.Server.Invariant.{Sound, Kept}
use c11http.Windows.Server.Invariant.Accepting.{prepare-Kept}
use c11http.Windows.Server.Invariant.Reach.{
  Act, perform, Reached, Reached-Sound, perform-Kept, Safe, Kept-Safe,
}

module _ {W : Type 0} (ws : Winsock W) (opened : W → FdSet) (on_way : W → ℕ)
    (laws : Events ws opened on_way) where
  -- A call that returns was mild, and it has no undefined behaviour.
  abbrev MildOk {ℓ} : {A : Type ℓ} → W → Outcome A × W → Type 0
  MildOk w (ok a, v) = Mild opened on_way w v
  MildOk w (throw e, v) = Unit {0}
  MildOk w (fault, v) = ⊥

  and_then-MildOk {ℓ κ} :
      {A : Type ℓ} {B : Type κ} (w : W) (f : A → M W B) (r : Outcome A × W)
      → MildOk w r
      → ((a : A) (v : W) → Mild opened on_way w v → MildOk w (f a v))
      → MildOk w (and_then f r)
  and_then-MildOk w f (ok a, v) h k = k a v h
  and_then-MildOk w f (throw e, v) h k = h
  and_then-MildOk w f (fault, v) h k = h

  address_of-MildOk :
      (w v : W) (o : Option ℕ) → Mild opened on_way w v → MildOk w (address_of ws o v)
  address_of-MildOk w v none h = tt
  address_of-MildOk w v (some a) h = h

  new_socket-MildOk : (w v : W) → Mild opened on_way w v → MildOk w (new_socket ws v)
  unfolding new_socket
  new_socket-MildOk w v h = elim (Option-cases (ws.socket v).0) [
    | inl none_made ↦ rw none_made tt
    | inr (fd, made) ↦ rw made (
        Mild-trans opened on_way w v _ h (
          Mild-trans opened on_way v (ws.socket v).1 _ (laws.socket_mild v)
            (laws.no_send_buffer_mild fd (ws.socket v).1)))
  ]

  bound-MildOk :
      (w v : W) (b : Bool) (e : Error) → Mild opened on_way w v → MildOk w (throw_if (not b) e v)
  bound-MildOk w v true e h = h
  bound-MildOk w v false e h = tt

  listened-MildOk :
      (w v : W) (b : Bool) (fd : ℕ)
      → Mild opened on_way w v
      → MildOk w (
          (when (not b) (modify (λ w. ws.cleanup (ws.close_socket fd w)))
              >> (throw_if (not b) listen_failed >> pure fd))
            v)
  listened-MildOk w v true fd h = h
  listened-MildOk w v false fd h = tt

  create_server_socket-MildOk : (port : ℕ) (w : W) → MildOk w (create_server_socket ws port w)
  unfolding create_server_socket
  create_server_socket-MildOk port w =
      and_then-MildOk w _ _
        (address_of-MildOk w _ (ws.get_addr_info port w).0 (laws.get_addr_info_mild port w))
        λ address v g. and_then-MildOk w _ _ (new_socket-MildOk w v g) λ fd u h.
          let bound = ws.bind fd address u in
          let m = Mild-trans opened on_way w u _ h (
            Mild-trans opened on_way u bound.1 (ws.free_addr_info bound.1)
              (laws.bind_mild fd address u) (laws.free_addr_info_mild bound.1)) in
          and_then-MildOk w _ _ (bound-MildOk w _ bound.0 _ m) λ _ x k.
            let listening = ws.listen fd 5 x in
            listened-MildOk w listening.1 listening.0 fd
              (Mild-trans opened on_way w x listening.1 k (laws.listen_mild fd 5 x))

  abbrev initial : Bool → ℕ → ℕ → W → Server W
  initial has_callback event fd w = record {
    store = empty_store ws has_callback w;
    event = event;
    server_socket = fd;
    incoming_socket = none;
    targets = [];
    has_been_shutdown = false;
    waiting_for_events = false;
  }

  initial-Sound :
      (has_callback : Bool) (event fd : ℕ) (w : W)
      → opened w event ≡ true
      → on_way w ≤ 0
      → Sound ws opened on_way false (initial has_callback event fd w)
  unfolding find
  initial-Sound has_callback event fd w own calm = record {
    connections = [];
    represents = record {
      owns = tt;
      pointers = tt;
      handles = tt;
      mapped = λ i p e. absurd (ground arith);
    };
    allocated = λ p c live. absurd (ground arith);
    events_open = λ p c live. absurd (ground arith);
    separate = λ p q c d live live' e. absurd (ground arith);
    own = own;
    owed = calm;
    incoming = λ e. absurd (ground arith);
  }

  -- What a constructor that returns leaves.
  abbrev Built : Outcome (Server W) × W → Type 0
  Built (ok s, w) = Sound ws opened on_way true s
  Built (throw e, w) = Unit {0}
  Built (fault, w) = Unit {0}

  constructed-Built :
      (r : Outcome (Unit {0}) × Server W) (w : W)
      → Kept ws opened on_way (Unit {0}) false r
      → Built (constructed ws r w)
  constructed-Built (ok _, s) w k = k
  constructed-Built (throw e, s) w k = tt
  constructed-Built (fault, s) w k = tt

  unwound-Built : (event : ℕ) (r : Outcome (Server W) × W) → Built r → Built (unwound ws event r)
  unwound-Built event (ok s, w) b = b
  unwound-Built event (throw e, w) b = tt
  unwound-Built event (fault, w) b = tt

  listening-Built :
      (has_callback : Bool) (event : ℕ) (w : W) (r : Outcome ℕ × W)
      → opened w event ≡ true
      → on_way w ≤ 0
      → MildOk w r
      → Built (
          unwound ws event (
            and_then
              (λ fd. get >>= λ world.
                constructed ws
                  (prepare_for_server_connection ws (initial has_callback event fd world)))
              r))
  listening-Built has_callback event w (ok fd, v) own calm (keeps, fewer) = unwound-Built event _ (
      constructed-Built _ v (
        prepare-Kept ws opened on_way laws (initial has_callback event fd v)
          (initial-Sound has_callback event fd v (keeps event own) (omega arith))))
  listening-Built has_callback event w (throw e, v) own calm m = tt
  listening-Built has_callback event w (fault, v) own calm m = tt

  new_server-Built :
      (has_callback : Bool) (port : ℕ) (w : W)
      → on_way w ≡ 0
      → Built (new_server ws has_callback port w)
  unfolding new_server create_overlap construct_overlap
  new_server-Built has_callback port w none_yet =
      let w1 = (ws.startup w).1 in
      let w2 = (ws.heap_alloc w1).1 in
      let w3 = (ws.create_event w2).1 in
      elim (Bool-cases (ws.startup w).0) [
        | inr bad ↦ rw bad tt
        | inl up ↦ elim (Bool-cases (ws.heap_alloc w1).0) [
          | inr bad ↦ rw (up, bad) tt
          | inl good ↦ elim (Option-cases (ws.create_event w2).0) [
            | inl none_made ↦ rw (up, good, none_made) tt
            | inr (e, made) ↦
                rw (up, good, made)
                  (listening-Built has_callback e w3 (create_server_socket ws port w3)
                    (laws.create_event_new e w2 made).1
                    (omega (
                      arith,
                      (laws.startup_mild w).1,
                      (laws.heap_alloc_mild w1).1,
                      (laws.create_event_mild w2).1,
                    ))
                    (create_server_socket-MildOk port w3))
          ]
        ]
      ]

  -- A server from its constructor on, at any point of its loop and after any acts of the completion
  -- routines and of other threads that have no undefined behaviour, exceptions of theirs included: the
  -- server is Sound there, and an act other than `broadcast` has no undefined behaviour there (of
  -- `broadcast`, that is not said). Sound means: the
  -- container holds live connections, every identifier that is mapped leads to one of them of that
  -- name, each ServerConnection has an open event of its own other than the server's, there is a socket
  -- for the next connection, and there are at least as many targets as sends on their way. The acts are
  -- `send` by identifier, `broadcast`, `shutdown`, `addConnection` with a live connection that is not in
  -- the container, and the completion of a send of a live connection or `ClientDataReady` for one; they
  -- come at the tests of the two loops and in the wait. When the constructor is called, no send is on
  -- its way. The system is one whose new events were not open, whose calls close no event but that of a
  -- `WSACloseEvent`, whose wait answers with one of its handles, and in which only `WSASend` puts a
  -- send on its way, one at most.
  pub new_server-Reached :
      (has_callback : Bool) (port : ℕ) (w v : W) (s t : Server W) (p : Point)
      → on_way w ≡ 0
      → new_server ws has_callback port w ≡ (ok s, v)
      → Reached ws opened on_way s p t
      → (a : Act opened on_way t)
      → Sound ws opened on_way true t × Safe ws opened on_way laws a (perform ws opened on_way t a)
  new_server-Reached has_callback port w v s t p none_yet built reached a =
      let start = subst Built built (new_server-Built has_callback port w none_yet) in
      let sound = Reached-Sound ws opened on_way laws start reached in
      (sound, Kept-Safe ws opened on_way laws a _ (perform-Kept ws opened on_way laws t a sound))
