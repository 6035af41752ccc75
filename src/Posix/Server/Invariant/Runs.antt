-- ===== src/Posix/Server/Invariant/Runs.antt =====
-- server/posix/Server.cpp: what holds of a server through any run of its loop, from its start.
use c11http.Common.{
  inl, inr, ltb, Bool-cases, M, ◌>>=◌, ℕ, zero, suc, ◌+◌, ◌≡◌, refl, sym, subst, Bool, true, false,
  Option, none, some, List, [], arith, Outcome, ok, throw, fault, M, ◌==◌, if◌then◌else◌, ◌>>=◌,
  ◌>>◌, pure, when, get, beside, schedule-keeps, or_raise, select_failed,
}
use c11http.Common.Assoc.{find}
use c11http.Callback.Sessions.{Session, start}
use c11http.Posix.{Os, FdSet}
use c11http.Posix.Descriptors.{Descriptors}
use c11http.Posix.Server.{Server, Point, testing, selecting, finished}
use c11http.Posix.Server.Loop.{
  handle_server_connection, handle_new_connection, handle_fd, handle_from, pump, started,
  start_waiting,
}
use c11http.Posix.Server.Shutdown.{Act, pumps, sends, broadcasts, shuts_down, act, run}
use c11http.Posix.Server.Invariant.{Sound, Kept, and_then-Kept, with_env-Sound}
use c11http.Posix.Server.Invariant.Clients.{handle_server_connection-Kept}
use c11http.Posix.Server.Invariant.Handlers.{
  handle_new_connection-Kept, handle_write-Kept, read_wakeup-Kept,
}
use c11http.Posix.Server.Invariant.Calls.{broadcast-Kept, send-Kept, shutdown-Kept}

module _ {W : Type 0} (os : Os W) (opened : W → FdSet) (laws : Descriptors os opened) where
  when-Kept :
      (b : Bool) (m : M (Server W) (Unit {0})) (s : Server W)
      → Sound os opened false s
      → ((s : Server W) → Sound os opened false s → Kept os opened false (m s))
      → Kept os opened false (when b m s)
  when-Kept true m s h k = k s h
  when-Kept false m s h k = h

  ready-Kept :
      (b : Bool) (i : ℕ) (s : Server W)
      → Sound os opened false s
      → Kept os opened false
          ((if b then handle_new_connection os else handle_server_connection os i) s)
  ready-Kept true i s h = handle_new_connection-Kept os opened laws s h
  ready-Kept false i s h = handle_server_connection-Kept os opened laws i s h

  handle_fd-Kept :
      (i : ℕ) (r v : FdSet) (s : Server W)
      → Sound os opened false s
      → Kept os opened false (handle_fd os i r v s)
  unfolding handle_fd
  handle_fd-Kept i r v s h =
      and_then-Kept os opened false _ _
        (when-Kept (r i) _ s h (λ t k. ready-Kept (i == s.connect_socket) i t k))
        λ _ t k.
          and_then-Kept os opened false _ _
            (when-Kept (r s.wakeup_read) _ t k (read_wakeup-Kept os opened laws))
            λ _ u l. when-Kept (v i) _ u l (handle_write-Kept os opened laws i)

  handle_from-Kept :
      (n i : ℕ) (r v : FdSet) (s : Server W)
      → Sound os opened false s
      → Kept os opened false (handle_from os n i r v s)
  unfolding handle_from
  handle_from-Kept zero i r v s h = h
  handle_from-Kept (suc n) i r v s h =
      and_then-Kept os opened false _ _ (handle_fd-Kept i r v s h)
        λ _ t k. handle_from-Kept n (i + 1) r v t k

  -- Behind the return of `select`, for a value of the flag.
  after_flag-Kept :
      (down b : Bool) (top : ℕ) (r v : FdSet) (s : Server W)
      → b ≡ down
      → Sound os opened down s
      → Kept os opened down
          ((if b then pure finished else handle_from os (top + 1) 0 r v >> pure testing) s)
  after_flag-Kept down true top r v s e h = h
  after_flag-Kept true false top r v s e h = absurd (ground arith)
  after_flag-Kept false false top r v s e h =
      and_then-Kept os opened {B = Point} false (λ _. pure testing) _
        (handle_from-Kept (top + 1) 0 r v s h) λ _ t k. k

  -- Behind the return of `select`.
  after_select-Kept :
      (down : Bool) (top : ℕ) (sets : Option (FdSet × FdSet)) (s : Server W)
      → Sound os opened down s
      → Kept os opened down (
          (or_raise sets select_failed >>= λ (x : FdSet × FdSet). get >>= λ s.
          if s.has_been_shutdown
          then pure finished
          else handle_from os (top + 1) 0 x.0 x.1 >> pure testing)
            s)
  after_select-Kept down top none s h = h
  after_select-Kept down top (some (r, v)) s h =
      after_flag-Kept down s.has_been_shutdown top r v s h.flag h

  pump-Kept :
      (down : Bool) (p : Point) (s : Server W)
      → Sound os opened down s
      → Kept os opened down (pump os p s)
  unfolding pump
  pump-Kept down testing s h = h
  pump-Kept down (selecting top r v) s h =
      let asked = os.select (top + 1) r v s.env.world in
      after_select-Kept down top asked.0 _ (
        with_env-Sound os opened down s (record s.env { world = asked.1 }) h
          (laws.select_keeps (top + 1) r v s.env.world) h.heard h.session)
  pump-Kept down finished s h = h

  -- What holds at the end of a run, for a server that is shut down by then or not.
  abbrev pub RunsOn : Outcome Point × Server W → Type 0
  RunsOn (ok p, s) = (down : Bool) × Sound os opened down s
  RunsOn (throw e, s) = (down : Bool) × Sound os opened down s
  RunsOn (fault, s) = Unit {0}

  Kept-RunsOn : (down : Bool) (r : Outcome Point × Server W) → Kept os opened down r → RunsOn r
  Kept-RunsOn down (ok p, s) k = (down, k)
  Kept-RunsOn down (throw e, s) k = (down, k)
  Kept-RunsOn down (fault, s) k = k

  beside-RunsOn :
      (down : Bool) (p : Point) (r : Outcome (Unit {0}) × Server W)
      → Kept os opened down r
      → RunsOn (beside p r)
  beside-RunsOn down p (ok _, s) k = (down, k)
  beside-RunsOn down p (throw e, s) k = (down, k)
  beside-RunsOn down p (fault, s) k = k

  act-RunsOn : (a : Act) (p : Point) (s : Server W) → RunsOn (ok p, s) → RunsOn (act os a p s)
  act-RunsOn pumps p s (down, h) = Kept-RunsOn down (pump os p s) (pump-Kept down p s h)
  act-RunsOn (sends bytes i) p s (down, h) =
      beside-RunsOn down p _ (send-Kept os opened laws down bytes i s h)
  act-RunsOn (broadcasts bytes) p s (down, h) =
      beside-RunsOn down p _ (broadcast-Kept os opened laws down bytes s h)
  act-RunsOn shuts_down p s (down, h) =
      beside-RunsOn true p _ (shutdown-Kept os opened laws down s h)

  started-Sound :
      (s : Server W)
      → s.env.has_callback ≡ true
      → s.has_been_shutdown ≡ false
      → opened s.env.world s.connect_socket ≡ true
      → s.env.log ≡ []
      → Sound os opened false (started s)
  unfolding find
  started-Sound s cb up listens untold = record {
    connections = [];
    represents = record {
      owns = tt;
      pointers = tt;
      descriptors = tt;
      allocated = tt;
      maximum = refl;
      readable = tt;
      mapped = λ i p e. absurd (ground arith);
    };
    all_open = tt;
    apart = tt;
    listening = λ _. listens;
    made = refl;
    heard = cb;
    flag = up;
    session = subst (Session []) (sym untold) start;
  }

  -- `waitForEvents` with what comes up to it.
  abbrev pub from_start : List Act → M (Server W) Point
  from_start acts = start_waiting os >>= λ _. run os acts testing

  -- From the start of its loop on, a server with a callback and an open listening socket is Sound after
  -- every run of the loop and of calls of other threads, also at an exception, unless the run has come to
  -- undefined behaviour.
  pub run-RunsOn :
      (acts : List Act) (s : Server W)
      → s.env.has_callback ≡ true
      → s.has_been_shutdown ≡ false
      → opened s.env.world s.connect_socket ≡ true
      → s.env.log ≡ []
      → RunsOn (from_start acts s)
  unfolding start_waiting
  run-RunsOn acts s cb up listens untold = elim (Bool-cases (ltb s.wakeup_read os.fd_setsize)) [
    | inr beyond ↦ rw beyond tt
    | inl fits ↦ elim (Bool-cases (ltb s.connect_socket os.fd_setsize)) [
      | inr beyond ↦ rw (fits, beyond) tt
      | inl fits' ↦
          rw (fits, fits')
            (schedule-keeps RunsOn (act os) act-RunsOn acts testing (started s)
              (false, started-Sound s cb up listens untold))
    ]
  ]
