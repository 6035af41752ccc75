-- ===== src/Posix/Server/Construct.antt =====
-- server/posix/Server.cpp: what the constructor leaves, and the server from there on.
use c11http.Common.{
  ℕ, ◌≡◌, refl, Bool, Bool-cases, Option-cases, true, false, Option, some, List, [], inl, inr,
  Outcome, ok, throw, fault, or_raise,
}
use c11http.Posix.{Os, FdSet, Address}
use c11http.Posix.Descriptors.{Descriptors, make_non_blocking-Keeps}
use c11http.Posix.Socket.{new_socket, make_non_blocking}
use c11http.Posix.Server.{Server, new_server}
use c11http.Posix.Server.Shutdown.{Act}
use c11http.Posix.Server.Invariant.Runs.{RunsOn, from_start, run-RunsOn}

module _ {W : Type 0} (os : Os W) (opened : W → FdSet) (laws : Descriptors os opened) where
  -- What a constructor that returns leaves: a server with the callback that it was given, not shut
  -- down, whose listening socket is open.
  abbrev Listens : Bool → Outcome (Server W) × W → Type 0
  Listens cb (ok s, w) =
      (s.env.has_callback ≡ cb)
      × (s.has_been_shutdown ≡ false)
      × (opened s.env.world s.connect_socket ≡ true)
      × (s.env.log ≡ [])
  Listens cb (throw e, w) = Unit {0}
  Listens cb (fault, w) = ⊥

  pub new_server-Listens :
      (cb : Bool) (port : ℕ) (unset : FdSet) (w : W) → Listens cb (new_server os cb port unset w)
  unfolding new_server new_socket
  new_server-Listens cb port unset w = elim (Option-cases (os.socket w).0) [
    | inl none_made ↦ rw (none_made, or_raise) tt
    | inr (fd, made) ↦ elim (Bool-cases (reused fd).0) [
      | inr bad ↦ rw (made, bad) tt
      | inl good ↦ elim (Bool-cases (bound fd).0) [
        | inr bad ↦ rw (made, good, bad) tt
        | inl good' ↦ elim (Bool-cases (listening fd).0) [
          | inr bad ↦ rw (made, good, good', bad) tt
          | inl good'' ↦ elim (Option-cases (piped fd).0) [
            | inl none_made ↦ rw (made, good, good', good'', none_made) tt
            | inr (ends, both) ↦
                rw (made, good, good', good'', both) (refl, refl, still_open fd made, refl)
          ]
        ]
      ]
    ]
  ]
    where
      address : Address
      address = record { family = os.inet; port = os.htons port; host = os.any_host }

      reused : ℕ → Bool × W
      reused fd = os.reuse_address fd 0 (os.socket w).1

      bound : ℕ → Bool × W
      bound fd = os.bind fd address (reused fd).1

      listening : ℕ → Bool × W
      listening fd = os.listen fd 10 (bound fd).1

      piped : ℕ → Option (ℕ × ℕ) × W
      piped fd = os.pipe (make_non_blocking os fd (listening fd).1).1

      still_open : (fd : ℕ) → (os.socket w).0 ≡ some fd → opened (piped fd).1 fd ≡ true
      still_open fd made = laws.pipe_keeps _ fd (
          make_non_blocking-Keeps os opened laws fd _ fd (
            laws.listen_keeps fd 10 _ fd (
              laws.bind_keeps fd address _ fd
                (laws.reuse_address_keeps fd 0 _ fd (laws.socket_opens fd w made)))))

  -- A constructor that returns leaves a server of which every run is as it should be.
  abbrev pub RunsFromStart : List Act → Outcome (Server W) × W → Type 0
  RunsFromStart acts (ok s, w) = RunsOn os opened laws (from_start os opened laws acts s)
  RunsFromStart acts (throw e, w) = Unit {0}
  RunsFromStart acts (fault, w) = ⊥

  listening-RunsFromStart :
      (acts : List Act) (r : Outcome (Server W) × W) → Listens true r → RunsFromStart acts r
  listening-RunsFromStart acts (ok s, w) (cb, up, open_now, untold) =
      run-RunsOn os opened laws acts s cb up open_now untold
  listening-RunsFromStart acts (throw e, w) h = tt
  listening-RunsFromStart acts (fault, w) h = h

  -- A server with a callback, from its constructor on: if that does not throw, the server is Sound after
  -- every run of `waitForEvents` and of calls of `send`, `broadcast` and `shutdown` by other threads,
  -- in any order, also at an exception, unless the run has come to undefined behaviour. Sound means: the
  -- container holds live connections, each with an open descriptor of its own other than the listening
  -- one, the greatest of them is `fd_max`, each is watched for reading, every identifier that is mapped
  -- leads to a connection of that name, the listening socket is open while the server is not shut down,
  -- and what the callback has been told is a session in which the names of these connections are
  -- connected at the end. The system is one whose `socket` and
  -- `accept` answer with open descriptors, `accept` with new ones, and whose calls close no descriptor
  -- but that of a `close`.
  pub new_server-RunsFromStart :
      (acts : List Act) (port : ℕ) (unset : FdSet) (w : W)
      → RunsFromStart acts (new_server os true port unset w)
  new_server-RunsFromStart acts port unset w =
      listening-RunsFromStart acts (new_server os true port unset w)
        (new_server-Listens true port unset w)
