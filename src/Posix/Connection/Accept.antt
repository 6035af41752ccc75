-- ===== src/Posix/Connection/Accept.antt =====
-- ServerConnection.cpp: the constructor, which accepts a connection and waits for its identifier.
use c11http.Common.{
  ℕ, ◌≡◌, ◌≢◌, refl, Bool, true, false, Option, none, some, [], ◌∷◌, Outcome, ok, throw, or_raise,
  accept_failed, poll_failed, recv_failed, remote_closing, Option-cases, Bool-cases, inl, inr,
}
use c11http.Callback.{Bytes}
use c11http.Posix.{Os, max_buffer_size}
use c11http.Posix.Socket.{make_non_blocking}
use c11http.Posix.Connection.{ServerConnection, received, accept_connection, ack}

module _ {W : Type 0} (os : Os W) (server : ℕ) (w : W) where
  -- The states of the system after the accept, the setting of the flags, the acknowledgement and the
  -- poll for descriptor `fd`, and what the receive then answers.
  abbrev accepted : W
  accepted = (os.accept server w).1

  abbrev set_up : ℕ → W
  set_up fd = (make_non_blocking os fd accepted).1

  abbrev acknowledged : ℕ → W
  acknowledged fd = (os.send fd ack (set_up fd)).1

  abbrev polled : ℕ → Bool × W
  polled fd = os.poll_in fd (acknowledged fd)

  abbrev answered : ℕ → Option Bytes
  answered fd = (os.recv fd max_buffer_size (polled fd).1).0

  abbrev pub Accepts : Outcome ServerConnection → Type 0
  Accepts (ok c) =
      ((os.accept server w).0 ≡ some c.socket)
      × ((polled c.socket).0 ≡ true)
      × (answered c.socket ≡ some c.identifier)
      × (c.identifier ≢ [])
      × (c.outgoing_bytes ≡ [])
  Accepts (throw accept_failed) = (os.accept server w).0 ≡ none
  Accepts (throw poll_failed) =
      (fd : ℕ) × ((os.accept server w).0 ≡ some fd) × ((polled fd).0 ≡ false)
  Accepts (throw recv_failed) =
      (fd : ℕ) × ((os.accept server w).0 ≡ some fd) × ((polled fd).0 ≡ true) × (answered fd ≡ none)
  Accepts (throw remote_closing) =
      (fd : ℕ) × ((os.accept server w).0 ≡ some fd)
      × ((polled fd).0 ≡ true)
      × (answered fd ≡ some [])
  Accepts _ = ⊥

  after_poll :
      (fd : ℕ) (bytes : Option Bytes)
      → (os.accept server w).0 ≡ some fd
      → (polled fd).0 ≡ true
      → answered fd ≡ bytes
      → Accepts (accept_connection os server w).0
  unfolding accept_connection
  after_poll fd none e ready r = rw (e, ready, r, received) (fd, e, ready, r)
  after_poll fd (some []) e ready r = rw (e, ready, r, received) (fd, e, ready, r)
  after_poll fd (some (b ∷ bytes)) e ready r =
      rw (e, ready, r, received) (e, ready, r, (λ h. cc), refl)

  -- The constructor makes a connection exactly of an accepted descriptor whose client answers with
  -- at least one byte, and these bytes are its identifier; each exception names the call that failed.
  pub accept_connection-Accepts : Accepts (accept_connection os server w).0
  unfolding accept_connection
  accept_connection-Accepts = elim (Option-cases (os.accept server w).0) [
    | inl e ↦ rw (e, or_raise) e
    | inr (fd, e) ↦ elim (Bool-cases (polled fd).0) [
      | inl ready ↦ after_poll fd (answered fd) e ready refl
      | inr failed ↦ rw (e, failed) (fd, e, failed)
    ]
  ]
