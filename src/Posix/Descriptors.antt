-- ===== src/Posix/Descriptors.antt =====
-- What the posix code relies on of the system's descriptors: which are open, as documented for accept,
-- close and the other calls.
use c11http.Common.{
  ℕ, ◌≡◌, ◌≢◌, Bool, true, false, Option, none, some, [], ◌∷◌, ok, and_then, or_raise, Option-cases,
  Bool-cases, inl, inr,
}
use c11http.Callback.{Bytes}
use c11http.Posix.{Os, Address, FdSet, max_buffer_size}
use c11http.Posix.Socket.{make_non_blocking, close_socket}
use c11http.Posix.Connection.{ServerConnection, received, accept_connection, ack}

-- What is open stays open.
abbrev pub Keeps : FdSet → FdSet → Type 0
Keeps before after = (k : ℕ) → before k ≡ true → after k ≡ true

-- `socket` opens what it answers with, `accept` answers with a descriptor that was not open before, `close` closes no other than its own, and
-- no other call closes one.
pub record Descriptors {W : Type 0} (os : Os W) (opened : W → FdSet) : Type 0 where
  pub socket_opens : (fd : ℕ) (w : W) → (os.socket w).0 ≡ some fd → opened (os.socket w).1 fd ≡ true
  pub reuse_address_keeps :
      (fd v : ℕ) (w : W) → Keeps (opened w) (opened (os.reuse_address fd v w).1)
  pub bind_keeps : (fd : ℕ) (a : Address) (w : W) → Keeps (opened w) (opened (os.bind fd a w).1)
  pub listen_keeps : (fd n : ℕ) (w : W) → Keeps (opened w) (opened (os.listen fd n w).1)
  pub pipe_keeps : (w : W) → Keeps (opened w) (opened (os.pipe w).1)
  pub accept_new :
      (server fd : ℕ) (w : W)
      → (os.accept server w).0 ≡ some fd
      → (opened w fd ≡ false) × (opened (os.accept server w).1 fd ≡ true)
  pub accept_keeps : (server : ℕ) (w : W) → Keeps (opened w) (opened (os.accept server w).1)
  pub get_flags_keeps : (fd : ℕ) (w : W) → Keeps (opened w) (opened (os.get_flags fd w).1)
  pub set_flags_keeps : (fd x : ℕ) (w : W) → Keeps (opened w) (opened (os.set_flags fd x w))
  pub send_keeps : (fd : ℕ) (b : Bytes) (w : W) → Keeps (opened w) (opened (os.send fd b w).1)
  pub recv_keeps : (fd n : ℕ) (w : W) → Keeps (opened w) (opened (os.recv fd n w).1)
  pub poll_in_keeps : (fd : ℕ) (w : W) → Keeps (opened w) (opened (os.poll_in fd w).1)
  pub poll_out_keeps : (fd : ℕ) (w : W) → Keeps (opened w) (opened (os.poll_out fd w).1)
  pub write_keeps : (fd : ℕ) (b : Bytes) (w : W) → Keeps (opened w) (opened (os.write fd b w))
  pub select_keeps : (n : ℕ) (r v : FdSet) (w : W) → Keeps (opened w) (opened (os.select n r v w).1)
  pub shut_down_keeps : (fd : ℕ) (w : W) → Keeps (opened w) (opened (os.shut_down fd w))
  pub no_linger_keeps : (fd : ℕ) (w : W) → Keeps (opened w) (opened (os.no_linger fd w))
  pub close_keeps :
      (fd k : ℕ) (w : W) → fd ≢ k → opened w k ≡ true → opened (os.close fd w) k ≡ true

module _ {W : Type 0} (os : Os W) (opened : W → FdSet) (laws : Descriptors os opened) where
  pub close_socket_keeps :
      (fd k : ℕ) (w : W) → fd ≢ k → opened w k ≡ true → opened (close_socket os fd w) k ≡ true
  unfolding close_socket
  close_socket_keeps fd k w other h =
      laws.close_keeps fd k _ other (laws.no_linger_keeps fd _ k (laws.shut_down_keeps fd w k h))

  pub make_non_blocking-Keeps :
      (fd : ℕ) (w : W) → Keeps (opened w) (opened (make_non_blocking os fd w).1)
  unfolding make_non_blocking
  make_non_blocking-Keeps fd w k h = laws.set_flags_keeps fd _ _ k (laws.get_flags_keeps fd w k h)

  -- Behind its `accept`, the constructor of a connection closes nothing, on any path.
  pub accept_connection-Keeps :
      (server : ℕ) (w : W)
      → Keeps (opened (os.accept server w).1) (opened (accept_connection os server w).1)
  unfolding accept_connection
  accept_connection-Keeps server w k h = elim (Option-cases (os.accept server w).0) [
    | inl e ↦ rw (e, or_raise) h
    | inr (fd, e) ↦ elim (Bool-cases (polled fd).0) [
      | inl ready ↦ rw (e, ready) (after_receive fd (os.recv fd max_buffer_size (polled fd).1).0)
      | inr failed ↦ rw (e, failed) (poll_keeps fd)
    ]
  ]
    where
      set_up : ℕ → W
      set_up fd = (make_non_blocking os fd (os.accept server w).1).1

      polled : ℕ → Bool × W
      polled fd = os.poll_in fd (os.send fd ack (set_up fd)).1

      poll_keeps : (fd : ℕ) → opened (polled fd).1 k ≡ true
      poll_keeps fd =
          laws.poll_in_keeps fd _ k (laws.send_keeps fd ack _ k (make_non_blocking-Keeps fd _ k h))

      final : ℕ → W
      final fd = (os.recv fd max_buffer_size (polled fd).1).1

      after_receive :
          (fd : ℕ) (bytes : Option Bytes)
          → opened
              (and_then {B = ServerConnection}
                (λ res w. (ok (record { outgoing_bytes = []; socket = fd; identifier = res }), w))
                (received bytes (final fd))).1
              k
            ≡ true
      after_receive fd none = laws.recv_keeps fd max_buffer_size _ k (poll_keeps fd)
      after_receive fd (some []) = laws.recv_keeps fd max_buffer_size _ k (poll_keeps fd)
      after_receive fd (some (b ∷ bytes)) = laws.recv_keeps fd max_buffer_size _ k (poll_keeps fd)
