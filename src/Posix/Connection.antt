-- ===== src/Posix/Connection.antt =====
-- server/posix/ServerConnection.h and ServerConnection.cpp: one accepted connection. `mBuffer` is
-- scratch space for `recv` and is left out: nothing reads it but the call that filled it.
pub mod Queue
pub mod Accept
use c11http.Common.{
  ℕ, Bool, true, false, not, Option, none, some, List, [], ◌∷◌, ◌++◌, ◌==◌, length, M, ok, throw,
  fault, get, modify, pure, raise, crash, and_then, ◌>>=◌, ◌>>◌, call, or_raise, throw_if, when,
  accept_failed, poll_failed, recv_failed, remote_closing,
}
use c11http.Callback.{Bytes, send_complete}
use c11http.Posix.{Os, Env, notify, in_world, max_buffer_size}
use c11http.Posix.Socket.{make_non_blocking}

pub record ServerConnection : Type 0 where
  pub outgoing_bytes : Bytes
  pub socket : ℕ
  pub identifier : Bytes

-- A connection at work: the object, and what its methods reach through it.
pub record Link (W : Type 0) : Type 0 where
  pub this : ServerConnection
  pub env : Env W

abbrev pub in_env {ℓ} : {W : Type 0} {A : Type ℓ} → M (Env W) A → M (Link W) A
in_env m l = let (o, env) = m l.env in (o, record l { env = env })

-- `data` is inserted at the front.
unfoldable pub add_queued_message : Bytes → ServerConnection → ServerConnection
add_queued_message bytes c = record c { outgoing_bytes = bytes ++ c.outgoing_bytes }

abbrev pub is_count : ℕ → Option ℕ → Bool
is_count expected none = false
is_count expected (some n) = expected == n

-- `0 == nbytes` is the end of the stream.
abbrev pub received {ℓ} : {S : Type ℓ} → Option Bytes → M S Bytes
received none = raise recv_failed
received (some []) = raise remote_closing
received (some (b ∷ bytes)) = pure (b ∷ bytes)

abbrev pub ack : Bytes
ack = b'a' ∷ b'c' ∷ b'k' ∷ []

-- `&(bytes[0])` and `bytes.front()`: an empty vector has no first element to read or point to.
abbrev pub first_of {ℓ} : {S : Type ℓ} → Bytes → M S (Unit {0})
first_of [] = crash
first_of (b ∷ bytes) = pure tt

module _ {W : Type 0} (os : Os W) where
  unfoldable pub perform_receive : ℕ → M W Bytes
  perform_receive fd = do nbytes ← call (os.recv fd max_buffer_size); received nbytes

  -- `ServerConnection::ServerConnection`.
  unfoldable pub accept_connection : ℕ → M W ServerConnection
  unfolding make_non_blocking perform_receive
  accept_connection server_socket = do
    possible_socket ← call (os.accept server_socket)
    fd ← or_raise possible_socket accept_failed
    make_non_blocking os fd
    call (os.send fd ack) >>= λ _. pure tt
    ready ← call (os.poll_in fd)
    throw_if (not ready) poll_failed
    res ← perform_receive fd
    pure (record { outgoing_bytes = []; socket = fd; identifier = res })

  unfoldable pub send_queued_message : M (Link W) (Unit {0})
  send_queued_message = do
    l ← get
    let bytes_to_send = l.this.outgoing_bytes
    modify (λ l. record l { this = record l.this { outgoing_bytes = [] } })
    first_of bytes_to_send
    sent ← in_env (in_world (call (os.send l.this.socket bytes_to_send)))
    when (is_count (length bytes_to_send) sent)
        (in_env (notify (send_complete l.this.identifier (length bytes_to_send))))
