-- ===== src/Windows.antt =====
-- Winsock under the Windows implementation, as a parameter: the calls that the source makes of it,
-- over a state of its own.
pub mod Socket
pub mod Connections
pub mod Server
pub mod Client
use c11http.Common.{ℕ, Bool, Option, List}
use c11http.Callback.{Bytes}

-- How an overlapped call returns: at once, as `WSA_IO_PENDING`, or by another error.
pub data Io : Type 0 where
  completed pending io_error : Io

-- What `WSAWaitForMultipleEvents` answers.
pub data Wait : Type 0 where
  wait_error io_completion : Wait
  signalled : ℕ → Wait

-- What `WSARecv` answers where the source looks at the bytes: some that it has put into the buffer, or
-- how it failed.
pub data Received : Type 0 where
  at_once : Bytes → Received
  io_pending connection_reset recv_error : Received

-- Sockets and events are numbers. `overlapped_result` gives the bytes that the receive has put into
-- the connection's buffer.
pub record Winsock (W : Type 0) : Type 0 where
  pub startup : W → Bool × W
  pub cleanup : W → W
  pub get_addr_info : ℕ → W → Option ℕ × W  -- of 127.0.0.1 and a port
  pub free_addr_info : W → W
  pub bind : ℕ → ℕ → W → Bool × W
  pub listen : ℕ → ℕ → W → Bool × W
  pub heap_alloc : W → Bool × W
  pub heap_free : W → W
  pub create_event : W → Option ℕ × W
  pub close_event : ℕ → W → W
  pub set_event : ℕ → W → W
  pub reset_event : ℕ → W → W
  pub socket : W → Option ℕ × W
  pub no_send_buffer : ℕ → W → W  -- setsockopt(fd, SOL_SOCKET, SO_SNDBUF, 0)
  pub close_socket : ℕ → W → W
  pub recv_disconnect : ℕ → W → W
  pub send_disconnect : ℕ → W → W
  pub update_accept_context : ℕ → W → W
  pub accept_ex_pointer : ℕ → W → Bool × W
  pub accept_ex : ℕ → ℕ → ℕ → W → Io × W  -- on a listening socket, a new one and an event
  pub send : ℕ → Bytes → ℕ → W → Io × W
  pub send_error_text : ℕ → W → Bytes  -- the message made of the socket and WSAGetLastError()
  pub recv : ℕ → ℕ → W → Io × W
  pub overlapped_result : ℕ → ℕ → W → Option Bytes × W
  pub wait : List ℕ → W → Wait × W
  pub invalid_socket : ℕ
  pub get_addresses : Bytes → ℕ → W → Option (List ℕ) × W  -- getaddrinfo
  pub connect : ℕ → ℕ → W → Bool × W
  pub recv_now : ℕ → ℕ → W → Received × W
  pub sent_result : ℕ → ℕ → W → Option ℕ × W  -- WSAGetOverlappedResult of a send
  pub sent_result_unflagged : ℕ → ℕ → W → Option ℕ × W  -- with no place for the flags
  pub send_nothing : ℕ → W → W
