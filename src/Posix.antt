-- ===== src/Posix.antt =====
-- The operating system under the posix implementation, as a parameter: the calls that the source
-- makes of it, over a state of its own, and `fd_set` with its macros.
pub mod Socket
pub mod Connection
pub mod Connections
pub mod Server
pub mod Client
pub mod Descriptors
use c11http.Common.{
  ltb, crash, pure, ℕ, Bool, true, false, Option, List, [], ◌∷◌, ◌++◌, ◌==◌, if◌then◌else◌, M, ok,
  fault,
}
use c11http.Callback.{Bytes, Event}

-- `fd_set`. A set that has never been cleared holds any descriptors.
abbrev pub FdSet : Type 0
FdSet = ℕ → Bool

abbrev pub fd_zero : FdSet
fd_zero fd = false

abbrev pub fd_add : ℕ → FdSet → FdSet
fd_add fd set other = if fd == other then true else set other

abbrev pub fd_clear : ℕ → FdSet → FdSet
fd_clear fd set other = if fd == other then false else set other

-- `struct sockaddr_in`, its port in network order.
pub record Address : Type 0 where
  pub family : ℕ
  pub port : ℕ
  pub host : ℕ

-- What `inet_pton` answers: an address, that the text is no address, or an error.
pub data Pton : Type 0 where
  converted : ℕ → Pton
  no_address pton_error : Pton

-- `W` is the state of the system. A result of -1 is `none` or `false`; `recv` gives the bytes that it
-- puts into the buffer, and `send` the number of bytes that it takes.
pub record Os (W : Type 0) : Type 0 where
  pub socket : W → Option ℕ × W
  pub reuse_address : ℕ → ℕ → W → Bool × W  -- setsockopt(fd, SOL_SOCKET, SO_REUSEADDR, &value)
  pub bind : ℕ → Address → W → Bool × W
  pub listen : ℕ → ℕ → W → Bool × W
  pub pipe : W → Option (ℕ × ℕ) × W
  pub accept : ℕ → W → Option ℕ × W
  pub inet_pton : Bytes → W → Pton × W
  pub connect : ℕ → Address → W → Bool × W
  pub get_flags : ℕ → W → ℕ × W  -- fcntl(fd, F_GETFL)
  pub set_flags : ℕ → ℕ → W → W  -- fcntl(fd, F_SETFL, flags)
  pub send : ℕ → Bytes → W → Option ℕ × W
  pub recv : ℕ → ℕ → W → Option Bytes × W  -- with the size of the buffer
  pub poll_in : ℕ → W → Bool × W  -- poll for POLLIN | POLLPRI, with no time limit
  pub poll_out : ℕ → W → Bool × W  -- poll for POLLOUT, with no time limit
  pub write : ℕ → Bytes → W → W
  pub select : ℕ → FdSet → FdSet → W → Option (FdSet × FdSet) × W
  pub shut_down : ℕ → W → W  -- shutdown(fd, SHUT_RDWR)
  pub no_linger : ℕ → W → W  -- setsockopt(fd, SOL_SOCKET, SO_LINGER, off)
  pub close : ℕ → W → W
  pub htons : ℕ → ℕ
  pub o_nonblock : ℕ
  pub inet : ℕ  -- AF_INET
  pub any_host : ℕ  -- INADDR_ANY
  pub fd_setsize : ℕ  -- FD_SETSIZE

-- `FD_SET` is undefined for a descriptor beyond FD_SETSIZE.
abbrev pub below_setsize {ℓ} : {W : Type 0} {S : Type ℓ} → Os W → ℕ → M S (Unit {0})
below_setsize os fd = if ltb fd os.fd_setsize then pure tt else crash

abbrev pub max_buffer_size : ℕ
max_buffer_size = 1024

-- What a method works on besides its object: the system, whether the callback pointer is not null,
-- and what the callback has been told.
pub record Env (W : Type 0) : Type 0 where
  pub world : W
  pub has_callback : Bool
  pub log : List Event

-- A call through the callback pointer.
abbrev pub notify : {W : Type 0} → Event → M (Env W) (Unit {0})
notify e env =
    if env.has_callback then (ok tt, record env { log = env.log ++ e ∷ [] }) else (fault, env)

-- The same behind `if(0 != callback)`.
abbrev pub notify_if : {W : Type 0} → Event → M (Env W) (Unit {0})
notify_if e env = (ok tt, if env.has_callback then record env { log = env.log ++ e ∷ [] } else env)

abbrev pub in_world {ℓ} : {W : Type 0} {A : Type ℓ} → M W A → M (Env W) A
in_world m env = let (o, w) = m env.world in (o, record env { world = w })
