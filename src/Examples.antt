-- ===== src/Examples.antt =====
-- Inputs at which the theorems are applied: a system that always succeeds, and servers with
-- connections on it.
pub mod Workers
pub mod Connections
pub mod Servers
pub mod Invariant
pub mod WindowsClient
pub mod Facades
pub mod Clients
pub mod Windows
pub mod WindowsRuns
use c11http.Common.{
  ℕ, suc, ◌+◌, ◌≡◌, refl, inl, inr, Bool, true, false, Option, none, some, List, [], ◌∷◌, ◌==◌,
  length, arith, if◌then◌else◌,
}
use c11http.Common.Assoc.{find}
use c11http.Callback.{Bytes, Bytes-discrete}
use c11http.Posix.{Os, Env, converted, fd_zero, fd_add}
use c11http.Posix.Connection.{ServerConnection}
use c11http.Posix.Connections.{Store}
use c11http.Posix.Connections.Represents.Lists.{IsMapped, Represents}
use c11http.Posix.Server.{Server}

-- The state counts the connections accepted.
abbrev pub willing : Os ℕ
willing = record {
  socket = λ w. (some 3, w);
  reuse_address = λ fd v w. (true, w);
  bind = λ fd a w. (true, w);
  listen = λ fd n w. (true, w);
  pipe = λ w. (some (4, 5), w);
  accept = λ fd w. (some (w + 6), suc w);
  inet_pton = λ name w. (converted (length name), w);
  connect = λ fd a w. (true, w);
  get_flags = λ fd w. (0, w);
  set_flags = λ fd x w. w;
  send = λ fd bytes w. (some (length bytes), w);
  recv = λ fd n w. (some (b'i' ∷ []), w);
  poll_in = λ fd w. (true, w);
  poll_out = λ fd w. (true, w);
  write = λ fd bytes w. w;
  select = λ n r v w. (some (r, v), w);
  shut_down = λ fd w. w;
  no_linger = λ fd w. w;
  close = λ fd w. w;
  htons = λ port. port;
  o_nonblock = 2048;
  inet = 2;
  any_host = 0;
  fd_setsize = 1024;
}

-- A system on which every stream is at its end, one that accepts nothing, and one that takes no byte.
abbrev pub hung_up : Os ℕ
hung_up = record willing { recv = λ fd n w. (some [], w) }

abbrev pub refusing : Os ℕ
refusing = record willing { accept = λ fd w. (none, w) }

abbrev pub clogged : Os ℕ
clogged = record willing { send = λ fd bytes w. (none, w) }

abbrev pub alice : ServerConnection
alice = record { outgoing_bytes = []; socket = 6; identifier = b'a' ∷ [] }

abbrev pub bob : ServerConnection
bob = record { outgoing_bytes = b'!' ∷ []; socket = 7; identifier = b'b' ∷ [] }

abbrev pub carol : ServerConnection
carol = record { outgoing_bytes = []; socket = 8; identifier = b'c' ∷ [] }

abbrev pub env : Env ℕ
env = record { world = 2; has_callback = true; log = [] }

abbrev pub two : Store ℕ
two = record {
  env = env;
  cells = λ p. if p == 1 then some alice else if p == 2 then some bob else none;
  next_cell = 3;
  container = 1 ∷ 2 ∷ [];
  mapping = (b'a' ∷ [], 1) ∷ (b'b' ∷ [], 2) ∷ [];
  read = fd_add 7 (fd_add 6 (fd_add 3 (fd_add 4 fd_zero)));
  fd_max = some 7;
}

two-IsMapped : IsMapped two
unfolding find
two-IsMapped i p e = elim (Bytes-discrete (b'a' ∷ []) i) [
  | yes a ↦ (alice, ground arith, a, ground arith)
  | no a ↦ elim (Bytes-discrete (b'b' ∷ []) i) [
    | yes b ↦ (bob, ground arith, b, ground arith)
    | no b ↦ absurd (ground arith)
  ]
]

pub two-Represents : Represents two (alice ∷ bob ∷ [])
two-Represents = record {
  owns = (refl, (refl, tt));
  pointers = omega arith;
  descriptors = omega arith;
  allocated = omega arith;
  maximum = refl;
  readable = (refl, (refl, tt));
  mapped = two-IsMapped;
}

abbrev pub server : Server ℕ
server = record {
  store = two;
  has_connections = true;
  connect_socket = 3;
  port = 80;
  has_been_shutdown = false;
  wakeup_read = 4;
  wakeup_write = 5;
  master_write = fd_zero;
}
