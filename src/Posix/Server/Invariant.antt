-- ===== src/Posix/Server/Invariant.antt =====
-- server/posix/Server.cpp: what holds of a server in its loop, whatever its clients and the other threads
-- do, and what an operation keeps of it.
pub mod Clients
pub mod Handlers
pub mod Calls
pub mod Runs
use c11http.Common.{
  ℕ, ◌≡◌, refl, sym, subst, Bool, true, false, Option, some, List, [], ◌∷◌, Outcome, ok, throw,
  fault, M, and_then, All, ◌≢◌, arith,
}
use c11http.Common.Pointers.{Fresh}
use c11http.Callback.Sessions.{Session}
use c11http.Posix.{Os, Env, FdSet, max_buffer_size}
use c11http.Posix.Descriptors.{Keeps}
use c11http.Posix.Connection.{ServerConnection}
use c11http.Posix.Connections.Represents.Lists.{sockets, names, Represents, Represents-env}
use c11http.Posix.Server.{Server}
use c11http.Posix.Server.Receiving.{IsGone, with_env}

-- All of some descriptors are open.
abbrev pub AllOpen : FdSet → List ℕ → Type 0
AllOpen opened = All (λ k. opened k ≡ true)

pub AllOpen-Keeps : (a b : FdSet) → Keeps a b → (ks : List ℕ) → AllOpen a ks → AllOpen b ks
AllOpen-Keeps a b keeps [] h = tt
AllOpen-Keeps a b keeps (k ∷ ks) h = (keeps k h.0, AllOpen-Keeps a b keeps ks h.1)

module _ {W : Type 0} (os : Os W) (opened : W → FdSet) where
  -- The server stands in its loop, shut down or not, for some connections: each has an open descriptor
  -- of its own that is not the listening one, which is open until the server is shut down. What the
  -- callback has been told is a session, in which their names are connected now.
  pub record Sound (down : Bool) (s : Server W) : Type 0 where
    pub connections : List ServerConnection
    pub represents : Represents s.store connections
    pub all_open : AllOpen (opened s.env.world) (sockets connections)
    pub apart : Fresh s.connect_socket (sockets connections)
    pub listening : down ≡ false → opened s.env.world s.connect_socket ≡ true
    pub made : s.has_connections ≡ true
    pub heard : s.env.has_callback ≡ true
    pub flag : s.has_been_shutdown ≡ down
    pub session : Session (names connections) s.env.log

  -- An operation leaves the server as it should be, also by an exception. Nothing holds behind undefined
  -- behaviour.
  abbrev pub Kept {ℓ} : {A : Type ℓ} → Bool → Outcome A × Server W → Type 0
  Kept down (ok _, s) = Sound down s
  Kept down (throw e, s) = Sound down s
  Kept down (fault, s) = Unit {0}

  pub and_then-Kept {ℓ κ} :
      {A : Type ℓ} {B : Type κ} (down : Bool) (f : A → M (Server W) B) (r : Outcome A × Server W)
      → Kept down r
      → ((a : A) (s : Server W) → Sound down s → Kept down (f a s))
      → Kept down (and_then f r)
  and_then-Kept down f (ok a, s) h k = k a s h
  and_then-Kept down f (throw e, s) h k = h
  and_then-Kept down f (fault, s) h k = h

  pub fault-Kept {ℓ} :
      {A : Type ℓ} (down : Bool) (r : Outcome A × Server W) → r.0 ≡ fault → Kept down r
  fault-Kept down (ok a, s) e = absurd (ground arith)
  fault-Kept down (throw x, s) e = absurd (ground arith)
  fault-Kept down (fault, s) e = tt

  -- Another state of the system in which nothing has been closed, and another log.
  pub with_env-Sound :
      (down : Bool) (s : Server W) (env : Env W) (h : Sound down s)
      → Keeps (opened s.env.world) (opened env.world)
      → env.has_callback ≡ true
      → Session (names h.connections) env.log
      → Sound down (with_env os env s)
  with_env-Sound down s env h keeps cb told = record {
    connections = h.connections;
    represents = Represents-env s.store h.connections env h.represents;
    all_open = AllOpen-Keeps _ _ keeps (sockets h.connections) h.all_open;
    apart = h.apart;
    listening = λ up. keeps s.connect_socket (h.listening up);
    made = h.made;
    heard = cb;
    flag = h.flag;
    session = told;
  }

  pub marked-Sound :
      (down : Bool) (s : Server W) (set : FdSet)
      → Sound down s
      → Sound down (record s { master_write = set })
  marked-Sound down s set h = record {
    connections = h.connections;
    represents = h.represents;
    all_open = h.all_open;
    apart = h.apart;
    listening = h.listening;
    made = h.made;
    heard = h.heard;
    flag = h.flag;
    session = h.session;
  }
