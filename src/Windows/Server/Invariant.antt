-- ===== src/Windows/Server/Invariant.antt =====
-- server/windows/Server.cpp: what holds of a server in its loop, whatever its clients, the completion
-- routines and the other threads do, and what an operation keeps of it.
pub mod Removing
pub mod Receiving
pub mod Creating
pub mod Accepting
pub mod Calls
pub mod Sending
pub mod Completing
pub mod Runs
pub mod Reach
pub mod Start
use c11http.Common.{
  ℕ, ◌<◌, ◌≤◌, ◌≡◌, ◌≢◌, refl, Bool, true, false, Option, some, List, length, Outcome, ok, throw,
  fault, M, and_then, arith,
}
use c11http.Posix.{Env, FdSet}
use c11http.Windows.{Winsock}
use c11http.Windows.Connections.{ServerConnection, Store}
use c11http.Windows.Connections.Represents.{Represents, Represents-env}
use c11http.Windows.Server.{Server}
use c11http.Windows.Server.Events.{Mild}
use c11http.Windows.Server.Handling.{with_env}

module _ {W : Type 0} (ws : Winsock W) (opened : W → FdSet) (on_way : W → ℕ) where
  -- The server stands in its loop for some connections; others may be accepted and not yet added. Each
  -- object has an open event of its own, not that of the server. There is a target for every send that
  -- is on its way, and, but for a server whose loop an exception has left, a socket for the next
  -- connection.
  pub record Sound (accepting : Bool) (s : Server W) : Type 0 where
    pub connections : List ServerConnection
    pub represents : Represents s.store connections
    pub allocated :
        (p : ℕ) (c : ServerConnection) → s.store.cells p ≡ some c → p < s.store.next_cell
    pub events_open :
        (p : ℕ) (c : ServerConnection)
        → s.store.cells p ≡ some c
        → (opened s.store.env.world c.event ≡ true) × (s.event ≢ c.event)
    pub separate :
        (p q : ℕ) (c d : ServerConnection)
        → s.store.cells p ≡ some c
        → s.store.cells q ≡ some d
        → c.event ≡ d.event
        → p ≡ q
    pub own : opened s.store.env.world s.event ≡ true
    pub owed : on_way s.store.env.world ≤ length s.targets
    pub incoming : accepting ≡ true → (fd : ℕ) × (s.incoming_socket ≡ some fd)

  -- Other flags, and another socket for the next connection.
  pub flagged-Sound :
      (before after : Bool) (s : Server W) (next : Option ℕ) (down waits : Bool)
      → Sound before s
      → (after ≡ true → (fd : ℕ) × (next ≡ some fd))
      → Sound after (record s {
        incoming_socket = next;
        has_been_shutdown = down;
        waiting_for_events = waits;
      })
  flagged-Sound before after s next down waits h found = record {
    connections = h.connections;
    represents = h.represents;
    allocated = h.allocated;
    events_open = h.events_open;
    separate = h.separate;
    own = h.own;
    owed = h.owed;
    incoming = found;
  }

  pub after_exception : (s : Server W) → Sound true s → Sound false s
  after_exception s h =
      flagged-Sound true false s s.incoming_socket s.has_been_shutdown s.waiting_for_events h
        (λ e. absurd (ground arith))

  -- An operation leaves the server as it should be, also by an exception, behind which there may be no
  -- socket for the next connection. What undefined behaviour says of it is `Undefined`: `⊥` where the
  -- operation has none, `Unit` where it may have.
  abbrev pub Kept {ℓ} : {A : Type ℓ} → Type 0 → Bool → Outcome A × Server W → Type 0
  Kept Undefined accepting (ok _, s) = Sound true s
  Kept Undefined accepting (throw e, s) = Sound accepting s
  Kept Undefined accepting (fault, s) = Undefined

  pub allowing-Kept {ℓ} :
      {A : Type ℓ} (accepting : Bool) (r : Outcome A × Server W)
      → Kept ⊥ accepting r
      → Kept (Unit {0}) accepting r
  allowing-Kept accepting (ok a, s) k = k
  allowing-Kept accepting (throw e, s) k = k
  allowing-Kept accepting (fault, s) k = tt

  pub and_then-Kept {ℓ κ} :
      {A : Type ℓ} {B : Type κ} (Undefined : Type 0) (accepting : Bool) (f : A → M (Server W) B)
      (r : Outcome A × Server W)
      → Kept Undefined accepting r
      → ((a : A) (s : Server W) → Sound true s → Kept Undefined accepting (f a s))
      → Kept Undefined accepting (and_then f r)
  and_then-Kept Undefined accepting f (ok a, s) h k = k a s h
  and_then-Kept Undefined accepting f (throw e, s) h k = h
  and_then-Kept Undefined accepting f (fault, s) h k = h

  -- Another state of the system after mild calls, and another log.
  pub with_env-Sound :
      (accepting : Bool) (s : Server W) (env : Env W)
      → Sound accepting s
      → Mild opened on_way s.store.env.world env.world
      → Sound accepting (with_env ws env s)
  with_env-Sound accepting s env h mild = record {
    connections = h.connections;
    represents = Represents-env s.store h.connections env h.represents;
    allocated = h.allocated;
    events_open = λ p c live. let (o, other) = h.events_open p c live in (mild.0 c.event o, other);
    separate = h.separate;
    own = mild.0 s.event h.own;
    owed = omega (arith, h.owed, mild.1);
    incoming = h.incoming;
  }
