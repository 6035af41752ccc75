-- ===== src/Windows/Connections/Represents.antt =====
-- What a store of Windows connections stands for: the list of its ServerConnection objects in the
-- order of the container.
use c11http.Common.{ℕ, ◌≡◌, some, List, map}
use c11http.Common.Assoc.{find}
use c11http.Common.Pointers.{Owns, Distinct, In}
use c11http.Callback.{Bytes, Bytes-discrete}
use c11http.Posix.{Env}
use c11http.Windows.Connections.{ServerConnection, Store}

abbrev pub events : List ServerConnection → List ℕ
events = map (λ c. c.event)

-- Identifiers lead to live objects of the container that carry them.
abbrev pub IsMapped : {W : Type 0} → Store W → Type 0
IsMapped s =
    (i : Bytes) (p : ℕ)
    → find Bytes-discrete i s.mapping ≡ some p
    → (c : ServerConnection) × (s.cells p ≡ some c) × (c.identifier ≡ i) × In p s.container

pub record Represents {W : Type 0} (s : Store W) (cs : List ServerConnection) : Type 0 where
  pub owns : Owns s.cells s.container cs
  pub pointers : Distinct s.container
  pub handles : Distinct (events cs)
  pub mapped : IsMapped s

-- What a store stands for does not depend on the system or the callback.
pub Represents-env :
    {W : Type 0} (s : Store W) (cs : List ServerConnection) (env : Env W)
    → Represents s cs
    → Represents (record s { env = env }) cs
Represents-env s cs env r = record {
  owns = r.owns;
  pointers = r.pointers;
  handles = r.handles;
  mapped = r.mapped;
}
