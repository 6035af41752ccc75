-- ===== src/Posix/Connections/Represents/Lists.antt =====
-- The relation between a store and the objects that it holds, and lemmas on lists of pointers.
use c11http.Common.{
  ℕ, ◌<◌, ◌≡◌, refl, true, false, Option, none, some, List, [], ◌∷◌, ◌++◌, map, arith, All,
}
use c11http.Common.Assoc.{find}
use c11http.Callback.{Bytes, Bytes-discrete}
use c11http.Posix.{Env, FdSet, fd_clear}
use c11http.Posix.Connection.{ServerConnection}
use c11http.Posix.Connections.{Store, max_fd, finder}
use c11http.Common.Pointers.{Owns, Fresh, Distinct, In}

abbrev pub Cells : Type 0
Cells = ℕ → Option ServerConnection

abbrev pub sockets : List ServerConnection → List ℕ
sockets = map (λ c. c.socket)

abbrev pub names : List ServerConnection → List Bytes
names = map (λ c. c.identifier)

-- The greatest descriptor, or none.
abbrev pub max_from : Option ℕ → List ServerConnection → Option ℕ
max_from acc [] = acc
max_from acc (c ∷ cs) = max_from (some (max_fd acc c.socket)) cs

-- Identifiers lead to live objects of the container that carry them.
abbrev pub IsMapped : {W : Type 0} → Store W → Type 0
IsMapped s =
    (i : Bytes) (p : ℕ)
    → find Bytes-discrete i s.mapping ≡ some p
    → (c : ServerConnection) × (s.cells p ≡ some c) × (c.identifier ≡ i) × In p s.container

pub record Represents {W : Type 0} (s : Store W) (cs : List ServerConnection) : Type 0 where
  pub owns : Owns s.cells s.container cs
  pub pointers : Distinct s.container
  pub descriptors : Distinct (sockets cs)
  pub allocated : All (λ p. p < s.next_cell) s.container
  pub maximum : s.fd_max ≡ max_from none cs
  pub readable : All (λ c. s.read c.socket ≡ true) cs
  pub mapped : IsMapped s

pub max_from-append :
    (acc : Option ℕ) (cs ds : List ServerConnection)
    → max_from acc (cs ++ ds) ≡ max_from (max_from acc cs) ds
max_from-append acc [] ds = refl
max_from-append acc (c ∷ cs) ds = max_from-append (some (max_fd acc c.socket)) cs ds

-- The finder passes over all connections that have another descriptor.
pub finder-Fresh :
    {W : Type 0} (s : Store W) (k : ℕ) (ps : List ℕ) (cs : List ServerConnection)
    → Owns s.cells ps cs
    → Fresh k (sockets cs)
    → All (λ p. finder s k p ≡ some false) ps
finder-Fresh s k [] cs o f = tt
finder-Fresh s k (p ∷ ps) [] o f = absurd o
finder-Fresh s k (p ∷ ps) (c ∷ cs) o f = (ground arith, finder-Fresh s k ps cs o.1 f.1)

-- An object that leaves, and a descriptor that is taken out, touch no other connection.
pub readable-clear :
    (read : FdSet) (k : ℕ) (ds : List ServerConnection)
    → Fresh k (sockets ds)
    → All (λ d. read d.socket ≡ true) ds
    → All (λ d. fd_clear k read d.socket ≡ true) ds
readable-clear read k [] f r = tt
readable-clear read k (d ∷ ds) f r = (ground arith, readable-clear read k ds f.1 r.1)

-- What a store stands for does not depend on the system or the callback.
pub Represents-env :
    {W : Type 0} (s : Store W) (cs : List ServerConnection) (env : Env W)
    → Represents s cs
    → Represents (record s { env = env }) cs
Represents-env s cs env r = record {
  owns = r.owns;
  pointers = r.pointers;
  descriptors = r.descriptors;
  allocated = r.allocated;
  maximum = r.maximum;
  readable = r.readable;
  mapped = r.mapped;
}
