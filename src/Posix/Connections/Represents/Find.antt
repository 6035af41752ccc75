-- ===== src/Posix/Connections/Represents/Find.antt =====
-- `Connections::getServerConnection` by descriptor and by identifier.
use c11http.Common.Pointers.{Owns, In, Fresh, Distinct, Distinct-split}
use mathlib.Core.List.{map-append}
use c11http.Common.{
  subst, ◌∙◌, ◌++◌, ℕ, ◌≡◌, refl, inl, inr, Bool, Option, none, some, List, [], ◌∷◌, ◌==◌, arith,
  if◌then◌else◌, Outcome, ok, throw, fault, or_raise, connection_not_found, Option-cases,
}
use c11http.Common.Assoc.{find}
use c11http.Callback.{Bytes, Bytes-discrete}
use c11http.Posix.Connection.{ServerConnection}
use c11http.Posix.Connections.{Store, finder, find_if, get_by_socket, get_by_identifier}
use c11http.Posix.Connections.Represents.Lists.{Cells, sockets, Represents}

-- The first of some objects with a descriptor.
abbrev pub with_socket : ℕ → List ServerConnection → Option ServerConnection
with_socket k [] = none
with_socket k (c ∷ cs) = if k == c.socket then some c else with_socket k cs

-- The object that a result of the lookup stands for.
abbrev pub object_at : Cells → Option ℕ → Option ServerConnection
object_at cells none = none
object_at cells (some p) = cells p

find_if-with_socket :
    {W : Type 0} (s : Store W) (k : ℕ) (ps : List ℕ) (cs : List ServerConnection)
    → Owns s.cells ps cs
    → (o : Option ℕ) × (find_if (finder s k) ps ≡ some o) × (object_at s.cells o ≡ with_socket k cs)
unfolding find_if
find_if-with_socket s k [] [] o = (none, refl, refl)
find_if-with_socket s k [] (c ∷ cs) o = absurd o
find_if-with_socket s k (p ∷ ps) [] o = absurd o
find_if-with_socket s k (p ∷ ps) (c ∷ cs) o =
    let (r, e, a) = find_if-with_socket s k ps cs o.1 in
    elim (Option-cases (if k == c.socket then some p else none)) [
      | inl miss ↦ (r, ground arith, ground arith)
      | inr (q, hit) ↦ (some q, ground arith, ground arith)
    ]

-- The lookup by descriptor faults on no store that stands for a list of connections; it changes
-- nothing and gives the first connection of the list with that descriptor, or null if none has it.
pub get_by_socket-with_socket :
    {W : Type 0} (s : Store W) (cs : List ServerConnection) (k : ℕ)
    → Represents s cs
    → (o : Option ℕ) × (get_by_socket k s ≡ (ok o, s)) × (object_at s.cells o ≡ with_socket k cs)
unfolding get_by_socket
get_by_socket-with_socket s cs k r =
    let (o, e, a) = find_if-with_socket s k s.container cs r.owns in (o, rw e, a)

-- What the lookup by identifier may answer: a live connection of the container that carries the
-- identifier, or the exception where the identifier is not mapped.
abbrev pub FindsIdentifier : {W : Type 0} → Store W → Bytes → Outcome ℕ → Type 0
FindsIdentifier s i (ok p) =
    (c : ServerConnection) × (s.cells p ≡ some c) × (c.identifier ≡ i) × In p s.container
FindsIdentifier s i (throw e) =
    (e ≡ connection_not_found) × (find Bytes-discrete i s.mapping ≡ none)
FindsIdentifier s i fault = ⊥

-- The lookup by identifier changes nothing and never gives a null or a dangling pointer: it answers
-- with a live connection of that identifier, or raises the exception.
pub get_by_identifier-FindsIdentifier :
    {W : Type 0} (s : Store W) (cs : List ServerConnection) (i : Bytes)
    → Represents s cs
    → ((get_by_identifier i s).1 ≡ s) × FindsIdentifier s i (get_by_identifier i s).0
unfolding get_by_identifier
get_by_identifier-FindsIdentifier s cs i r = elim (Option-cases (find Bytes-discrete i s.mapping)) [
  | inl e ↦ rw (e, or_raise) (refl, (refl, e))
  | inr (p, e) ↦ rw (e, or_raise) (refl, r.mapped i p e)
]

with_socket-known :
    (before : List ServerConnection) (c : ServerConnection) (after : List ServerConnection)
    → Fresh c.socket (sockets before)
    → with_socket c.socket (before ++ c ∷ after) ≡ some c
with_socket-known [] c after f = ground arith
with_socket-known (b ∷ before) c after f = ground (arith, f.0, with_socket-known before c after f.1)

find_if-In :
    (pred : ℕ → Option Bool) (p : ℕ) (ps : List ℕ) → find_if pred ps ≡ some (some p) → In p ps
unfolding find_if
find_if-In pred p [] e = cc
find_if-In pred p (q ∷ ps) e = ground (arith, find_if-In pred p ps)

get_by_socket-In :
    {W : Type 0} (s : Store W) (k p : ℕ) → get_by_socket k s ≡ (ok (some p), s) → In p s.container
unfolding get_by_socket
get_by_socket-In s k p e = find_if-In (finder s k) p s.container (ground arith)

known :
    {W : Type 0} (s : Store W) (c : ServerConnection) (o : Option ℕ)
    → get_by_socket c.socket s ≡ (ok o, s)
    → object_at s.cells o ≡ some c
    → (p : ℕ) × (get_by_socket c.socket s ≡ (ok (some p), s))
      × (s.cells p ≡ some c)
      × In p s.container
known s c none e a = cc
known s c (some p) e a = (p, e, a, get_by_socket-In s c.socket p e)

find_if-Fresh :
    {W : Type 0} (s : Store W) (k : ℕ) (ps : List ℕ) (cs : List ServerConnection)
    → Owns s.cells ps cs
    → Fresh k (sockets cs)
    → find_if (finder s k) ps ≡ some none
unfolding find_if
find_if-Fresh s k [] cs o f = refl
find_if-Fresh s k (p ∷ ps) [] o f = absurd o
find_if-Fresh s k (p ∷ ps) (c ∷ cs) o f = ground (arith, f.0, find_if-Fresh s k ps cs o.1 f.1)

-- The lookup of a connection of the store by its descriptor.
pub get_by_socket-known :
    {W : Type 0} (s : Store W) (before : List ServerConnection) (c : ServerConnection)
    (after : List ServerConnection)
    → Represents s (before ++ c ∷ after)
    → (p : ℕ) × (get_by_socket c.socket s ≡ (ok (some p), s))
      × (s.cells p ≡ some c)
      × In p s.container
get_by_socket-known s before c after r =
    let (_, _, alone) =
      Distinct-split (sockets before) c.socket (sockets after)
        (subst Distinct (map-append _ before (c ∷ after)) r.descriptors) in
    let (o, e, a) = get_by_socket-with_socket s (before ++ c ∷ after) c.socket r in
    known s c o e (a ∙ with_socket-known before c after alone)

-- The lookup by a descriptor that no connection has.
pub get_by_socket-absent :
    {W : Type 0} (s : Store W) (cs : List ServerConnection) (k : ℕ)
    → Represents s cs
    → Fresh k (sockets cs)
    → get_by_socket k s ≡ (ok none, s)
get_by_socket-absent s cs k r f =
    unfold get_by_socket in rw (find_if-Fresh s k s.container cs r.owns f)
