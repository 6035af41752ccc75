-- ===== src/Posix/Connections/Represents/Reshape.antt =====
-- Changes of the objects behind the pointers that leave descriptors and identifiers alone.
use c11http.Common.Pointers.{Owns, Distinct, In, Owns-update, Owns-append, Distinct-split, update}
use c11http.Common.{
  ℕ, ◌≡◌, refl, sym, ◌∙◌, ap, subst, inl, inr, true, Option, none, some, List, [], ◌∷◌, ◌++◌, arith,
  All,
}
use c11http.Posix.{FdSet}
use c11http.Posix.Connection.{ServerConnection}
use c11http.Posix.Connections.{Store, max_fd}
use c11http.Posix.Connections.Represents.Lists.{Cells, sockets, names, max_from, Represents}

-- Two lists of objects with the same descriptors and identifiers, place by place.
abbrev pub Alike : List ServerConnection → List ServerConnection → Type 0
Alike [] [] = Unit {0}
Alike (c ∷ cs) (d ∷ ds) = (d.socket ≡ c.socket) × (d.identifier ≡ c.identifier) × Alike cs ds
Alike _ _ = ⊥

pub Alike-refl : (cs : List ServerConnection) → Alike cs cs
Alike-refl [] = tt
Alike-refl (c ∷ cs) = (refl, refl, Alike-refl cs)

pub Alike-replace :
    (before : List ServerConnection) (c d : ServerConnection) (after : List ServerConnection)
    → d.socket ≡ c.socket
    → d.identifier ≡ c.identifier
    → Alike (before ++ c ∷ after) (before ++ d ∷ after)
Alike-replace [] c d after e f = (e, f, Alike-refl after)
Alike-replace (b ∷ before) c d after e f = (refl, refl, Alike-replace before c d after e f)

pub Alike-sockets : (cs ds : List ServerConnection) → Alike cs ds → sockets ds ≡ sockets cs
Alike-sockets [] [] a = refl
Alike-sockets [] (d ∷ ds) a = absurd a
Alike-sockets (c ∷ cs) [] a = absurd a
Alike-sockets (c ∷ cs) (d ∷ ds) a = ground (arith, Alike-sockets cs ds a.2)

pub Alike-names : (cs ds : List ServerConnection) → Alike cs ds → names ds ≡ names cs
Alike-names [] [] a = refl
Alike-names [] (d ∷ ds) a = absurd a
Alike-names (c ∷ cs) [] a = absurd a
Alike-names (c ∷ cs) (d ∷ ds) a = ground (arith, Alike-names cs ds a.2)

Alike-max_from :
    (acc : Option ℕ) (cs ds : List ServerConnection)
    → Alike cs ds
    → max_from acc ds ≡ max_from acc cs
Alike-max_from acc [] [] a = refl
Alike-max_from acc [] (d ∷ ds) a = absurd a
Alike-max_from acc (c ∷ cs) [] a = absurd a
Alike-max_from acc (c ∷ cs) (d ∷ ds) a =
    rw a.0 (Alike-max_from (some (max_fd acc c.socket)) cs ds a.2)

Alike-readable :
    (read : FdSet) (cs ds : List ServerConnection)
    → Alike cs ds
    → All (λ c. read c.socket ≡ true) cs
    → All (λ c. read c.socket ≡ true) ds
Alike-readable read [] [] a r = tt
Alike-readable read [] (d ∷ ds) a r = absurd a
Alike-readable read (c ∷ cs) [] a r = absurd a
Alike-readable read (c ∷ cs) (d ∷ ds) a r = (rw a.0 r.0, Alike-readable read cs ds a.2 r.1)

Alike-live :
    (cells cells' : Cells) (q : ℕ) (ps : List ℕ) (cs ds : List ServerConnection)
    (c : ServerConnection)
    → Alike cs ds
    → Owns cells ps cs
    → Owns cells' ps ds
    → In q ps
    → cells q ≡ some c
    → (d : ServerConnection) × (cells' q ≡ some d) × (d.identifier ≡ c.identifier)
Alike-live cells cells' q [] cs ds c a o o' i e = absurd i
Alike-live cells cells' q (p ∷ ps) [] ds c a o o' i e = absurd o
Alike-live cells cells' q (p ∷ ps) (b ∷ cs) [] c a o o' i e = absurd o'
Alike-live cells cells' q (p ∷ ps) (b ∷ cs) (d ∷ ds) c a o o' (inl here) e =
    (d, ground arith, ground (arith, a.1, o.0))
Alike-live cells cells' q (p ∷ ps) (b ∷ cs) (d ∷ ds) c a o o' (inr i) e =
    Alike-live cells cells' q ps cs ds c a.2 o.1 o'.1 i e

pub reshape :
    {W : Type 0} (s : Store W) (cells : Cells) (cs ds : List ServerConnection)
    → Represents s cs
    → Owns cells s.container ds
    → Alike cs ds
    → Represents (record s { cells = cells }) ds
reshape s cells cs ds r o a = record {
  owns = o;
  pointers = r.pointers;
  descriptors = rw (Alike-sockets cs ds a) r.descriptors;
  allocated = r.allocated;
  maximum = r.maximum ∙ sym (Alike-max_from none cs ds a);
  readable = Alike-readable s.read cs ds a r.readable;
  mapped = λ i p h.
      let (c, live, name, at) = r.mapped i p h in
      let (d, live', same) = Alike-live s.cells cells p s.container cs ds c a r.owns o at live in
      (d, live', same ∙ name, at);
}

-- A new value for the object behind one of the pointers.
pub Owns-replace :
    (cells : Cells) (ps : List ℕ) (p : ℕ) (qs : List ℕ) (cs : List ServerConnection)
    (c d : ServerConnection) (ds : List ServerConnection)
    → Distinct (ps ++ p ∷ qs)
    → Owns cells ps cs
    → Owns cells (p ∷ qs) (c ∷ ds)
    → Owns (update cells p (some d)) (ps ++ p ∷ qs) (cs ++ d ∷ ds)
Owns-replace cells ps p qs cs c d ds apart a b =
    let (_, right, left) = Distinct-split ps p qs apart in
    Owns-append (update cells p (some d)) ps (p ∷ qs) cs (d ∷ ds)
      (Owns-update cells p (some d) ps cs left a)
      (ground arith, Owns-update cells p (some d) qs ds right.0 b.1)

-- The place of a pointer among the objects.
pub Owns-at :
    (cells : Cells) (p : ℕ) (c : ServerConnection) (ps : List ℕ) (cs : List ServerConnection)
    → Owns cells ps cs
    → In p ps
    → cells p ≡ some c
    → (qs : List ℕ) × (rs : List ℕ) × (before : List ServerConnection) × (after : List
        ServerConnection)
      × (ps ≡ qs ++ p ∷ rs)
      × (cs ≡ before ++ c ∷ after)
      × Owns cells qs before
      × Owns cells (p ∷ rs) (c ∷ after)
Owns-at cells p c [] cs o i e = absurd i
Owns-at cells p c (q ∷ ps) [] o i e = absurd o
Owns-at cells p c (q ∷ ps) (d ∷ cs) o (inl here) e =
    ([], ps, [], cs, ground arith, ground (arith, o.0), tt, (e, o.1))
Owns-at cells p c (q ∷ ps) (d ∷ cs) o (inr i) e =
    let (qs, rs, before, after, f, g, a, b) = Owns-at cells p c ps cs o.1 i e in
    (q ∷ qs, rs, d ∷ before, after, ap (◌∷◌ q) f, ap (◌∷◌ d) g, (o.0, a), b)

-- A new value for the object at a pointer of the container, with its descriptor and identifier.
pub replace-Represents :
    {W : Type 0} (s : Store W) (cs : List ServerConnection) (p : ℕ) (c d : ServerConnection)
    → Represents s cs
    → In p s.container
    → s.cells p ≡ some c
    → d.socket ≡ c.socket
    → d.identifier ≡ c.identifier
    → (before : List ServerConnection) × (after : List ServerConnection) × (cs
        ≡ before ++ c ∷ after)
      × Represents (record s { cells = update s.cells p (some d) }) (before ++ d ∷ after)
replace-Represents s cs p c d r at live same name =
    let (qs, rs, before, after, f, g, a, b) = Owns-at s.cells p c s.container cs r.owns at live in
    (
      before,
      after,
      g,
      reshape s (update s.cells p (some d)) cs (before ++ d ∷ after) r
          (subst (λ ps. Owns (update s.cells p (some d)) ps (before ++ d ∷ after)) (sym f)
            (Owns-replace s.cells qs p rs before c d after (subst Distinct f r.pointers) a b))
          (subst (λ xs. Alike xs (before ++ d ∷ after)) (sym g)
            (Alike-replace before c d after same name)),
    )
