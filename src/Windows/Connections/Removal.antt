-- ===== src/Windows/Connections/Removal.antt =====
-- `Connections::removeServerConnection` by handle: `std::find_if` gives the connection itself.
use mathlib.Core.List.{map-append}
use c11http.Common.{
  ℕ, ◌≡◌, ◌≢◌, refl, sym, ap, subst, ◌∙◌, inl, inr, Bool, true, false, Option, none, some, List, [],
  ◌∷◌, ◌++◌, arith, All, ok, erase_at,
}
use c11http.Common.Assoc.{find, erase, find-erase_self, find-erase_ne}
use c11http.Common.Pointers.{
  Owns, Owns-append, Owns-update, Fresh, Fresh-append, Fresh-split, Distinct, Distinct-split, In,
  In-append, In-append_left, In-append_right, update,
}
use c11http.Callback.{Bytes, Bytes-discrete}
use c11http.Posix.Connections.{find_if}
use c11http.Windows.{Winsock}
use c11http.Windows.Socket.{destroy_overlap}
use c11http.Windows.Connections.{
  ServerConnection, Store, finder, index_of, delete_cell, remove_by_handle,
}
use c11http.Windows.Connections.Represents.{events, Represents}

pub find_if-mid :
    (pred : ℕ → Option Bool) (qs : List ℕ) (p : ℕ) (rs : List ℕ)
    → All (λ q. pred q ≡ some false) qs
    → pred p ≡ some true
    → find_if pred (qs ++ p ∷ rs) ≡ some (some p)
unfolding find_if
find_if-mid pred [] p rs a h = rw h
find_if-mid pred (q ∷ qs) p rs a h = rw (a.0, find_if-mid pred qs p rs a.1 h)

erase_at-index_of :
    (qs : List ℕ) (p : ℕ) (rs : List ℕ)
    → Fresh p qs
    → erase_at (qs ++ p ∷ rs) (index_of p (qs ++ p ∷ rs)) ≡ qs ++ rs
unfolding index_of
erase_at-index_of [] p rs f = ground arith
erase_at-index_of (q ∷ qs) p rs f = ground (arith, erase_at-index_of qs p rs f.1)

Distinct-drop_mid :
    (qs : List ℕ) (p : ℕ) (rs : List ℕ) → Distinct (qs ++ p ∷ rs) → Distinct (qs ++ rs)
Distinct-drop_mid [] p rs d = d.1
Distinct-drop_mid (q ∷ qs) p rs d =
    let (a, b) = Fresh-split q qs (p ∷ rs) d.0 in
    (Fresh-append q qs rs a b.1, Distinct-drop_mid qs p rs d.1)

pub Owns-mid :
    (cells : ℕ → Option ServerConnection) (ps : List ℕ) (before : List ServerConnection)
    (c : ServerConnection) (after : List ServerConnection)
    → Owns cells ps (before ++ c ∷ after)
    → (qs : List ℕ) × (p : ℕ) × (rs : List ℕ) × (ps ≡ qs ++ p ∷ rs)
      × Owns cells qs before
      × (cells p ≡ some c)
      × Owns cells rs after
Owns-mid cells (p ∷ ps) [] c after o = ([], p, ps, refl, tt, o.0, o.1)
Owns-mid cells [] [] c after o = absurd o
Owns-mid cells [] (b ∷ before) c after o = absurd o
Owns-mid cells (q ∷ ps) (b ∷ before) c after o =
    let (qs, p, rs, e, left, live, right) = Owns-mid cells ps before c after o.1 in
    (q ∷ qs, p, rs, ap (◌∷◌ q) e, (o.0, left), live, right)

pub finder-Fresh :
    {W : Type 0} (s : Store W) (h : ℕ) (ps : List ℕ) (cs : List ServerConnection)
    → Owns s.cells ps cs
    → Fresh h (events cs)
    → All (λ p. finder s h p ≡ some false) ps
finder-Fresh s h [] cs o f = tt
finder-Fresh s h (p ∷ ps) [] o f = absurd o
finder-Fresh s h (p ∷ ps) (c ∷ cs) o f = (ground arith, finder-Fresh s h ps cs o.1 f.1)

module _ {W : Type 0} (ws : Winsock W) (s : Store W) (c : ServerConnection) (qs : List ℕ) (p : ℕ)
    (rs : List ℕ) where
  -- The store after the removal.
  unfoldable pub removed : Store W
  removed = record s {
    env = record s.env {
      world = destroy_overlap ws c.event (ws.close_socket c.socket s.env.world);
    };
    cells = update s.cells p none;
    mapping = erase Bytes-discrete c.identifier s.mapping;
    container = qs ++ rs;
  }

  pub remove_lem :
      find_if (finder s c.event) s.container ≡ some (some p)
      → s.cells p ≡ some c
      → erase_at s.container (index_of p s.container) ≡ qs ++ rs
      → remove_by_handle ws c.event s ≡ (ok tt, removed)
  unfolding remove_by_handle delete_cell removed
  remove_lem found live rest = rw (found, live, live, rest)

  module _ (before after : List ServerConnection) (r : Represents s (before ++ c ∷ after))
      (e : s.container ≡ qs ++ p ∷ rs) (left : Owns s.cells qs before) (live : s.cells p ≡ some c)
      (right : Owns s.cells rs after) where
    apart : Distinct qs × Distinct (p ∷ rs) × Fresh p qs
    apart = Distinct-split qs p rs (subst Distinct e r.pointers)

    pub remove_mid : remove_by_handle ws c.event s ≡ (ok tt, removed)
    remove_mid =
        let (_, _, alone) =
          Distinct-split (events before) c.event (events after)
            (subst Distinct (map-append _ before (c ∷ after)) r.handles) in
        let pass = finder-Fresh s c.event qs before left alone in
        remove_lem
          (subst (λ xs. find_if (finder s c.event) xs ≡ some (some p)) (sym e)
            (find_if-mid (finder s c.event) qs p rs pass (ground (arith, live))))
          live
          (subst (λ xs. erase_at xs (index_of p xs) ≡ qs ++ rs) (sym e)
            (erase_at-index_of qs p rs apart.2))

    In-kept : (q : ℕ) → q ≢ p → In q s.container → In q (qs ++ rs)
    In-kept q other i = elim (In-append q qs (p ∷ rs) (subst (In q) e i)) [
      | inl a ↦ In-append_left q qs rs a
      | inr (inl same) ↦ absurd (other same)
      | inr (inr b) ↦ In-append_right q qs rs b
    ]

    other_mapped :
        (i : Bytes) (q : ℕ)
        → find Bytes-discrete i s.mapping ≡ some q
        → c.identifier ≢ i
        → (d : ServerConnection) × (update s.cells p none q ≡ some d)
          × (d.identifier ≡ i)
          × In q (qs ++ rs)
    other_mapped i q h other =
        let (d, there, name, at) = r.mapped i q h in
        let apart : q ≢ p = λ same. other (ground (arith, there, live, same, name)) in
        (d, ground arith, name, In-kept q apart at)

    pub removed-Represents : Represents removed (before ++ after)
    unfolding removed
    removed-Represents = record {
      owns =
          Owns-append (update s.cells p none) qs rs before after
            (Owns-update s.cells p none qs before apart.2 left)
            (Owns-update s.cells p none rs after apart.1.0 right);
      pointers = Distinct-drop_mid qs p rs (subst Distinct e r.pointers);
      handles = subst Distinct (sym (map-append _ before after)) (
          Distinct-drop_mid (events before) c.event (events after)
            (subst Distinct (map-append _ before (c ∷ after)) r.handles));
      mapped = λ i q h. elim (Bytes-discrete c.identifier i) [
        | yes same ↦ ground (arith, h, same, find-erase_self Bytes-discrete c.identifier s.mapping)
        | no other ↦
            other_mapped i q (sym (find-erase_ne Bytes-discrete c.identifier i s.mapping other) ∙ h)
              other
      ];
    }

-- The connection whose handle is given is removed wherever it stands: the call returns, closes its
-- socket and then its event, frees its structure, takes its identifier out of the mapping, and leaves
-- a store that stands for the others in their order.
pub remove_by_handle-Represents :
    {W : Type 0} (ws : Winsock W) (s : Store W) (before : List ServerConnection)
    (c : ServerConnection) (after : List ServerConnection)
    → Represents s (before ++ c ∷ after)
    → (t : Store W) × (remove_by_handle ws c.event s ≡ (ok tt, t))
      × Represents t (before ++ after)
      × (t.env ≡ record s.env {
        world = destroy_overlap ws c.event (ws.close_socket c.socket s.env.world);
      })
      × (find Bytes-discrete c.identifier t.mapping ≡ none)
remove_by_handle-Represents ws s before c after r =
    let (qs, p, rs, e, left, live, right) = Owns-mid s.cells s.container before c after r.owns in
    (
      removed ws s c qs p rs,
      remove_mid ws s c qs p rs before after r e left live right,
      removed-Represents ws s c qs p rs before after r e left live right,
      unfold removed in refl,
      unfold removed in find-erase_self Bytes-discrete c.identifier s.mapping,
    )
