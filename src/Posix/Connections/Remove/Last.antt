-- ===== src/Posix/Connections/Remove/Last.antt =====
-- Removal of the connection that stands last in the container.
use c11http.Common.Pointers.{
  Owns, Fresh, Distinct, In, Fresh-ne, Owns-snoc, Owns-update, In-append, Distinct-split, update,
}
use mathlib.Core.List.{map-append}
use c11http.Common.{
  ℕ, ◌<◌, ◌≡◌, ◌≢◌, refl, sym, ◌∙◌, subst, inl, inr, Bool, true, false, Option, none, some, List,
  [], ◌∷◌, ◌++◌, arith, All, All-split, length, get_elem?, get_elem?-append_mid, erase_at, ok,
}
use c11http.Common.Assoc.{find, erase, find-erase_self, find-erase_ne}
use c11http.Callback.{Bytes, Bytes-discrete}
use c11http.Posix.{Os, fd_clear}
use c11http.Posix.Socket.{close_socket}
use c11http.Posix.Connection.{ServerConnection}
use c11http.Posix.Connections.{
  Store, finder, remove_loop, max_loop, delete_cell, remove_server_connection,
}
use c11http.Posix.Connections.Represents.Lists.{
  sockets, max_from, IsMapped, Represents, finder-Fresh, readable-clear,
}
use c11http.Posix.Connections.Remove.Loop.{remove_loop-skip, erase_at-length, max_loop-max_from}

loop_last :
    (pred : ℕ → Option Bool) (qs : List ℕ) (p : ℕ)
    → All (λ q. pred q ≡ some false) qs
    → pred p ≡ some true
    → remove_loop pred (qs ++ p ∷ []) (qs ++ p ∷ []) 0 ≡ some (qs ++ p ∷ [], length qs)
unfolding remove_loop
loop_last pred qs p a h = remove_loop-skip pred qs (p ∷ []) [] a ∙ rw (h, remove_loop)

module _ {W : Type 0} (os : Os W) (s : Store W) (cs : List ServerConnection) (c : ServerConnection)
    (qs : List ℕ) (p : ℕ) where
  -- The store after the removal.
  unfoldable pub removed : Store W
  removed = record s {
    env = record s.env { world = close_socket os c.socket s.env.world };
    cells = update s.cells p none;
    container = qs;
    mapping = erase Bytes-discrete c.identifier s.mapping;
    read = fd_clear c.socket s.read;
    fd_max = max_from none cs;
  }

  remove_lem :
      remove_loop (finder s c.socket) s.container s.container 0 ≡ some (s.container, length qs)
      → get_elem? s.container (length qs) ≡ some p
      → erase_at s.container (length qs) ≡ qs
      → s.cells p ≡ some c
      → max_loop (update s.cells p none) none qs ≡ some (max_from none cs)
      → remove_server_connection os c.socket s ≡ (ok tt, removed)
  unfolding remove_server_connection delete_cell removed
  remove_lem loop at rest live top = rw (loop, at, live, live, rest, top)

  other_mapped :
      Represents s (cs ++ c ∷ [])
      → s.container ≡ qs ++ p ∷ []
      → s.cells p ≡ some c
      → Fresh p qs
      → (i : Bytes) (q : ℕ) → find Bytes-discrete i removed.mapping ≡ some q
      → c.identifier ≢ i
      → (d : ServerConnection) × (removed.cells q ≡ some d)
        × (d.identifier ≡ i)
        × In q removed.container
  unfolding removed
  other_mapped r e live fresh i q h other =
      let before = sym (find-erase_ne Bytes-discrete c.identifier i s.mapping other) ∙ h in
      let (d, there, name, at) = r.mapped i q before in
      elim (In-append q qs (p ∷ []) (subst (In q) e at)) [
        | inl kept ↦ let apart = Fresh-ne p q qs fresh kept in (d, ground arith, name, kept)
        | inr (inl gone) ↦ absurd (other (ground (arith, there, live, gone, name)))
        | inr (inr none_left) ↦ elim none_left [ ]
      ]

  removed-IsMapped :
      Represents s (cs ++ c ∷ [])
      → s.container ≡ qs ++ p ∷ []
      → s.cells p ≡ some c
      → Fresh p qs
      → IsMapped removed
  unfolding removed
  removed-IsMapped r e live fresh i q h = elim (Bytes-discrete c.identifier i) [
    | yes same ↦ ground (arith, h, same, find-erase_self Bytes-discrete c.identifier s.mapping)
    | no other ↦ other_mapped r e live fresh i q h other
  ]

  removed-Represents :
      Represents s (cs ++ c ∷ [])
      → s.container ≡ qs ++ p ∷ []
      → Owns s.cells qs cs
      → s.cells p ≡ some c
      → Represents removed cs
  removed-Represents r e owns live =
      let (dq, _, fresh) = Distinct-split qs p [] (subst Distinct e r.pointers) in
      let (ds, _, alone) =
        Distinct-split (sockets cs) c.socket []
          (subst Distinct (map-append _ cs (c ∷ [])) r.descriptors) in
      unfold removed in
      record {
        owns = Owns-update s.cells p none qs cs fresh owns;
        pointers = dq;
        descriptors = ds;
        allocated = (All-split _ qs (p ∷ []) (subst (All (λ x. x < s.next_cell)) e r.allocated)).0;
        maximum = refl;
        readable = readable-clear s.read c.socket cs alone (All-split _ cs (c ∷ []) r.readable).0;
        mapped = unfold removed in removed-IsMapped r e live fresh;
      }

-- The store that the removal of the last connection leaves.
pub remove_last_removed :
    {W : Type 0} (os : Os W) (s : Store W) (cs : List ServerConnection) (c : ServerConnection)
    → Represents s (cs ++ c ∷ [])
    → (qs : List ℕ) × (p : ℕ) × (remove_server_connection os c.socket s
        ≡ (ok tt, removed os s cs c qs p))
      × Represents (removed os s cs c qs p) cs
remove_last_removed os s cs c r =
    let (qs, p, e, owns, live) = Owns-snoc s.cells s.container cs c r.owns in
    let (_, _, alone) =
      Distinct-split (sockets cs) c.socket []
        (subst Distinct (map-append _ cs (c ∷ [])) r.descriptors) in
    let (_, _, fresh) = Distinct-split qs p [] (subst Distinct e r.pointers) in
    let pass = finder-Fresh s c.socket qs cs owns alone in
    let loop =
      subst (λ xs. remove_loop (finder s c.socket) xs xs 0 ≡ some (xs, length qs)) (sym e)
        (loop_last (finder s c.socket) qs p pass (ground (arith, live))) in
    (
      qs,
      p,
      remove_lem os s cs c qs p loop
          (subst (λ xs. get_elem? xs (length qs) ≡ some p) (sym e) (get_elem?-append_mid qs p []))
          (subst (λ xs. erase_at xs (length qs) ≡ qs) (sym e) (erase_at-length qs p)) live
          (max_loop-max_from (update s.cells p none) none qs cs
            (Owns-update s.cells p none qs cs fresh owns)),
      removed-Represents os s cs c qs p r e owns live,
    )

-- Where the connection with the descriptor stands last, its removal returns, closes its socket,
-- takes it out of the read set and the mapping, and leaves a store that stands for the others.
pub remove_last :
    {W : Type 0} (os : Os W) (s : Store W) (cs : List ServerConnection) (c : ServerConnection)
    → Represents s (cs ++ c ∷ [])
    → (t : Store W) × (remove_server_connection os c.socket s ≡ (ok tt, t))
      × Represents t cs
      × (t.env ≡ record s.env { world = close_socket os c.socket s.env.world })
      × (t.read c.socket ≡ false)
      × (find Bytes-discrete c.identifier t.mapping ≡ none)
remove_last os s cs c r =
    let (qs, p, done, shape) = remove_last_removed os s cs c r in
    (
      removed os s cs c qs p,
      done,
      shape,
      unfold removed in refl,
      unfold removed in ground arith,
      unfold removed in find-erase_self Bytes-discrete c.identifier s.mapping,
    )
