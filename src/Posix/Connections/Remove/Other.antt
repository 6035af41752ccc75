-- ===== src/Posix/Connections/Remove/Other.antt =====
-- Removal of a connection that does not stand last in the container.
use c11http.Common.Pointers.{
  Owns, Distinct, In, Owns-split, In-append_right, In-live, Distinct-split, update,
}
use mathlib.Core.List.{map-append}
use c11http.Common.{
  ℕ, ◌≡◌, refl, sym, ◌∙◌, ap, subst, inl, inr, Bool, true, false, Option, none, some, List, [], ◌∷◌,
  ◌++◌, arith, All, length, get_elem?-append_mid, fault,
}
use c11http.Posix.{Os}
use c11http.Posix.Connection.{ServerConnection}
use c11http.Posix.Connections.{
  Store, finder, remove_loop, max_loop, delete_cell, remove_server_connection,
}
use c11http.Posix.Connections.Represents.Lists.{Cells, sockets, Represents, finder-Fresh}
use c11http.Posix.Connections.Remove.Loop.{
  remove_loop-skip, remove_loop-shift, last_or, erase_at-length, max_loop-dead,
}

last_or-In : (x : ℕ) (y : ℕ) (ys : List ℕ) → In (last_or x (y ∷ ys)) (y ∷ ys)
unfolding last_or
last_or-In x y [] = inl refl
last_or-In x y (z ∷ ys) = inr (last_or-In y z ys)

-- One element between others goes, and the last one stays twice.
loop_other :
    (pred : ℕ → Option Bool) (qs : List ℕ) (p : ℕ) (rs : List ℕ)
    → All (λ q. pred q ≡ some false) qs
    → pred p ≡ some true
    → All (λ q. pred q ≡ some false) rs
    → remove_loop pred (qs ++ p ∷ rs) (qs ++ p ∷ rs) 0
      ≡ some ((qs ++ rs) ++ last_or p rs ∷ [], length (qs ++ rs))
unfolding remove_loop
loop_other pred qs p rs a h b =
    remove_loop-skip pred qs (p ∷ rs) [] a ∙ rw (h, remove_loop) (remove_loop-shift pred p rs qs b)

module _ {W : Type 0} (os : Os W) (s : Store W) (k : ℕ) (kept : List ℕ) (z : ℕ)
    (d : ServerConnection) where
  remove_faults :
      remove_loop (finder s k) s.container s.container 0 ≡ some (kept ++ z ∷ [], length kept)
      → s.cells z ≡ some d
      → max_loop (update s.cells z none) none kept ≡ none
      → (remove_server_connection os k s).0 ≡ fault
  unfolding remove_server_connection delete_cell
  remove_faults loop live dead =
      rw (loop, get_elem?-append_mid kept z [], live, live, erase_at-length kept z, dead)

Owns-two :
    (cells : Cells) (ps : List ℕ) (c d : ServerConnection) (cs : List ServerConnection)
    → Owns cells ps (c ∷ d ∷ cs)
    → (p : ℕ) × (q : ℕ) × (qs : List ℕ) × (ps ≡ p ∷ q ∷ qs)
      × (cells p ≡ some c)
      × Owns cells (q ∷ qs) (d ∷ cs)
Owns-two cells [] c d cs o = absurd o
Owns-two cells (p ∷ []) c d cs o = absurd o.1
Owns-two cells (p ∷ q ∷ qs) c d cs o = (p, q, qs, refl, o.0, o.1)

-- Where another connection stands behind the one with the descriptor, its removal is undefined
-- behaviour: the object that it deletes is the last one of the container, which stays in the
-- container and is read through right after.
pub remove_other :
    {W : Type 0} (os : Os W) (s : Store W) (before : List ServerConnection)
    (c next : ServerConnection) (after : List ServerConnection)
    → Represents s (before ++ c ∷ next ∷ after)
    → (remove_server_connection os c.socket s).0 ≡ fault
remove_other os s before c next after r =
    let (qs, ps, e, a, b) = Owns-split s.cells s.container before (c ∷ next ∷ after) r.owns in
    let (p, q, rs, e', live, o) = Owns-two s.cells ps c next after b in
    let (_, apart, alone) =
      Distinct-split (sockets before) c.socket (sockets (next ∷ after))
        (subst Distinct (map-append _ before (c ∷ next ∷ after)) r.descriptors) in
    let at_end = last_or-In p q rs in
    let (d, alive) = In-live s.cells (last_or p (q ∷ rs)) (q ∷ rs) (next ∷ after) o at_end in
    let loop =
      loop_other (finder s c.socket) qs p (q ∷ rs) (finder-Fresh s c.socket qs before a alone)
        (ground (arith, live)) (finder-Fresh s c.socket (q ∷ rs) (next ∷ after) o apart.0) in
    let whole = e ∙ ap (◌++◌ qs) e' in
    remove_faults os s c.socket (qs ++ q ∷ rs) (last_or p (q ∷ rs)) d
      (subst
        (λ xs.
          remove_loop (finder s c.socket) xs xs 0
          ≡ some ((qs ++ q ∷ rs) ++ last_or p (q ∷ rs) ∷ [], length (qs ++ q ∷ rs)))
        (sym whole) loop)
      alive
      (max_loop-dead _ none (last_or p (q ∷ rs)) (qs ++ q ∷ rs) (ground arith)
        (In-append_right _ qs (q ∷ rs) at_end))
