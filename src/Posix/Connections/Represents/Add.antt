-- ===== src/Posix/Connections/Represents/Add.antt =====
-- `Connections::addServerConnection` of a new object.
use c11http.Common.Pointers.{
  Fresh, In, Owns-append, Owns-update, In-append_left, In-append_right, In-lt, Distinct-snoc,
  Fresh-of_below, update,
}
use c11http.Common.{
  ℕ, suc, ◌<◌, ◌≡◌, ◌≢◌, refl, sym, ◌∙◌, inl, true, none, some, List, [], ◌∷◌, ◌++◌, arith, ok, All,
  All-append, ◌>>=◌,
}
use mathlib.Core.List.{map-append}
use c11http.Common.Assoc.{find, assign, find-assign_self, find-assign_ne}
use c11http.Callback.{Bytes, Bytes-discrete}
use c11http.Posix.{Os, fd_add}
use c11http.Posix.Connection.{ServerConnection}
use c11http.Posix.Connections.{Store, max_fd, new_cell, add_server_connection}
use c11http.Posix.Connections.Represents.Lists.{
  sockets, max_from, IsMapped, Represents, max_from-append,
}

module _ {W : Type 0} (os : Os W) (s : Store W) (cs : List ServerConnection)
    (c : ServerConnection) where
  unfoldable pub added : Store W
  added = record s {
    cells = update s.cells s.next_cell (some c);
    next_cell = suc s.next_cell;
    container = s.container ++ s.next_cell ∷ [];
    mapping = assign Bytes-discrete c.identifier s.next_cell s.mapping;
    fd_max = some (max_fd s.fd_max c.socket);
    read = fd_add c.socket s.read;
  }

  pub add_lem :
      c.socket < os.fd_setsize → (new_cell c >>= add_server_connection os) s ≡ (ok tt, added)
  unfolding new_cell add_server_connection added
  add_lem fits = ground arith

  below_suc : (n : ℕ) (ps : List ℕ) → All (λ p. p < n) ps → All (λ p. p < suc n) ps
  below_suc n [] b = tt
  below_suc n (p ∷ ps) b = (omega arith, below_suc n ps b.1)

  still_readable :
      (ds : List ServerConnection)
      → All (λ d. s.read d.socket ≡ true) ds
      → All (λ d. fd_add c.socket s.read d.socket ≡ true) ds
  still_readable [] r = tt
  still_readable (d ∷ ds) r = (ground arith, still_readable ds r.1)

  self_mapped :
      (i : Bytes) (p : ℕ)
      → find Bytes-discrete i added.mapping ≡ some p
      → c.identifier ≡ i
      → (d : ServerConnection) × (added.cells p ≡ some d)
        × (d.identifier ≡ i)
        × In p added.container
  unfolding added
  self_mapped i p e same =
      let here : s.next_cell ≡ p =
        ground (arith, e, same, find-assign_self Bytes-discrete i s.next_cell s.mapping) in
      (c, ground arith, same, In-append_right p s.container (s.next_cell ∷ []) (inl (sym here)))

  other_mapped :
      Represents s cs
      → (i : Bytes) (p : ℕ) → find Bytes-discrete i added.mapping ≡ some p
      → c.identifier ≢ i
      → (d : ServerConnection) × (added.cells p ≡ some d)
        × (d.identifier ≡ i)
        × In p added.container
  unfolding added
  other_mapped r i p e other =
      let before =
        sym (find-assign_ne Bytes-discrete c.identifier i s.next_cell s.mapping other) ∙ e in
      let (d, live, name, at) = r.mapped i p before in
      let old = In-lt p s.next_cell s.container at r.allocated in
      (d, ground arith, name, In-append_left p s.container (s.next_cell ∷ []) at)

  added-IsMapped : Represents s cs → IsMapped added
  added-IsMapped r i p e = elim (Bytes-discrete c.identifier i) [
    | yes same ↦ self_mapped i p e same
    | no other ↦ other_mapped r i p e other
  ]

  added-maximum : Represents s cs → added.fd_max ≡ max_from none (cs ++ c ∷ [])
  unfolding added
  added-maximum r = rw (max_from-append none cs (c ∷ []), ← r.maximum)

  pub added-Represents :
      Represents s cs → Fresh c.socket (sockets cs) → Represents added (cs ++ c ∷ [])
  unfolding added
  added-Represents r f =
      let fresh = Fresh-of_below s.next_cell s.container r.allocated in
      record {
        owns =
            Owns-append (update s.cells s.next_cell (some c)) s.container (s.next_cell ∷ []) cs
              (c ∷ []) (Owns-update s.cells s.next_cell (some c) s.container cs fresh r.owns)
              (ground arith, tt);
        pointers = Distinct-snoc s.container s.next_cell r.pointers fresh;
        descriptors =
            rw (map-append _ cs (c ∷ [])) (Distinct-snoc (sockets cs) c.socket r.descriptors f);
        allocated =
            All-append _ s.container _ (below_suc s.next_cell s.container r.allocated)
              (omega arith, tt);
        maximum = added-maximum r;
        readable = All-append _ cs _ (still_readable cs r.readable) (ground arith, tt);
        mapped = added-IsMapped r;
      }

  -- Added to a store that stands for some connections, a new object with a descriptor of its own, below
  -- FD_SETSIZE,
  -- comes behind them: the call returns, the new store stands for the longer list, and neither the
  -- system nor the callback has noticed.
  pub add_new-Represents :
      Represents s cs
      → Fresh c.socket (sockets cs)
      → c.socket < os.fd_setsize
      → (t : Store W) × ((new_cell c >>= add_server_connection os) s ≡ (ok tt, t))
        × Represents t (cs ++ c ∷ [])
        × (t.env ≡ s.env)
  add_new-Represents r f fits = (added, add_lem fits, added-Represents r f, unfold added in refl)
