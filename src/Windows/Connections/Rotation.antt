-- ===== src/Windows/Connections/Rotation.antt =====
-- `Connections::getHandleArray`: the rotation of the container.
use mathlib.Core.List.{append_assoc}
use c11http.Common.{
  ℕ, zero, suc, ◌≡◌, refl, sym, ap, subst, ◌∙◌, inl, inr, List, [], ◌∷◌, ◌++◌, length, ok, M,
  and_then, ◌>>=◌,
}
use c11http.Common.Pointers.{
  Owns, Owns-append, Distinct, Distinct-snoc, In, In-append_left, In-append_right,
}
use c11http.Windows.Connections.{ServerConnection, Store, rotate, events_of, get_handle_array}
use c11http.Windows.Connections.Represents.{events, Represents}

events-snoc :
    (cs : List ServerConnection) (c : ServerConnection)
    → events (cs ++ c ∷ []) ≡ events cs ++ c.event ∷ []
events-snoc [] c = refl
events-snoc (d ∷ cs) c = ap (◌∷◌ d.event) (events-snoc cs c)

-- One more call of `getHandleArray` than the first number.
abbrev pub nth_array : {W : Type 0} → ℕ → ℕ → M (Store W) (List ℕ)
nth_array zero h = get_handle_array h
nth_array (suc n) h = get_handle_array h >>= λ _. nth_array n h

Distinct-rotate : (ps : List ℕ) → Distinct ps → Distinct (rotate ps)
Distinct-rotate [] d = tt
Distinct-rotate (p ∷ ps) d = Distinct-snoc ps p d.1 d.0

Distinct-events-rotate :
    (cs : List ServerConnection) → Distinct (events cs) → Distinct (events (rotate cs))
Distinct-events-rotate [] d = tt
Distinct-events-rotate (c ∷ cs) d =
    subst Distinct (sym (events-snoc cs c)) (Distinct-snoc (events cs) c.event d.1 d.0)

In-rotate : (p : ℕ) (ps : List ℕ) → In p ps → In p (rotate ps)
In-rotate p [] i = absurd i
In-rotate p (q ∷ ps) (inl e) = In-append_right p ps (q ∷ []) (inl e)
In-rotate p (q ∷ ps) (inr i) = In-append_left p ps (q ∷ []) i

module _ {W : Type 0} where
  events_of-Owns :
      (s : Store W) (ps : List ℕ) (cs : List ServerConnection)
      → Owns s.cells ps cs
      → events_of ps s ≡ (ok (events cs), s)
  unfolding events_of
  events_of-Owns s [] [] o = refl
  events_of-Owns s [] (c ∷ cs) o = absurd o
  events_of-Owns s (p ∷ ps) [] o = absurd o
  events_of-Owns s (p ∷ ps) (c ∷ cs) o = rw (o.0, events_of-Owns s ps cs o.1)

  abbrev pub rotated : Store W → Store W
  rotated s = record s { container = rotate s.container }

  Owns-rotate :
      (s : Store W) (ps : List ℕ) (cs : List ServerConnection)
      → Owns s.cells ps cs
      → Owns s.cells (rotate ps) (rotate cs)
  Owns-rotate s [] [] o = tt
  Owns-rotate s [] (c ∷ cs) o = absurd o
  Owns-rotate s (p ∷ ps) [] o = absurd o
  Owns-rotate s (p ∷ ps) (c ∷ cs) o = Owns-append s.cells ps (p ∷ []) cs (c ∷ []) o.1 (o.0, tt)

  pub rotate-Represents :
      (s : Store W) (cs : List ServerConnection)
      → Represents s cs
      → Represents (rotated s) (rotate cs)
  rotate-Represents s cs r = record {
    owns = Owns-rotate s s.container cs r.owns;
    pointers = Distinct-rotate s.container r.pointers;
    handles = Distinct-events-rotate cs r.handles;
    mapped = λ i p e.
        let (c, live, same, member) = r.mapped i p e in
        (c, live, same, In-rotate p s.container member);
  }

  pub get_handle_array_lem :
      (h : ℕ) (s : Store W) (cs : List ServerConnection)
      → Represents s cs
      → get_handle_array h s ≡ (ok (h ∷ events (rotate cs)), rotated s)
  unfolding get_handle_array
  get_handle_array_lem h s cs r = rw (
      events_of-Owns (rotated s) (rotate s.container) (rotate cs)
        (Owns-rotate s s.container cs r.owns))

  -- The handles are that of the server and those of all connections, the first connection having
  -- gone behind the others: so, of a connection with `before` connections on its way to the front,
  -- as many calls and one more bring it directly behind the server, and as many calls as there are
  -- connections restore their order. No call changes a connection, the system or the callback.
  pub nth_array-Represents :
      (h : ℕ) (before : List ServerConnection) (s : Store W) (b : ServerConnection)
      (rest : List ServerConnection)
      → Represents s (b ∷ before ++ rest)
      → (t : Store W) × (nth_array (length before) h s ≡ (ok (h ∷ events (rest ++ b ∷ before)), t))
        × Represents t (rest ++ b ∷ before)
        × (t.env ≡ s.env)
        × (t.cells ≡ s.cells)
  nth_array-Represents h [] s b rest r = (
    rotated s,
    get_handle_array_lem h s (b ∷ rest) r,
    rotate-Represents s (b ∷ rest) r,
    refl,
    refl,
  )
  nth_array-Represents h (c ∷ before) s b rest r =
      let next =
        subst (Represents (rotated s)) (append_assoc (c ∷ before) rest (b ∷ []))
          (rotate-Represents s (b ∷ c ∷ before ++ rest) r) in
      let (t, run, shape, env, cells) =
        nth_array-Represents h before (rotated s) c (rest ++ b ∷ []) next in
      let order = append_assoc rest (b ∷ []) (c ∷ before) in
      (
        t,
        ap (and_then (λ _. nth_array (length before) h))
              (get_handle_array_lem h s (b ∷ c ∷ before ++ rest) r)
            ∙ run
            ∙ ap (λ x. (ok (h ∷ events x), t)) order,
        subst (Represents t) order shape,
        env,
        cells,
      )
