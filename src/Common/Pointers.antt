-- ===== src/Common/Pointers.antt =====
-- Heaps of C++ objects: pointers are numbers, and vectors of pointers reach lists of objects.
use Prim.Native.Nat.{ℕ, ◌<◌}
use mathlib.Core.Path.{◌≡◌, refl, ap}
use mathlib.Core.Logic.{◌≢◌, ◌⊎◌, inl, inr}
use mathlib.Core.Option.{Option, some}
use mathlib.Core.List.{List, [], ◌∷◌, ◌++◌}
use native.Mathlib.Omega.{arith}
use c11http.Common.Tests.{◌==◌, if◌then◌else◌}
use c11http.Common.Lists.{All}

abbrev pub update : {A : Type 0} → (ℕ → Option A) → ℕ → Option A → ℕ → Option A
update cells p v q = if p == q then v else cells q

-- The pointers reach these objects, one by one.
abbrev pub Owns : {A : Type 0} → (ℕ → Option A) → List ℕ → List A → Type 0
Owns cells [] [] = Unit {0}
Owns cells [] (c ∷ cs) = ⊥
Owns cells (p ∷ ps) [] = ⊥
Owns cells (p ∷ ps) (c ∷ cs) = (cells p ≡ some c) × Owns cells ps cs

abbrev pub Fresh : ℕ → List ℕ → Type 0
Fresh p [] = Unit {0}
Fresh p (q ∷ qs) = (p ≢ q) × Fresh p qs

abbrev pub Distinct : List ℕ → Type 0
Distinct [] = Unit {0}
Distinct (p ∷ ps) = Fresh p ps × Distinct ps

abbrev pub In : ℕ → List ℕ → Type 0
In p [] = ⊥
In p (q ∷ qs) = (p ≡ q) ⊎ In p qs

module _ {A : Type 0} (cells : ℕ → Option A) where
  pub Owns-append :
      (ps qs : List ℕ) (cs ds : List A)
      → Owns cells ps cs
      → Owns cells qs ds
      → Owns cells (ps ++ qs) (cs ++ ds)
  Owns-append [] qs [] ds o k = k
  Owns-append [] qs (c ∷ cs) ds o k = absurd o
  Owns-append (p ∷ ps) qs [] ds o k = absurd o
  Owns-append (p ∷ ps) qs (c ∷ cs) ds o k = (o.0, Owns-append ps qs cs ds o.1 k)

  -- A list that reaches two lists of objects is split as they are.
  pub Owns-split :
      (ps : List ℕ) (cs ds : List A)
      → Owns cells ps (cs ++ ds)
      → (qs : List ℕ) × (rs : List ℕ) × (ps ≡ qs ++ rs) × Owns cells qs cs × Owns cells rs ds
  Owns-split ps [] ds o = ([], ps, refl, tt, o)
  Owns-split [] (c ∷ cs) ds o = absurd o
  Owns-split (p ∷ ps) (c ∷ cs) ds o =
      let (qs, rs, e, a, b) = Owns-split ps cs ds o.1 in (p ∷ qs, rs, ap (◌∷◌ p) e, (o.0, a), b)

  pub Owns-update :
      (q : ℕ) (v : Option A) (ps : List ℕ) (cs : List A)
      → Fresh q ps
      → Owns cells ps cs
      → Owns (update cells q v) ps cs
  Owns-update q v [] [] f o = tt
  Owns-update q v [] (c ∷ cs) f o = absurd o
  Owns-update q v (p ∷ ps) [] f o = absurd o
  Owns-update q v (p ∷ ps) (c ∷ cs) f o = (ground arith, Owns-update q v ps cs f.1 o.1)

  pub In-live :
      (q : ℕ) (ps : List ℕ) (cs : List A)
      → Owns cells ps cs
      → In q ps
      → (c : A) × (cells q ≡ some c)
  In-live q [] cs o i = absurd i
  In-live q (p ∷ ps) [] o i = absurd o
  In-live q (p ∷ ps) (c ∷ cs) o (inl e) = (c, rw e o.0)
  In-live q (p ∷ ps) (c ∷ cs) o (inr i) = In-live q ps cs o.1 i

pub In-append_left : (p : ℕ) (ps qs : List ℕ) → In p ps → In p (ps ++ qs)
In-append_left p (q ∷ ps) qs (inl e) = inl e
In-append_left p (q ∷ ps) qs (inr i) = inr (In-append_left p ps qs i)
In-append_left p [] qs i = absurd i

pub In-append_right : (p : ℕ) (ps qs : List ℕ) → In p qs → In p (ps ++ qs)
In-append_right p [] qs i = i
In-append_right p (q ∷ ps) qs i = inr (In-append_right p ps qs i)

pub In-append : (p : ℕ) (ps qs : List ℕ) → In p (ps ++ qs) → In p ps ⊎ In p qs
In-append p [] qs i = inr i
In-append p (q ∷ ps) qs (inl e) = inl (inl e)
In-append p (q ∷ ps) qs (inr i) = elim (In-append p ps qs i) [ inl a ↦ inl (inr a) | inr b ↦ inr b ]

pub Fresh-append : (p : ℕ) (ps qs : List ℕ) → Fresh p ps → Fresh p qs → Fresh p (ps ++ qs)
Fresh-append p [] qs f g = g
Fresh-append p (q ∷ ps) qs f g = (f.0, Fresh-append p ps qs f.1 g)

pub Fresh-split : (p : ℕ) (ps qs : List ℕ) → Fresh p (ps ++ qs) → Fresh p ps × Fresh p qs
Fresh-split p [] qs f = (tt, f)
Fresh-split p (q ∷ ps) qs f = let (a, b) = Fresh-split p ps qs f.1 in ((f.0, a), b)

pub Distinct-snoc : (ps : List ℕ) (p : ℕ) → Distinct ps → Fresh p ps → Distinct (ps ++ p ∷ [])
Distinct-snoc [] p d f = (tt, tt)
Distinct-snoc (q ∷ ps) p d f =
    (Fresh-append q ps (p ∷ []) d.0 ((λ e. f.0 (ground arith)), tt), Distinct-snoc ps p d.1 f.1)

-- The members of the first part are not those of the second.
pub Distinct-split :
    (ps : List ℕ) (p : ℕ) (qs : List ℕ)
    → Distinct (ps ++ p ∷ qs)
    → Distinct ps × Distinct (p ∷ qs) × Fresh p ps
Distinct-split [] p qs d = (tt, d, tt)
Distinct-split (q ∷ ps) p qs d =
    let (a, b, f) = Distinct-split ps p qs d.1 in
    let (g, h) = Fresh-split q ps (p ∷ qs) d.0 in ((g, a), b, ((λ e. h.0 (ground arith)), f))

pub Fresh-of_below : (n : ℕ) (ps : List ℕ) → All (λ p. p < n) ps → Fresh n ps
Fresh-of_below n [] b = tt
Fresh-of_below n (p ∷ ps) b = ((λ e. omega arith), Fresh-of_below n ps b.1)

pub In-lt : (p n : ℕ) (ps : List ℕ) → In p ps → All (λ q. q < n) ps → p < n
In-lt p n [] i b = absurd i
In-lt p n (q ∷ ps) (inl e) b = rw e b.0
In-lt p n (q ∷ ps) (inr i) b = In-lt p n ps i b.1

pub Fresh-ne : (p q : ℕ) (ps : List ℕ) → Fresh p ps → In q ps → p ≢ q
Fresh-ne p q [] f i = absurd i
Fresh-ne p q (r ∷ ps) f (inl e) = λ same. f.0 (ground arith)
Fresh-ne p q (r ∷ ps) f (inr i) = Fresh-ne p q ps f.1 i

-- Pointers to a list of objects that ends in one more.
pub Owns-snoc :
    {A : Type 0} (cells : ℕ → Option A) (ps : List ℕ) (cs : List A) (c : A)
    → Owns cells ps (cs ++ c ∷ [])
    → (qs : List ℕ) × (p : ℕ) × (ps ≡ qs ++ p ∷ []) × Owns cells qs cs × (cells p ≡ some c)
Owns-snoc cells (p ∷ []) [] c o = ([], p, refl, tt, o.0)
Owns-snoc cells (p ∷ q ∷ ps) [] c o = absurd o.1
Owns-snoc cells [] [] c o = absurd o
Owns-snoc cells [] (d ∷ cs) c o = absurd o
Owns-snoc cells (p ∷ ps) (d ∷ cs) c o =
    let (qs, q, e, a, b) = Owns-snoc cells ps cs c o.1 in (p ∷ qs, q, ap (◌∷◌ p) e, (o.0, a), b)
