-- ===== src/Common/Schedules.antt =====
-- Machines that stop where other threads come in: a run is a list of acts, each the machine's own step
-- or a call from outside, from one point of the machine to the next.
use mathlib.Core.Path.{◌≡◌, refl, ap, ◌∙◌, fun_ext}
use mathlib.Core.List.{List, [], ◌∷◌}
use c11http.Common.Effects.{Outcome, ok, throw, fault, M, pure, and_then, ◌>>=◌}

module _ {S P : Type 0} where
  -- A call from outside leaves the machine where it is. Its exception stays with the thread that made
  -- it; undefined behaviour ends the run.
  abbrev pub beside : P → Outcome (Unit {0}) × S → Outcome P × S
  beside p (ok _, s) = (ok p, s)
  beside p (throw e, s) = (ok p, s)
  beside p (fault, s) = (fault, s)

  abbrev pub schedule : {A : Type 0} → (A → P → M S P) → List A → P → M S P
  schedule step [] p = pure p
  schedule step (a ∷ acts) p = step a p >>= schedule step acts

  module _ {ℓ} (Q : Outcome P × S → Type ℓ) where
    and_then-keeps :
        (f : P → M S P) (r : Outcome P × S)
        → ((p : P) (s : S) → Q (ok p, s) → Q (f p s))
        → Q r
        → Q (and_then f r)
    and_then-keeps f (ok q, t) rest k = rest q t k
    and_then-keeps f (throw e, t) rest k = k
    and_then-keeps f (fault, t) rest k = k

    -- What each act keeps of every result, a whole run keeps.
    pub schedule-keeps :
        {A : Type 0} (step : A → P → M S P)
        → ((a : A) (p : P) (s : S) → Q (ok p, s) → Q (step a p s))
        → (acts : List A) (p : P) (s : S) → Q (ok p, s)
        → Q (schedule step acts p s)
    schedule-keeps step keep [] p s h = h
    schedule-keeps step keep (a ∷ acts) p s h =
        and_then-keeps (schedule step acts) (step a p s) (schedule-keeps step keep acts)
          (keep a p s h)

    -- The same for a run whose first act brings about what the later ones keep.
    pub schedule-starts :
        {A : Type 0} (step : A → P → M S P)
        → ((a : A) (p : P) (s : S) → Q (ok p, s) → Q (step a p s))
        → (a : A) (acts : List A) (p : P) (s : S) → Q (step a p s)
        → Q (schedule step (a ∷ acts) p s)
    schedule-starts step keep a acts p s h =
        and_then-keeps (schedule step acts) (step a p s) (schedule-keeps step keep acts) h

  -- A property of the state that a call keeps is kept beside it.
  pub beside-keeps {ℓ} :
      (I : S → Type ℓ) (p : P) (r : Outcome (Unit {0}) × S) → I r.1 → I (beside p r).1
  beside-keeps I p (ok _, s) h = h
  beside-keeps I p (throw e, s) h = h
  beside-keeps I p (fault, s) h = h

  -- Steps that agree give runs that agree.
  pub schedule_congr :
      {A : Type 0} (f g : A → P → M S P)
      → ((a : A) (p : P) (s : S) → f a p s ≡ g a p s)
      → (acts : List A) (p : P) (s : S) → schedule f acts p s ≡ schedule g acts p s
  schedule_congr f g same [] p s = refl
  schedule_congr f g same (a ∷ acts) p s =
      ap (and_then (schedule f acts)) (same a p s)
      ∙ ap (λ k. and_then k (g a p s))
          (fun_ext (λ q. fun_ext (λ t. schedule_congr f g same acts q t)))
