-- ===== src/Posix/Connections/Remove/Loop.antt =====
-- `std::remove_if` over a vector in which at most one element is to go, and the loop over the maximum.
use c11http.Common.Pointers.{Owns, In}
use mathlib.Core.List.{append_assoc, append-nil}
use c11http.Common.{
  ℕ, suc, ◌≡◌, refl, ap, inl, inr, Bool, false, Option, none, some, List, [], ◌∷◌, ◌++◌, arith, All,
  length, length-snoc, set, set-append_mid, erase_at, Option-cases,
}
use c11http.Posix.Connection.{ServerConnection}
use c11http.Posix.Connections.{remove_loop, max_loop, max_fd}
use c11http.Posix.Connections.Represents.Lists.{Cells, max_from}

-- The last of a list that begins with `x`.
unfoldable pub last_or : ℕ → List ℕ → ℕ
last_or x [] = x
last_or x (y ∷ ys) = last_or y ys

module _ (pred : ℕ → Option Bool) where
  keep_one :
      (p : ℕ) (rest vec : List ℕ) (result : ℕ)
      → pred p ≡ some false
      → remove_loop pred (p ∷ rest) vec result
        ≡ remove_loop pred rest (set vec result p) (suc result)
  unfolding remove_loop
  keep_one p rest vec result e = rw (e, remove_loop)

  -- Elements that stay, before any has gone, are moved to where they are.
  pub remove_loop-skip :
      (ps rest pre : List ℕ)
      → All (λ p. pred p ≡ some false) ps
      → remove_loop pred (ps ++ rest) (pre ++ (ps ++ rest)) (length pre)
        ≡ remove_loop pred rest ((pre ++ ps) ++ rest) (length (pre ++ ps))
  unfolding remove_loop
  remove_loop-skip [] rest pre a = rw append-nil
  remove_loop-skip (p ∷ ps) rest pre a =
      rw (keep_one p _ _ _ a.0, set-append_mid pre p p (ps ++ rest))
        (rw (append_assoc pre (p ∷ []) (ps ++ rest), append_assoc pre (p ∷ []) ps, length-snoc) at
          (remove_loop-skip ps rest (pre ++ p ∷ []) a.1))

  -- After the one that goes, each is moved one place down, and the last stays behind itself.
  pub remove_loop-shift :
      (x : ℕ) (rest pre : List ℕ)
      → All (λ p. pred p ≡ some false) rest
      → remove_loop pred rest (pre ++ x ∷ rest) (length pre)
        ≡ some ((pre ++ rest) ++ last_or x rest ∷ [], length (pre ++ rest))
  unfolding remove_loop last_or
  remove_loop-shift x [] pre a = rw append-nil
  remove_loop-shift x (y ∷ ys) pre a =
      rw (keep_one y ys _ _ a.0, set-append_mid pre x y (y ∷ ys))
        (rw (append_assoc pre (y ∷ []) (y ∷ ys), append_assoc pre (y ∷ []) ys, length-snoc) at
          (remove_loop-shift y ys (pre ++ y ∷ []) a.1))

pub erase_at-length : (xs : List ℕ) (x : ℕ) → erase_at (xs ++ x ∷ []) (length xs) ≡ xs
erase_at-length [] x = refl
erase_at-length (y ∷ xs) x = ap (◌∷◌ y) (erase_at-length xs x)

pub max_loop-max_from :
    (cells : Cells) (acc : Option ℕ) (ps : List ℕ) (cs : List ServerConnection)
    → Owns cells ps cs
    → max_loop cells acc ps ≡ some (max_from acc cs)
unfolding max_loop
max_loop-max_from cells acc [] [] o = refl
max_loop-max_from cells acc [] (c ∷ cs) o = absurd o
max_loop-max_from cells acc (p ∷ ps) [] o = absurd o
max_loop-max_from cells acc (p ∷ ps) (c ∷ cs) o =
    ground (arith, max_loop-max_from cells (some (max_fd acc c.socket)) ps cs o.1)

-- The loop reads through every pointer, so it faults if one of them is deleted.
pub max_loop-dead :
    (cells : Cells) (acc : Option ℕ) (p : ℕ) (ps : List ℕ)
    → cells p ≡ none
    → In p ps
    → max_loop cells acc ps ≡ none
unfolding max_loop
max_loop-dead cells acc p [] e i = absurd i
max_loop-dead cells acc p (q ∷ ps) e (inl here) = ground arith
max_loop-dead cells acc p (q ∷ ps) e (inr i) = elim (Option-cases (cells q)) [
  | inl d ↦ rw (d, max_loop)
  | inr (c, live) ↦ rw (live, max_loop) (max_loop-dead cells (some (max_fd acc c.socket)) p ps e i)
]
