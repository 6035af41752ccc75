-- ===== src/Messages.antt =====
-- Messages as the queues of both posix ends hold them: byte strings in a row.
use mathlib.Core.List.{append_assoc, append-nil, reverse-cons}
use c11http.Common.{◌≡◌, refl, sym, ap, ◌∙◌, List, [], ◌∷◌, ◌++◌, reverse}
use c11http.Callback.{Bytes}

-- The messages of a list in a row.
abbrev pub joined : List Bytes → Bytes
joined [] = []
joined (m ∷ ms) = m ++ joined ms

joined-append : (ms ns : List Bytes) → joined (ms ++ ns) ≡ joined ms ++ joined ns
joined-append [] ns = refl
joined-append (m ∷ ms) ns = rw (joined-append ms ns, append_assoc)

joined-reverse :
    (m : Bytes) (ms : List Bytes) → joined (reverse (m ∷ ms)) ≡ joined (reverse ms) ++ m
joined-reverse m ms =
    ap joined (reverse-cons m ms)
    ∙ joined-append (reverse ms) (m ∷ [])
    ∙ ap (◌++◌ (joined (reverse ms))) (append-nil m)

-- A message in front of some bytes, and the later ones in reverse before it.
pub joined-reverse_cons :
    (m : Bytes) (ms : List Bytes) (rest : Bytes)
    → joined (reverse ms) ++ (m ++ rest) ≡ joined (reverse (m ∷ ms)) ++ rest
joined-reverse_cons m ms rest =
    sym (append_assoc (joined (reverse ms)) m rest)
    ∙ ap (λ b. b ++ rest) (sym (joined-reverse m ms))
