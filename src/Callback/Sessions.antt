-- ===== src/Callback/Sessions.antt =====
-- server/posix/Callback.h: what the calls of a callback mean together. A log is a session if names are
-- connected and disconnected again, and all else is about names that are connected at that time.
use c11http.Common.{
  ℕ, ◌+◌, ◌<◌, ◌≡◌, refl, sym, ap, subst, Bool, true, false, List, [], ◌∷◌, ◌++◌, arith,
  if◌then◌else◌,
}
use mathlib.Core.List.{append_assoc, append-nil}
use c11http.Callback.{
  Bytes, Bytes-discrete, Event, send_complete, send_failed, receive_complete, receive_unnamed,
  connected, disconnected,
}

-- A log, and the names that are connected at its end.
pub data Session : List Bytes → List Event → Type 0 where
  start : Session [] []
  connects :
      {is js : List Bytes} {before log : List Event} (i : Bytes)
      → Session is before
      → js ≡ is ++ i ∷ []
      → log ≡ before ++ connected i ∷ []
      → Session js log
  disconnects :
      {is js : List Bytes} {before log : List Event} (left right : List Bytes) (i : Bytes)
      → Session is before
      → is ≡ left ++ i ∷ right
      → js ≡ left ++ right
      → log ≡ before ++ disconnected i ∷ []
      → Session js log
  receives :
      {is : List Bytes} {before log : List Event} (left right : List Bytes) (i bytes : Bytes)
      → Session is before
      → is ≡ left ++ i ∷ right
      → log ≡ before ++ receive_complete i bytes ∷ []
      → Session is log
  sends :
      {is : List Bytes} {before log : List Event} (left right : List Bytes) (i : Bytes) (n : ℕ)
      → Session is before
      → is ≡ left ++ i ∷ right
      → log ≡ before ++ send_complete i n ∷ []
      → Session is log

-- A call that is made only if something holds.
pub maybe_told-Session :
    {is : List Bytes} (told : Bool) (log : List Event) (e : Event)
    → Session is log
    → Session is (log ++ e ∷ [])
    → Session is (if told then log ++ e ∷ [] else log)
maybe_told-Session true log e h k = k
maybe_told-Session false log e h k = h

pub told-Session :
    {is : List Bytes} (told : Bool) (log : List Event) (e : Event)
    → told ≡ true
    → Session is (log ++ e ∷ [])
    → Session is (if told then log ++ e ∷ [] else log)
told-Session told log e same h = rw same h

abbrev pub same : Bytes → Bytes → ℕ
same i j = elim (Bytes-discrete i j) [ yes e ↦ 1 | no n ↦ 0 ]

-- How often a name is connected, how often a log tells that it came, and how often that it left.
abbrev pub times : Bytes → List Bytes → ℕ
times i [] = 0
times i (j ∷ js) = same i j + times i js

abbrev came : Bytes → Event → ℕ
came i (connected j) = same i j
came i (disconnected j) = 0
came i (receive_complete j bytes) = 0
came i (receive_unnamed bytes) = 0
came i (send_complete j n) = 0
came i (send_failed j bytes) = 0

abbrev left_by : Bytes → Event → ℕ
left_by i (connected j) = 0
left_by i (disconnected j) = same i j
left_by i (receive_complete j bytes) = 0
left_by i (receive_unnamed bytes) = 0
left_by i (send_complete j n) = 0
left_by i (send_failed j bytes) = 0

abbrev pub comings : Bytes → List Event → ℕ
comings i [] = 0
comings i (e ∷ log) = came i e + comings i log

abbrev pub leavings : Bytes → List Event → ℕ
leavings i [] = 0
leavings i (e ∷ log) = left_by i e + leavings i log

times-append : (i : Bytes) (is js : List Bytes) → times i (is ++ js) ≡ times i is + times i js
times-append i [] js = omega arith
times-append i (k ∷ is) js = omega (arith, times-append i is js)

comings-append :
    (i : Bytes) (log more : List Event) → comings i (log ++ more) ≡ comings i log + comings i more
comings-append i [] more = omega arith
comings-append i (e ∷ log) more = omega (arith, comings-append i log more)

leavings-append :
    (i : Bytes) (log more : List Event)
    → leavings i (log ++ more) ≡ leavings i log + leavings i more
leavings-append i [] more = omega arith
leavings-append i (e ∷ log) more = omega (arith, leavings-append i log more)

same_refl : (i : Bytes) → same i i ≡ 1
same_refl i = elim (Bytes-discrete i i) as (λ d. ◌≡◌ {A = ℕ} (elim d [ yes e ↦ 1 | no n ↦ 0 ]) 1) [
  | yes e ↦ refl
  | no n ↦ absurd (n refl)
]

-- Each name has come as often as it has left and is connected.
pub Session-balance :
    {is : List Bytes} {log : List Event}
    → Session is log
    → (i : Bytes) → comings i log ≡ leavings i log + times i is
Session-balance start i = refl
Session-balance (connects {is} {js} {before} {log} j h e f) i =
    rw (e, f)
      (omega (
        arith,
        Session-balance h i,
        comings-append i before (connected j ∷ []),
        leavings-append i before (connected j ∷ []),
        times-append i is (j ∷ []),
      ))
Session-balance (disconnects {is} {js} {before} {log} left right j h e g f) i =
    rw (g, f)
      (omega (
        arith,
        Session-balance h i,
        ap (times i) e,
        comings-append i before (disconnected j ∷ []),
        leavings-append i before (disconnected j ∷ []),
        times-append i left right,
        times-append i left (j ∷ right),
      ))
Session-balance (receives {is} {before} {log} left right j bytes h e f) i = rw f (
    omega (
      arith,
      Session-balance h i,
      comings-append i before (receive_complete j bytes ∷ []),
      leavings-append i before (receive_complete j bytes ∷ []),
    ))
Session-balance (sends {is} {before} {log} left right j n h e f) i = rw f (
    omega (
      arith,
      Session-balance h i,
      comings-append i before (send_complete j n ∷ []),
      leavings-append i before (send_complete j n ∷ []),
    ))

-- A name that is connected has come once more, at least, than it has left.
here_now :
    {is : List Bytes} {log : List Event} (left right : List Bytes) (i : Bytes)
    → Session is log
    → is ≡ left ++ i ∷ right
    → leavings i log < comings i log
here_now left right i h e =
    omega (arith, Session-balance h i, ap (times i) e, times-append i left (i ∷ right), same_refl i)

-- An event has its place behind others: what is told of a name is told while it has come once more, at
-- least, than it has left. No failure of a send is ever told, and no
-- bytes without a name.
abbrev InPlace : List Event → Event → Type 0
InPlace earlier (connected i) = Unit {0}
InPlace earlier (disconnected i) = leavings i earlier < comings i earlier
InPlace earlier (receive_complete i bytes) = leavings i earlier < comings i earlier
InPlace earlier (receive_unnamed bytes) = ⊥
InPlace earlier (send_complete i n) = leavings i earlier < comings i earlier
InPlace earlier (send_failed i bytes) = ⊥

-- Every event of a log is in place behind what was told earlier.
abbrev pub InTurn : List Event → List Event → Type 0
InTurn earlier [] = Unit {0}
InTurn earlier (e ∷ log) = InPlace earlier e × InTurn (earlier ++ e ∷ []) log

InTurn-snoc :
    (earlier log : List Event) (e : Event)
    → InTurn earlier log
    → InPlace (earlier ++ log) e
    → InTurn earlier (log ++ e ∷ [])
InTurn-snoc earlier [] e h p = (subst (λ l. InPlace l e) (append-nil earlier) p, tt)
InTurn-snoc earlier (x ∷ log) e (q, h) p = (
  q,
  InTurn-snoc (earlier ++ x ∷ []) log e h
      (subst (λ l. InPlace l e) (sym (append_assoc earlier (x ∷ []) log)) p),
)

pub Session-InTurn : {is : List Bytes} {log : List Event} → Session is log → InTurn [] log
Session-InTurn start = tt
Session-InTurn (connects {is} {js} {before} j h e f) =
    rw f (InTurn-snoc [] before (connected j) (Session-InTurn h) tt)
Session-InTurn (disconnects {is} {js} {before} l r j h e g f) =
    rw f (InTurn-snoc [] before (disconnected j) (Session-InTurn h) (here_now l r j h e))
Session-InTurn (receives {is} {before} l r j bytes h e f) =
    rw f (InTurn-snoc [] before (receive_complete j bytes) (Session-InTurn h) (here_now l r j h e))
Session-InTurn (sends {is} {before} l r j n h e f) =
    rw f (InTurn-snoc [] before (send_complete j n) (Session-InTurn h) (here_now l r j h e))
