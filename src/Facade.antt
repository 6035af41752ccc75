-- ===== src/Facade.antt =====
-- server/Server.cpp and client/Client.cpp: what the classes that users derive from have in common. Each
-- holds a platform's implementation and a callback, whose class passes on what has been received.
pub mod Server
pub mod Client
use c11http.Common.{
  ℕ, ◌≡◌, refl, Bool, true, List, [], ◌∷◌, ◌++◌, replicate, ap, Outcome, fault, M, if◌then◌else◌,
  schedule,
}
use c11http.Callback.{
  Bytes, Event, send_complete, send_failed, receive_complete, receive_unnamed, connected,
  disconnected,
}

-- The five methods of `PlatformCallback`, which has none for bytes without a name: the calls of the user's `receiveComplete` that they make.
abbrev pub passed_on : Event → List (Bytes × Bytes)
passed_on (send_complete i count) = []
passed_on (send_failed i message) = []
passed_on (receive_unnamed bytes) = []
passed_on (receive_complete i bytes) = (i, bytes) ∷ []
passed_on (connected i) = []
passed_on (disconnected i) = []

-- What the user's `receiveComplete` has been called with, oldest first.
abbrev pub heard : List Event → List (Bytes × Bytes)
heard [] = []
heard (e ∷ log) = passed_on e ++ heard log

-- One object: the platform's, which is behind a pointer of a pointer, and whether `mServer` (or
-- `mClient`) and `mCallback` lead anywhere.
pub record Facade (S : Type 0) : Type 0 where
  pub platform : S
  pub has_platform : Bool
  pub has_callback : Bool

-- A call through `mServer` or `mClient`.
abbrev pub through {ℓ} : {S : Type 0} {A : Type ℓ} → M S A → M (Facade S) A
through m f =
    if f.has_platform
    then (let (o, s) = m f.platform in (o, record f { platform = s }))
    else (fault, f)

-- The thread in `waitForEvents` goes on, for some of its stretches, without the object.
abbrev pub goes_on : {S P : Type 0} → (P → M S P) → ℕ → P → M S P
goes_on pump n = schedule (λ (_ : Unit {0}). pump) (replicate n tt)
