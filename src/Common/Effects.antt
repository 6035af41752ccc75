-- ===== src/Common/Effects.antt =====
-- How a C++ call ends, and the state that it leaves behind: a value, an exception, or undefined
-- behaviour. An exception keeps the state as it is at the throw.
use mathlib.Core.Bool.{Bool, true, false}
use mathlib.Core.Option.{Option, none, some}

-- The exceptions of the source, one for each message that it throws with.
pub data Error : Type 0 where
  number_of_workers promise_already_satisfied future_already_retrieved : Error
  socket_creation reuse_address bind_failed listen_failed wakeup_pipe select_failed : Error
  accept_failed poll_failed recv_failed remote_closing connection_not_found : Error
  not_presentation_format inet_pton_failed connect_failed : Error
  overlap_alloc create_event_failed client_not_found wait_failed : Error
  accept_ex_pointer accept_ex_failed prepare_receive_failed : Error
  wsa_startup_failed get_addr_info_failed no_addresses : Error
  invalid_handle not_io_pending : Error

-- `fault` is undefined behaviour, such as a read through a deleted pointer.
pub data Outcome {ℓ} (A : Type ℓ) : Type ℓ where
  ok : A → Outcome A
  throw : Error → Outcome A
  fault : Outcome A

abbrev pub M {ℓ κ} : Type ℓ → Type κ → Type (ℓ ⊔ κ)
M S A = S → Outcome A × S

abbrev pub pure {ℓ κ} : {S : Type ℓ} {A : Type κ} → A → M S A
pure a s = (ok a, s)

abbrev pub raise {ℓ κ} : {S : Type ℓ} {A : Type κ} → Error → M S A
raise e s = (throw e, s)

abbrev pub crash {ℓ κ} : {S : Type ℓ} {A : Type κ} → M S A
crash s = (fault, s)

abbrev pub and_then {ℓ κ μ} :
    {S : Type ℓ} {A : Type κ} {B : Type μ} → (A → M S B) → Outcome A × S → Outcome B × S
and_then f (ok a, s) = f a s
and_then f (throw e, s) = (throw e, s)
and_then f (fault, s) = (fault, s)

infixl 5 ◌>>=◌ ◌>>◌
abbrev pub ◌>>=◌ {ℓ κ μ} : {S : Type ℓ} {A : Type κ} {B : Type μ} → M S A → (A → M S B) → M S B
◌>>=◌ m f s = and_then f (m s)

abbrev pub ◌>>◌ {ℓ κ} : {S : Type ℓ} {B : Type κ} → M S (Unit {0}) → M S B → M S B
m >> k = m >>= λ _. k

abbrev pub get {ℓ} : {S : Type ℓ} → M S S
get s = (ok s, s)

abbrev pub modify {ℓ} : {S : Type ℓ} → (S → S) → M S (Unit {0})
modify f s = (ok tt, f s)

-- A value that must be there: reading through a null or a deleted pointer is a fault.
abbrev pub demand {ℓ κ} : {S : Type ℓ} {A : Type κ} → Option A → M S A
demand none = crash
demand (some a) = pure a

abbrev pub throw_if {ℓ} : {S : Type ℓ} → Bool → Error → M S (Unit {0})
throw_if true e = raise e
throw_if false e = pure tt

abbrev pub when {ℓ} : {S : Type ℓ} → Bool → M S (Unit {0}) → M S (Unit {0})
when true m = m
when false m = pure tt

-- try { m } catch (std::runtime_error) { h }
abbrev pub handled {ℓ κ} : {S : Type ℓ} {A : Type κ} → M S A → Outcome A × S → Outcome A × S
handled h (ok a, s) = (ok a, s)
handled h (throw e, s) = h s
handled h (fault, s) = (fault, s)

abbrev pub try_catch {ℓ κ} : {S : Type ℓ} {A : Type κ} → M S A → M S A → M S A
try_catch m h s = handled h (m s)

-- A call of what always returns.
abbrev pub call {ℓ κ} : {S : Type ℓ} {A : Type κ} → (S → A × S) → M S A
call f s = (ok (f s).0, (f s).1)

abbrev pub or_raise {ℓ κ} : {S : Type ℓ} {A : Type κ} → Option A → Error → M S A
or_raise none e = raise e
or_raise (some a) e = pure a
