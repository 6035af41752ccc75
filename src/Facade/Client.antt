-- ===== src/Facade/Client.antt =====
-- client/Client.cpp: the class `Client` over a platform's client.
pub mod OnPosix
use c11http.Common.{
  ℕ, ◌≡◌, refl, ap, Bool, true, false, List, Outcome, ok, throw, fault, M, modify, pure, and_then,
  ◌>>=◌, ◌>>◌, ◌⊎◌, inl, inr, Error, arith, if◌then◌else◌, ◌≢◌,
}
use c11http.Callback.{Bytes, Event}
use c11http.Facade.{Facade, heard, through, goes_on}

-- What the class calls of a platform's client, and the log of what that tells its callback.
pub record PlatformClient (S P : Type 0) : Type 0 where
  pub wait_for_events : P → M S P  -- to the next point of its loop
  pub send : Bytes → M S (Unit {0})
  pub disconnect : M S (Unit {0})
  pub log : S → List Event

-- What the class relies on: the loop tells nothing after a `disconnect`, also if that ends by an
-- exception.
pub record Silent {S P : Type 0} (ops : PlatformClient S P) : Type 0 where
  pub tells_nothing :
      (n : ℕ) (p : P) (s : S)
      → ops.log (goes_on ops.wait_for_events n p (ops.disconnect s).1).1 ≡ ops.log s

-- `Client::Client`, with the platform's constructor, which is given a callback.
unfoldable pub new_client :
    {W S : Type 0} → (Bool → Bytes → ℕ → Bytes → M W S) → Bytes → ℕ → Bytes → M W (Facade S)
new_client make hostname port message = do
  s ← make true hostname port message
  pure (record { platform = s; has_platform = true; has_callback = true })

module _ {S P : Type 0} (ops : PlatformClient S P) where
  unfoldable pub wait_for_events : P → M (Facade S) P
  wait_for_events p = through (ops.wait_for_events p)

  unfoldable pub send_data_to_server : Bytes → M (Facade S) (Unit {0})
  send_data_to_server bytes = through (ops.send bytes)

  unfoldable pub disconnect : M (Facade S) (Unit {0})
  disconnect = through ops.disconnect

  -- `Client::~Client`. The class `PlatformClient` has no destructor: the platform's client stays. An
  -- exception of `disconnect` leaves the destructor.
  unfoldable pub destroy : M (Facade S) (Unit {0})
  destroy = do
    through ops.disconnect
    modify (λ f. record f { has_platform = false })
    modify (λ f. record f { has_callback = false })

  -- How a destructor ends, by how the platform's `disconnect` ends: with the callback deleted, or by
  -- the same exception with the callback still there.
  abbrev pub Ends : Outcome (Unit {0}) → Outcome (Unit {0}) × Facade S → Type 0
  Ends (ok _) r = (r.0 ≡ ok tt) × (r.1.has_callback ≡ false)
  Ends (throw e) r = (r.0 ≡ throw e) × (r.1.has_callback ≡ true)
  Ends fault r = r.0 ≡ fault

  destroy-Ends :
      (f : Facade S) (o : Outcome (Unit {0}))
      → f.has_platform ≡ true
      → f.has_callback ≡ true
      → (ops.disconnect f.platform).0 ≡ o
      → Ends o (destroy f)
  unfolding destroy
  destroy-Ends f (ok _) there cb e = (ground arith, ground arith)
  destroy-Ends f (throw x) there cb e = (ground arith, ground arith)
  destroy-Ends f fault there cb e = ground arith

  platform_left :
      (f : Facade S)
      → f.has_platform ≡ true
      → (destroy f).1.platform ≡ (ops.disconnect f.platform).1
  unfolding destroy
  platform_left f there = ground arith

  -- The destructor of an object ends as the `disconnect` of its platform's client does, with the
  -- callback deleted unless that is by an exception, and a thread that is still in `waitForEvents` then
  -- calls the user's method no more, if the platform's loop keeps silent after a `disconnect`.
  pub destroy_client_silences :
      (laws : Silent ops) (n : ℕ) (p : P) (f : Facade S)
      → f.has_platform ≡ true
      → f.has_callback ≡ true
      → Ends (ops.disconnect f.platform).0 (destroy f)
        × (heard (ops.log (goes_on ops.wait_for_events n p (destroy f).1.platform).1)
            ≡ heard (ops.log f.platform))
  destroy_client_silences laws n p f there cb = (
    destroy-Ends f (ops.disconnect f.platform).0 there cb refl,
    rw (platform_left f there) (ap heard (laws.tells_nothing n p f.platform)),
  )
