-- ===== src/Facade/Server.antt =====
-- server/Server.cpp: the class `Server` over a platform's server.
pub mod OnPosix
pub mod OnWindows
use c11http.Common.{
  ℕ, ◌≡◌, refl, sym, ap, ◌∙◌, Bool, true, false, List, [], ◌∷◌, Outcome, ok, throw, fault, M, get,
  modify, pure, and_then, ◌>>=◌, ◌>>◌, arith, if◌then◌else◌, beside,
}
use c11http.Callback.{Bytes, Event}
use c11http.Facade.{Facade, heard, through, goes_on}

-- What the class calls of a platform's server, and the log of what that tells its callback.
pub record PlatformServer (S P : Type 0) : Type 0 where
  pub wait_for_events : P → M S P  -- to the next point of its loop
  pub send : Bytes → Bytes → M S (Unit {0})
  pub broadcast : Bytes → M S (Unit {0})
  pub shutdown : M S (Unit {0})
  pub log : S → List Event

-- What the class relies on, of a server that is as its platform keeps it: a `shutdown` does not end by
-- an exception, and the loop tells nothing after it.
pub record Silent {S P : Type 0} (ops : PlatformServer S P) (Valid : S → Type 0) : Type 0 where
  pub shuts_down : (s : S) → Valid s → (ops.shutdown s).0 ≡ ok tt
  pub tells_nothing :
      (n : ℕ) (p : P) (s : S)
      → Valid s
      → ops.log (goes_on ops.wait_for_events n p (ops.shutdown s).1).1 ≡ ops.log s

-- `Server::Server`, with the platform's constructor, which is given a callback.
unfoldable pub new_server : {W S : Type 0} → (Bool → M W S) → M W (Facade S)
new_server make = do
  s ← make true
  pure (record { platform = s; has_platform = true; has_callback = true })

module _ {S P : Type 0} (ops : PlatformServer S P) where
  unfoldable pub wait_for_events : P → M (Facade S) P
  wait_for_events p = through (ops.wait_for_events p)

  unfoldable pub send : Bytes → Bytes → M (Facade S) (Unit {0})
  send bytes identifier = through (ops.send bytes identifier)

  unfoldable pub broadcast : Bytes → M (Facade S) (Unit {0})
  broadcast bytes = through (ops.broadcast bytes)

  unfoldable pub shutdown : M (Facade S) (Unit {0})
  shutdown = through ops.shutdown

  -- `Server::~Server`. The class `PlatformServer` has no destructor: the platform's server stays.
  unfoldable pub destroy : M (Facade S) (Unit {0})
  destroy = do
    through ops.shutdown
    modify (λ f. record f { has_platform = false })
    modify (λ f. record f { has_callback = false })

  -- The destructor of an object, over a server that is as its platform keeps it, ends with the callback
  -- deleted, and a thread that is still in `waitForEvents` then calls the user's method no more, if
  -- the platform's `shutdown` ends and its loop keeps silent after that.
  pub destroy_silences :
      {Valid : S → Type 0} (laws : Silent ops Valid) (n : ℕ) (p : P) (f : Facade S)
      → f.has_platform ≡ true
      → Valid f.platform
      → (g : Facade S) × (destroy f ≡ (ok tt, g))
        × (g.has_callback ≡ false)
        × (heard (ops.log (goes_on ops.wait_for_events n p g.platform).1)
            ≡ heard (ops.log f.platform))
  unfolding destroy
  destroy_silences laws n p f there valid = (
    record { platform = (ops.shutdown f.platform).1; has_platform = false; has_callback = false },
    ground (arith, there, laws.shuts_down f.platform valid),
    refl,
    ap heard (laws.tells_nothing n p f.platform valid),
  )
