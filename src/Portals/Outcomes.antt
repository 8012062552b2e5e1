-- ===== src/Portals/Outcomes.antt =====
-- What a call of a portal service establishes of the store that it returns, or commits before it
-- raises: one rule for each way to build a call.
use astra_licensing_graph.Prelude.{◌≡◌, refl, ◌≢◌, Bool, true, false, Option, none, some, ℕ, arith}
use astra_licensing_graph.Portals.Rows.{
  BrowserSession, Caller, PortalDefinition, PortalReviewVersion, Store,
}
use astra_licensing_graph.Portals.Results.{
  Conflict, Error, Result, err, found, kept, ok, require, settled, ◌>>=◌, ◌>>◌,
}
use astra_licensing_graph.Portals.Governance.{
  active_browser_session, assert_user_authorized, revalidate_governance,
}

pub data Leaves (P : Store → Type 0) : Result Store → Type 0 where
  returned : {s : Store} → P s → Leaves P (ok s)
  failed : {e : Error} → Leaves P (err e)
  saved : {e : Error} {s : Store} → P s → Leaves P (kept e s)

pub Leaves-settled :
    {P : Store → Type 0} (s : Store) (r : Result Store) → Leaves P r → P s → P (settled s r)
unfolding settled
Leaves-settled s (ok s') (returned p) h = p
Leaves-settled s (err e) failed h = h
Leaves-settled s (kept e s') (saved p) h = p

-- A step that commits nothing before it raises.
abbrev pub IsPlain : {A : Type 0} → Result A → Type 0
IsPlain {A} m = (e : Error) (s : Store) → m ≢ kept e s

module _ {A : Type 0} {P : Store → Type 0} where
  pub Leaves-bind :
      (m : Result A) (f : A → Result Store)
      → IsPlain m
      → ((a : A) → m ≡ ok a → Leaves P (f a))
      → Leaves P (m >>= f)
  Leaves-bind (ok a) f plain h = h a refl
  Leaves-bind (err e) f plain h = failed
  Leaves-bind (kept e s) f plain h = absurd (plain e s refl)

  pub Leaves-found :
      (o : Option A) (e : Error) (f : A → Result Store)
      → ((a : A) → o ≡ some a → Leaves P (f a))
      → Leaves P (found o e >>= f)
  Leaves-found none e f h = failed
  Leaves-found (some a) e f h = h a refl

module _ {P : Store → Type 0} where
  pub Leaves-require :
      (b : Bool) (c : Conflict) (k : Result Store)
      → (b ≡ true → Leaves P k)
      → Leaves P (require b c >> k)
  Leaves-require true c k h = h refl
  Leaves-require false c k h = failed

module _ {P : Store → Type 0} where
  -- A check that commits nothing and passes.
  pub Leaves-check :
      (m : Result (Unit {0})) (k : Result Store) → IsPlain m → Leaves P k → Leaves P (m >> k)
  Leaves-check (ok a) k plain h = h
  Leaves-check (err e) k plain h = failed
  Leaves-check (kept e s) k plain h = absurd (plain e s refl)

pub revalidate_governance-IsPlain : (s : Store) (now : ℕ) → IsPlain (revalidate_governance s now)
unfolding revalidate_governance
revalidate_governance-IsPlain s now e s' h = ground arith

pub assert_user_authorized-IsPlain :
    (s : Store) (user now : ℕ) → IsPlain (assert_user_authorized s user now)
unfolding assert_user_authorized
assert_user_authorized-IsPlain s user now e s' h = ground arith

pub active_browser_session-IsPlain : (s : Store) (c : Caller) → IsPlain (active_browser_session s c)
unfolding active_browser_session
active_browser_session-IsPlain s c e s' h = ground arith

module _ {P : Store → Type 0} where
  pub Leaves-governed :
      (s : Store) (now : ℕ) (f : PortalDefinition × PortalReviewVersion → Result Store)
      → ((a : PortalDefinition × PortalReviewVersion) → Leaves P (f a))
      → Leaves P (revalidate_governance s now >>= f)
  Leaves-governed s now f h =
      Leaves-bind (revalidate_governance s now) f (revalidate_governance-IsPlain s now) (λ a _. h a)

  pub Leaves-session :
      (s : Store) (c : Caller) (f : BrowserSession → Result Store)
      → ((b : BrowserSession) → Leaves P (f b))
      → Leaves P (active_browser_session s c >>= f)
  Leaves-session s c f h =
      Leaves-bind (active_browser_session s c) f (active_browser_session-IsPlain s c) (λ b _. h b)

  pub Leaves-authorized :
      (s : Store) (user now : ℕ) (k : Result Store)
      → Leaves P k
      → Leaves P (assert_user_authorized s user now >> k)
  Leaves-authorized s user now k h =
      Leaves-check (assert_user_authorized s user now) k (assert_user_authorized-IsPlain s user now)
        h

pub ruleset call_rules = (
  Leaves-authorized, Leaves-found, Leaves-governed, Leaves-require, Leaves-session, failed,
  returned,
)
