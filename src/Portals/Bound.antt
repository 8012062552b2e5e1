-- ===== src/Portals/Bound.antt =====
-- A do block of a portal service that returned: every step of it returned.
use astra_licensing_graph.Prelude.{◌≡◌, refl, Bool, true, false, not, Option, none, some}
use astra_licensing_graph.Portals.Rows.{Store}
use astra_licensing_graph.Portals.Results.{
  Conflict, Error, Result, err, found, kept, ok, require, ◌>>=◌, ◌>>◌,
}

pub ok-injective : {a b : Store} → ok a ≡ ok b → a ≡ b
ok-injective e = cc

pub not-false : (b : Bool) → not b ≡ true → b ≡ false
not-false true h = absurd (cc)
not-false false h = refl

module _ {A B : Type 0} where
  pub bind-ok :
      {end : B} (call : Result A) (next : A → Result B)
      → call >>= next ≡ ok end
      → (value : A) × (call ≡ ok value) × (next value ≡ ok end)
  bind-ok (ok value) next returned = (value, refl, returned)
  bind-ok (err e) next returned = absurd (cc)
  bind-ok (kept e s) next returned = absurd (cc)

  pub found-ok :
      (o : Option A) (e : Error) (f : A → Result B) {b : B}
      → found o e >>= f ≡ ok b
      → (a : A) × (o ≡ some a) × (f a ≡ ok b)
  found-ok none e f h = absurd (cc)
  found-ok (some a) e f h = (a, refl, h)

module _ {B : Type 0} where
  pub check-ok :
      (m : Result (Unit {0})) (k : Result B) {b : B} → m >> k ≡ ok b → (m ≡ ok tt) × (k ≡ ok b)
  check-ok (ok tt) k h = (refl, h)
  check-ok (err e) k h = absurd (cc)
  check-ok (kept e s) k h = absurd (cc)

  pub require-ok :
      (b : Bool) (c : Conflict) (k : Result B) {a : B}
      → require b c >> k ≡ ok a
      → (b ≡ true) × (k ≡ ok a)
  require-ok true c k h = (refl, h)
  require-ok false c k h = absurd (cc)
