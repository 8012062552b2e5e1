-- ===== src/Prelude/Lists.antt =====
-- Lists measured and searched by native numbers and Boolean tests.
use Prim.Native.Nat.{ℕ, zero, suc, ◌+◌}
use mathlib.Core.Path.{◌≡◌, sym, ap}
use mathlib.Core.Logic.{◌⊎◌, ◌↔◌, inl, inr}
use mathlib.Core.Bool.{Bool, true, false, ◌&&◌, ◌||◌}
use mathlib.Core.List.{List, [], ◌∷◌, ◌++◌}
use mathlib.Core.Option.{Option, none, some}
use native.Mathlib.Omega.{arith}
use astra_licensing_graph.Prelude.Tests.{Bool-cases, if◌then◌else◌}

module _ {ℓ} {A : Type ℓ} where
  abbrev pub length : List A → ℕ
  length [] = 0
  length (x ∷ xs) = suc (length xs)

  abbrev pub get_elem? : List A → ℕ → Option A
  get_elem? [] i = none
  get_elem? (x ∷ xs) zero = some x
  get_elem? (x ∷ xs) (suc i) = get_elem? xs i

  -- Python's `any(p(x) for x in xs)` and `all(p(x) for x in xs)`.
  abbrev pub any : (A → Bool) → List A → Bool
  any p [] = false
  any p (x ∷ xs) = p x || any p xs

  abbrev pub all : (A → Bool) → List A → Bool
  all p [] = true
  all p (x ∷ xs) = p x && all p xs

  -- `[x for x in xs if p(x)]`
  abbrev pub select : (A → Bool) → List A → List A
  select p [] = []
  select p (x ∷ xs) = let rest = select p xs in if p x then x ∷ rest else rest

  -- `next((x for x in xs if p(x)), None)`
  abbrev pub find_first : (A → Bool) → List A → Option A
  find_first p [] = none
  find_first p (x ∷ xs) = let rest = find_first p xs in if p x then some x else rest

  pub length-append : (xs ys : List A) → length (xs ++ ys) ≡ length xs + length ys
  length-append [] ys = omega arith
  length-append (x ∷ xs) ys = omega (arith, length-append xs ys)

  -- A test that holds of a whole list holds at each of its positions.
  pub all-get_elem? :
      (p : A → Bool) (xs : List A) (i : ℕ) {x : A}
      → all p xs ≡ true
      → get_elem? xs i ≡ some x
      → p x ≡ true
  all-get_elem? p [] i h e = ground arith
  all-get_elem? p (y ∷ xs) zero h e = ground arith
  all-get_elem? p (y ∷ xs) (suc i) h e = all-get_elem? p xs i (ground arith) e

-- A predicate at every element, and at some element, by recursion.
abbrev pub All {ℓ κ} : {A : Type ℓ} → (A → Type κ) → List A → Type κ
All P [] = Unit
All P (x ∷ xs) = P x × All P xs

abbrev pub Among : {A : Type 0} → A → List A → Type 0
Among a [] = ⊥
Among a (x ∷ xs) = (a ≡ x) ⊎ Among a xs

abbrev pub replicate {ℓ} : {A : Type ℓ} → ℕ → A → List A
replicate zero a = []
replicate (suc n) a = a ∷ replicate n a

-- The elements that pass a test.
pub Among-select :
    {A : Type 0} (p : A → Bool) (x : A) (rs : List A)
    → Among x (select p rs) ↔ (Among x rs × (p x ≡ true))
Among-select p x [] = (λ m. elim m [ ], λ m. m.0)
Among-select p x (r ∷ rs) =
    let ih = Among-select p x rs in
    elim (Bool-cases (p r)) [
      | inl yes_r ↦ rw yes_r (
        λ m. elim m [ inl e ↦ (inl e, rw e yes_r) | inr m' ↦ (inr (ih.0 m').0, (ih.0 m').1) ],
        λ m. elim m.0 [ inl e ↦ inl e | inr m' ↦ inr (ih.1 (m', m.1)) ],
      )
      | inr no_r ↦ rw no_r (
        λ m. (inr (ih.0 m).0, (ih.0 m).1),
        λ m. elim m.0 [ inl e ↦ absurd (cc (e, no_r, m.1)) | inr m' ↦ ih.1 (m', m.1) ],
      )
    ]

pub find_first-Among :
    {A : Type 0} (test : A → Bool) (xs : List A) {a : A} → find_first test xs ≡ some a → Among a xs
find_first-Among test [] e = absurd (cc)
find_first-Among test (x ∷ xs) e = elim (Bool-cases (test x)) [
  | inl hit ↦ inl (ap (λ (o : Option _). elim o [ none ↦ x | some y ↦ y ]) (sym (rw hit at e)))
  | inr miss ↦ inr (find_first-Among test xs (rw miss at e))
]

pub find_first-misses :
    {A : Type 0} (test : A → Bool) (xs : List A) (a : A)
    → find_first test xs ≡ none
    → Among a xs
    → test a ≡ false
find_first-misses test [] a e m = elim m [ ]
find_first-misses test (x ∷ xs) a e m = elim (Bool-cases (test x)) [
  | inl hit ↦ absurd (cc (rw hit at e))
  | inr miss ↦ elim m [
    | inl same ↦ rw same miss
    | inr there ↦ find_first-misses test xs a (rw miss at e) there
  ]
]
