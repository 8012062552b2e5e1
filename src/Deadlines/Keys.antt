-- ===== src/Deadlines/Keys.antt =====
-- The sorted keys of a ladder, and the first and the last of them that pass a test.
use mathlib.Core.Path.{subst}
use astra_licensing_graph.Prelude.{
  ℕ, ◌≤◌, ◌≡◌, refl, ◌⊎◌, inl, inr, Bool, true, false, none, some, List, [], ◌∷◌, arith, All, Among,
  Bool-cases, Option-cases, leb, ◌==◌, select,
}
use astra_licensing_graph.Deadlines.Escalation.{
  EscalationLevel, Ladder, insert, sorted_keys, first, last, level_at,
}

abbrev pub IsSorted : List ℕ → Type 0
IsSorted [] = Unit
IsSorted (x ∷ xs) = All (λ y. x ≤ y) xs × IsSorted xs

All-insert : (P : ℕ → Type 0) (k : ℕ) (xs : List ℕ) → P k → All P xs → All P (insert k xs)
unfolding insert
All-insert P k [] p ps = (p, ps)
All-insert P k (x ∷ xs) p ps = elim (Bool-cases (leb k x)) [
  | inl le ↦ rw le (p, ps)
  | inr gt ↦ rw gt (ps.0, All-insert P k xs p ps.1)
]

All-later : (k x : ℕ) (xs : List ℕ) → k ≤ x → All (λ y. x ≤ y) xs → All (λ y. k ≤ y) xs
All-later k x [] h ps = ps
All-later k x (y ∷ ys) h ps = (omega (arith, ps.0), All-later k x ys h ps.1)

insert-IsSorted : (k : ℕ) (xs : List ℕ) → IsSorted xs → IsSorted (insert k xs)
unfolding insert
insert-IsSorted k [] s = (tt, tt)
insert-IsSorted k (x ∷ xs) s = elim (Bool-cases (leb k x)) [
  | inl le ↦ rw le ((ground arith, All-later k x xs (ground arith) s.0), s)
  | inr gt ↦ rw gt (All-insert (λ y. x ≤ y) k xs (ground arith) s.0, insert-IsSorted k xs s.1)
]

pub sorted_keys-IsSorted : (l : Ladder) → IsSorted (sorted_keys l)
unfolding sorted_keys
sorted_keys-IsSorted [] = tt
sorted_keys-IsSorted ((k, v) ∷ l) = insert-IsSorted k (sorted_keys l) (sorted_keys-IsSorted l)

All-insert_inv : (P : ℕ → Type 0) (k : ℕ) (xs : List ℕ) → All P (insert k xs) → P k × All P xs
unfolding insert
All-insert_inv P k [] ps = ps
All-insert_inv P k (x ∷ xs) ps = elim (Bool-cases (leb k x)) [
  | inl le ↦ rw le at ps
  | inr gt ↦ let qs = rw gt at ps in let (p, rest) = All-insert_inv P k xs qs.1 in (p, (qs.0, rest))
]

-- What holds of every sorted key holds of every key of the ladder.
pub All-sorted_keys : (P : ℕ → Type 0) (l : Ladder) → All P (sorted_keys l) → All (λ e. P e.0) l
unfolding sorted_keys
All-sorted_keys P [] ps = ps
All-sorted_keys P ((k, v) ∷ l) ps =
    let (p, rest) = All-insert_inv P k (sorted_keys l) ps in (p, All-sorted_keys P l rest)

Among-insert : (w k : ℕ) (xs : List ℕ) → Among w (insert k xs) → (w ≡ k) ⊎ Among w xs
unfolding insert
Among-insert w k [] m = ground arith
Among-insert w k (x ∷ xs) m = elim (Bool-cases (leb k x)) [
  | inl le ↦ rw le at m
  | inr gt ↦ elim (rw gt at m) [
    | inl here ↦ inr (inl here)
    | inr later ↦ elim (Among-insert w k xs later) [ inl e ↦ inl e | inr there ↦ inr (inr there) ]
  ]
]

-- A sorted key is a key of the ladder.
pub sorted_keys-level_at :
    (w : ℕ) (l : Ladder)
    → Among w (sorted_keys l)
    → (level : EscalationLevel) × (level_at w l ≡ some level)
unfolding sorted_keys level_at
sorted_keys-level_at w [] m = elim m [ ]
sorted_keys-level_at w ((k, v) ∷ l) m = elim (Bool-cases (k == w)) [
  | inl same ↦ (v, rw same refl)
  | inr other ↦ elim (Among-insert w k (sorted_keys l) m) [
    | inl e ↦ absurd (ground arith)
    | inr there ↦ let (level, found) = sorted_keys-level_at w l there in (level, rw other found)
  ]
]

module _ (p : ℕ → Bool) where
  pub none-All : (xs : List ℕ) → first (select p xs) ≡ none → All (λ x. p x ≡ false) xs
  unfolding first
  none-All [] h = tt
  none-All (x ∷ xs) h = elim (Bool-cases (p x)) [
    | inl here ↦ absurd (ground arith)
    | inr later ↦ (later, none-All xs (ground arith))
  ]

  pub none_of_last : (xs : List ℕ) → last (select p xs) ≡ none → All (λ x. p x ≡ false) xs
  unfolding last
  none_of_last [] h = tt
  none_of_last (x ∷ xs) h = elim (Bool-cases (p x)) [
    | inl here ↦ absurd (ground arith)
    | inr later ↦ (later, none_of_last xs (ground arith))
  ]

  lower-All : (x : ℕ) (xs : List ℕ) → All (λ y. x ≤ y) xs → All (λ y. p y ≡ true → x ≤ y) xs
  lower-All x [] ps = tt
  lower-All x (y ∷ ys) ps = (λ h. ps.0, lower-All x ys ps.1)

  pub first-least :
      (xs : List ℕ) (w : ℕ)
      → IsSorted xs
      → first (select p xs) ≡ some w
      → (p w ≡ true) × Among w xs × All (λ y. p y ≡ true → w ≤ y) xs
  unfolding first
  first-least [] w s h = cc
  first-least (x ∷ xs) w s h = elim (Bool-cases (p x)) [
    | inl here ↦
        let same : x ≡ w = ground arith in
        subst (λ z. (p z ≡ true) × Among z (x ∷ xs) × All (λ y. p y ≡ true → z ≤ y) (x ∷ xs)) same
          (here, inl refl, (λ q. omega arith, lower-All x xs s.0))
    | inr later ↦
        let (q, m, le) = first-least xs w s.1 (ground arith) in
        (q, inr m, (λ q'. absurd (ground arith), le))
  ]

  Among-lower : (x w : ℕ) (xs : List ℕ) → All (λ y. x ≤ y) xs → Among w xs → x ≤ w
  Among-lower x w [] ps m = elim m [ ]
  Among-lower x w (y ∷ ys) ps (inl e) = omega (arith, ps.0)
  Among-lower x w (y ∷ ys) ps (inr m) = Among-lower x w ys ps.1 m

  refuted-All : (w : ℕ) (xs : List ℕ) → All (λ x. p x ≡ false) xs → All (λ y. p y ≡ true → y ≤ w) xs
  refuted-All w [] ps = tt
  refuted-All w (y ∷ ys) ps = (λ q. absurd (ground (arith, ps.0)), refuted-All w ys ps.1)

  pub last-greatest :
      (xs : List ℕ) (w : ℕ)
      → IsSorted xs
      → last (select p xs) ≡ some w
      → (p w ≡ true) × Among w xs × All (λ y. p y ≡ true → y ≤ w) xs
  unfolding last
  last-greatest [] w s h = cc
  last-greatest (x ∷ xs) w s h = elim (Option-cases (last (select p xs))) [
    | inl nothing ↦ elim (Bool-cases (p x)) [
      | inl here ↦
          let same : x ≡ w = ground (arith, nothing) in
          subst (λ z. (p z ≡ true) × Among z (x ∷ xs) × All (λ y. p y ≡ true → y ≤ z) (x ∷ xs)) same
            (here, inl refl, (λ q. omega arith, refuted-All x xs (none_of_last xs nothing)))
      | inr later ↦ absurd (ground (arith, nothing))
    ]
    | inr (v, found) ↦
        let same : v ≡ w = ground (arith, found) in
        let (q, m, le) = last-greatest xs v s.1 found in
        subst (λ z. (p z ≡ true) × Among z (x ∷ xs) × All (λ y. p y ≡ true → y ≤ z) (x ∷ xs)) same
          (q, inr m, (λ q'. Among-lower x v xs s.0 m, le))
  ]
