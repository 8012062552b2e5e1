-- ===== src/Portals/Latest.antt =====
-- The latest snapshot of a run, and the count of those that are approved when a row is written back,
-- for `approve_snapshot` of app/services/portal_run_service.py.
use astra_licensing_graph.Prelude.{
  ◌≡◌, refl, sym, inl, inr, ℕ, ◌≤◌, true, false, Option, none, some, List, [], ◌∷◌, ◌==◌, arith,
  All, Bool-cases, Option-cases, leb, find_first,
}
use mathlib.Core.Path.{subst}
use astra_licensing_graph.Portals.Vocabulary.{is_approved}
use astra_licensing_graph.Portals.Rows.{PreSubmissionSnapshot}
use astra_licensing_graph.Portals.Governance.{put_snapshot}
use astra_licensing_graph.Portals.Snapshots.{approved_count, is_latest, latest_snapshot}

up_to_trans :
    {n m : ℕ} (rs : List PreSubmissionSnapshot)
    → n ≤ m
    → All (λ x. x.version ≤ n) rs
    → All (λ x. x.version ≤ m) rs
up_to_trans [] le h = tt
up_to_trans (x ∷ rs) le h = (omega (arith, h.0), up_to_trans rs le h.1)

latest_snapshot-none : (rs : List PreSubmissionSnapshot) → latest_snapshot rs ≡ none → rs ≡ []
unfolding latest_snapshot
latest_snapshot-none [] e = refl
latest_snapshot-none (x ∷ rs) e = elim (Option-cases (latest_snapshot rs)) [
  | inl alone ↦ absurd (cc (rw alone at e))
  | inr (y, rest) ↦ elim (Bool-cases (leb y.version x.version)) [
    | inl newer ↦ absurd (cc (rw (rest, newer) at e))
    | inr older ↦ absurd (cc (rw (rest, older) at e))
  ]
]

some-injective : {a b : PreSubmissionSnapshot} → some a ≡ some b → a ≡ b
some-injective e = cc

-- No snapshot has a higher version than the latest one.
pub latest_snapshot-newest :
    (rs : List PreSubmissionSnapshot) (l : PreSubmissionSnapshot)
    → latest_snapshot rs ≡ some l
    → All (λ x. x.version ≤ l.version) rs
unfolding latest_snapshot
latest_snapshot-newest [] l e = tt
latest_snapshot-newest (x ∷ rs) l e = elim (Option-cases (latest_snapshot rs)) [
  | inl alone ↦
      let same : x ≡ l = some-injective (rw alone at e) in
      (
        rw same (omega arith),
        subst (λ ys. All (λ z. z.version ≤ l.version) ys) (sym (latest_snapshot-none rs alone)) tt,
      )
  | inr (y, rest) ↦
      let below = latest_snapshot-newest rs y rest in
      elim (Bool-cases (leb y.version x.version)) [
        | inl newer ↦
            let same : x ≡ l = some-injective (rw (rest, newer) at e) in
            subst (λ z. (x.version ≤ z.version) × All (λ w. w.version ≤ z.version) rs) same
              (omega arith, up_to_trans rs (ground arith) below)
        | inr older ↦
            let same : y ≡ l = some-injective (rw (rest, older) at e) in
            subst (λ z. (x.version ≤ z.version) × All (λ w. w.version ≤ z.version) rs) same
              (ground arith, below)
      ]
]

pub is_latest-newest :
    (o : Option PreSubmissionSnapshot) (r : PreSubmissionSnapshot)
    → is_latest o r ≡ true
    → (l : PreSubmissionSnapshot) × (o ≡ some l) × (l.id ≡ r.id)
unfolding is_latest
is_latest-newest none r h = absurd (cc)
is_latest-newest (some l) r h = (l, refl, ground arith)

-- A snapshot of another id that is approved stays approved when a row is written back.
put-keeps :
    (row old : PreSubmissionSnapshot) (rs : List PreSubmissionSnapshot)
    → find_first (λ x. is_approved x.status) rs ≡ some old
    → (old.id == row.id) ≡ false
    → 1 ≤ approved_count (put_snapshot row rs)
unfolding approved_count
put-keeps row old [] e other = absurd (cc)
put-keeps row old (x ∷ rs) e other = ground (arith, put-keeps row old rs)

put-adds :
    (row r : PreSubmissionSnapshot) (rs : List PreSubmissionSnapshot)
    → is_approved row.status ≡ true
    → find_first (λ x. x.id == row.id) rs ≡ some r
    → 1 ≤ approved_count (put_snapshot row rs)
unfolding approved_count
put-adds row r [] h e = absurd (cc)
put-adds row r (x ∷ rs) h e = ground (arith, put-adds row r rs h)

pub put-both :
    (row r old : PreSubmissionSnapshot) (rs : List PreSubmissionSnapshot)
    → is_approved row.status ≡ true
    → find_first (λ x. x.id == row.id) rs ≡ some r
    → find_first (λ x. is_approved x.status) rs ≡ some old
    → (old.id == row.id) ≡ false
    → 2 ≤ approved_count (put_snapshot row rs)
unfolding approved_count
put-both row r old [] h e f other = absurd (cc)
put-both row r old (x ∷ rs) h e f other = elim (Bool-cases (x.id == row.id)) [
  | inl hit ↦ elim (Bool-cases (is_approved x.status)) [
    | inl here ↦
        let same : x ≡ old = some-injective (rw here at f) in
        absurd (cc (other, subst (λ z. (z.id == row.id) ≡ true) same hit))
    | inr there ↦ rw (hit, h) (ground (arith, put-keeps row old rs (rw there at f) other))
  ]
  | inr miss ↦ elim (Bool-cases (is_approved x.status)) [
    | inl here ↦ rw (miss, here) (ground (arith, put-adds row r rs h (rw miss at e)))
    | inr there ↦ rw (miss, there) (put-both row r old rs h (rw miss at e) (rw there at f) other)
  ]
]
