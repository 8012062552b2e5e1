-- ===== src/Jobs/Enqueue.antt =====
-- `enqueue` of app/jobs/repository.py, the constraints of the table, and its key.
use mathlib.Core.Path.{subst}
use text.Mathlib.TextPositions.{eq_refl as str_eq_refl}
use astra_licensing_graph.Prelude.{
  ℕ, ◌≡◌, refl, ap₂, ◌∙◌, inl, inr, false, ◌||◌, Option, some, [], ◌∷◌, String, arith, Bool-cases,
  Option-cases, any, map, if◌then◌else◌, ◌==◌,
}
use astra_licensing_graph.Jobs.Table.{GraphJob, Table, same_slot, clash, change_row}
use astra_licensing_graph.Jobs.Requests.{
  ok, Request, EnqueueResult, coalesce_into, new_job, coalesced_into, find_existing, insert_job,
  enqueue, find_key, find_active_for_target,
}

-- No two rows clash.
abbrev pub IsUnique : Table → Type 0
IsUnique [] = Unit
IsUnique (j ∷ js) = (any (clash j) js ≡ false) × IsUnique js

module _ (i : ℕ) (reason : Option String) (priority : ℕ) where
  abbrev folded : GraphJob → GraphJob
  folded k = if k.id == i then coalesce_into k reason priority else k

  clash-folded : (a b : GraphJob) → clash (folded a) (folded b) ≡ clash a b
  unfolding clash same_slot coalesce_into
  clash-folded a b = elim (Bool-cases (a.id == i)) [
    | inl p ↦ elim (Bool-cases (b.id == i)) [ inl q ↦ rw (p, q) | inr q ↦ rw (p, q) ]
    | inr p ↦ elim (Bool-cases (b.id == i)) [ inl q ↦ rw (p, q) | inr q ↦ rw (p, q) ]
  ]

  any-folded :
      (j : GraphJob) (js : Table) → any (clash (folded j)) (map folded js) ≡ any (clash j) js
  any-folded j [] = refl
  any-folded j (k ∷ js) = ap₂ ◌||◌ (clash-folded j k) (any-folded j js)

  IsUnique-folded : (js : Table) → IsUnique js → IsUnique (map folded js)
  IsUnique-folded [] h = tt
  IsUnique-folded (j ∷ js) h = (any-folded j js ∙ h.0, IsUnique-folded js h.1)

found-IsUnique :
    (jobs : Table) (r : Request) (res : EnqueueResult) (t : Table)
    → IsUnique jobs
    → find_existing jobs r ≡ some (res, t)
    → IsUnique t
unfolding find_existing coalesced_into
found-IsUnique jobs r res t u h = elim (Option-cases (find_key r.idempotency_key jobs)) [
  | inl e ↦ elim (Option-cases (find_active_for_target r.job_type r.folder_id r.email_id jobs)) [
    | inl f ↦ absurd (ground arith)
    | inr (active, f) ↦
        let table : change_row active.id (λ j. coalesce_into j r.reason r.priority) jobs ≡ t =
          ground arith in
        subst IsUnique table (IsUnique-folded active.id r.reason r.priority jobs u)
  ]
  | inr (job, e) ↦ let table : jobs ≡ t = ground arith in subst IsUnique table u
]

insert-IsUnique :
    (jobs : Table) (r : Request) (res : EnqueueResult) (t : Table)
    → IsUnique jobs
    → insert_job jobs r ≡ ok (res, t)
    → IsUnique t
unfolding insert_job
insert-IsUnique jobs r res t u h = elim (Bool-cases (any (clash (new_job r)) jobs)) [
  | inl full ↦ elim (Option-cases (find_existing jobs r)) [
    | inl e ↦ absurd (ground arith)
    | inr ((res', t'), e) ↦
        let found : find_existing jobs r ≡ some (res, t) = ground arith in
        found-IsUnique jobs r res t u found
  ]
  | inr free ↦ let table : new_job r ∷ jobs ≡ t = ground arith in subst IsUnique table (free, u)
]

-- Where no two rows clash in the table that the selects read and in the one that the insert meets,
-- an enqueue that returns leaves a table in which no two rows share an id, an idempotency key, or the
-- slot of a unique index.
pub enqueue-IsUnique :
    (seen later : Table) (r : Request) (res : EnqueueResult) (t : Table)
    → IsUnique seen
    → IsUnique later
    → enqueue seen later r ≡ ok (res, t)
    → IsUnique t
unfolding enqueue
enqueue-IsUnique seen later r res t u v h = elim (Option-cases (find_existing seen r)) [
  | inl e ↦ insert-IsUnique later r res t v (ground arith)
  | inr ((res', t'), e) ↦
      let found : find_existing seen r ≡ some (res, t) = ground arith in
      found-IsUnique seen r res t u found
]

-- What the key finds after an enqueue that did not coalesce.
found-key :
    (jobs : Table) (r : Request) (res : EnqueueResult) (t : Table)
    → find_existing jobs r ≡ some (res, t)
    → res.coalesced ≡ false
    → find_key r.idempotency_key t ≡ some res.job
unfolding find_existing coalesced_into
found-key jobs r res t h c = elim (Option-cases (find_key r.idempotency_key jobs)) [
  | inl e ↦ elim (Option-cases (find_active_for_target r.job_type r.folder_id r.email_id jobs)) [
    | inl f ↦ absurd (ground arith)
    | inr (active, f) ↦ absurd (ground arith)
  ]
  | inr (job, e) ↦
      let table : jobs ≡ t = ground arith in let same : job ≡ res.job = ground arith in cc
]

new_job-key :
    (jobs : Table) (r : Request) → find_key r.idempotency_key (new_job r ∷ jobs) ≡ some (new_job r)
unfolding find_key new_job
new_job-key jobs r = simp (str_eq_refl) refl

insert-key :
    (jobs : Table) (r : Request) (res : EnqueueResult) (t : Table)
    → insert_job jobs r ≡ ok (res, t)
    → res.coalesced ≡ false
    → find_key r.idempotency_key t ≡ some res.job
unfolding insert_job
insert-key jobs r res t h c = elim (Bool-cases (any (clash (new_job r)) jobs)) [
  | inl full ↦ elim (Option-cases (find_existing jobs r)) [
    | inl e ↦ absurd (ground arith)
    | inr ((res', t'), e) ↦
        let found : find_existing jobs r ≡ some (res, t) = ground arith in
        found-key jobs r res t found c
  ]
  | inr free ↦
      let table : new_job r ∷ jobs ≡ t = ground arith in
      let same : new_job r ≡ res.job = ground arith in
      subst (λ x. find_key r.idempotency_key x ≡ some res.job) table
        (rw (← same) (new_job-key jobs r))
]

first_key :
    (seen later : Table) (r : Request) (res : EnqueueResult) (t : Table)
    → enqueue seen later r ≡ ok (res, t)
    → res.coalesced ≡ false
    → find_key r.idempotency_key t ≡ some res.job
unfolding enqueue
first_key seen later r res t h c = elim (Option-cases (find_existing seen r)) [
  | inl e ↦ insert-key later r res t (ground arith) c
  | inr ((res', t'), e) ↦
      let found : find_existing seen r ≡ some (res, t) = ground arith in
      found-key seen r res t found c
]

-- An enqueue that creates or finds a row is idempotent: any later request with the same key, at the
-- table that it left, gets that row back and changes nothing.
pub enqueue_again :
    (seen later : Table) (r r' : Request) (res : EnqueueResult) (t : Table)
    → enqueue seen later r ≡ ok (res, t)
    → res.coalesced ≡ false
    → r'.idempotency_key ≡ r.idempotency_key
    → enqueue t t r' ≡ ok (record { job = res.job; created = false; coalesced = false }, t)
unfolding enqueue find_existing
enqueue_again seen later r r' res t h c k =
    let key : find_key r'.idempotency_key t ≡ some res.job =
      rw k (first_key seen later r res t h c) in
    ground (arith, key)
