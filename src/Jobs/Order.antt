-- ===== src/Jobs/Order.antt =====
-- The WHERE and ORDER BY of `claim_next` of app/jobs/repository.py, as facts about rows.
use mathlib.Core.Path.{subst}
use astra_licensing_graph.Prelude.{
  ℕ, ◌≡◌, refl, ◌⊎◌, inl, inr, ◌≤◌, ◌<◌, true, false, List, [], ◌∷◌, arith, Among, All, Bool-cases,
  any, ◌==◌,
}
use astra_licensing_graph.Jobs.Table.{
  JobStatus, JobType, GraphJob, Table, failed_retryable, is_type, pending,
}
use astra_licensing_graph.Jobs.Queue.{before, claimable, waits, wanted}

-- The row waits, is due, is of a wanted type (no types want all), and no worker has locked it.
pub record IsClaimable (now : ℕ) (types : List JobType) (locked : List ℕ) (j : GraphJob)
    : Type 0 where
  pub waiting : (j.status ≡ pending) ⊎ (j.status ≡ failed_retryable)
  pub due : j.available_at ≤ now
  pub of_type : (types ≡ []) ⊎ Among j.job_type types
  pub unlocked : ¬ Among j.id locked

-- `j` need not wait for `k`: by priority, then by the time it is due, then by its creation.
abbrev pub Precedes : GraphJob → GraphJob → Type 0
Precedes j k =
    (j.priority < k.priority)
    ⊎ ((j.priority ≡ k.priority)
        × ((j.available_at < k.available_at)
            ⊎ ((j.available_at ≡ k.available_at) × (j.created_at ≤ k.created_at))))

pub before-Precedes : (j k : GraphJob) → before k j ≡ false → Precedes j k
unfolding before
before-Precedes j k h = ground arith

waits_lem : (st : JobStatus) → waits st ≡ true → (st ≡ pending) ⊎ (st ≡ failed_retryable)
unfolding waits
waits_lem st h = ground arith

is_type_lem : (t u : JobType) → is_type t u ≡ true → t ≡ u
unfolding is_type
is_type_lem t u h = ground arith

pub is_type_refl : (t : JobType) → is_type t t ≡ true
unfolding is_type
is_type_refl t = ground arith

any_type-Among : (t : JobType) (us : List JobType) → any (is_type t) us ≡ true → Among t us
any_type-Among t [] h = absurd (cc)
any_type-Among t (u ∷ us) h = elim (Bool-cases (is_type t u)) [
  | inl same ↦ inl (is_type_lem t u same)
  | inr other ↦ inr (any_type-Among t us (ground (arith, other)))
]

Among-any_type : (t : JobType) (us : List JobType) → Among t us → any (is_type t) us ≡ true
Among-any_type t [] m = elim m [ ]
Among-any_type t (u ∷ us) (inl e) =
    ground (arith, subst (λ x. is_type t x ≡ true) e (is_type_refl t))
Among-any_type t (u ∷ us) (inr m) = ground (arith, Among-any_type t us m)

wanted_lem :
    (types : List JobType) (t : JobType) → wanted types t ≡ true → (types ≡ []) ⊎ Among t types
unfolding wanted
wanted_lem [] t h = inl refl
wanted_lem (u ∷ us) t h = inr (any_type-Among t (u ∷ us) h)

wanted-all : (types : List JobType) (t : JobType) → types ≡ [] → wanted types t ≡ true
unfolding wanted
wanted-all [] t e = refl
wanted-all (u ∷ us) t e = absurd (cc)

wanted-Among : (types : List JobType) (t : JobType) → Among t types → wanted types t ≡ true
unfolding wanted
wanted-Among [] t m = elim m [ ]
wanted-Among (u ∷ us) t m = Among-any_type t (u ∷ us) m

Among-any_id : (i : ℕ) (is : List ℕ) → Among i is → any (λ j. j == i) is ≡ true
Among-any_id i [] m = elim m [ ]
Among-any_id i (j ∷ js) (inl e) = ground (arith, e)
Among-any_id i (j ∷ js) (inr m) = ground (arith, Among-any_id i js m)

any_id-Among : (i : ℕ) (is : List ℕ) → any (λ j. j == i) is ≡ true → Among i is
any_id-Among i [] h = absurd (cc)
any_id-Among i (j ∷ js) h = elim (Bool-cases (j == i)) [
  | inl same ↦ inl (ground arith)
  | inr other ↦ inr (any_id-Among i js (ground (arith, other)))
]

module _ (now : ℕ) (types : List JobType) (locked : List ℕ) where
  pub claimable-IsClaimable :
      (j : GraphJob) → claimable now types locked j ≡ true → IsClaimable now types locked j
  unfolding claimable
  claimable-IsClaimable j h = record {
    waiting = waits_lem j.status (ground arith);
    due = ground arith;
    of_type = wanted_lem types j.job_type (ground arith);
    unlocked = λ m. absurd (ground (arith, Among-any_id j.id locked m));
  }

  waits-of : (st : JobStatus) → (st ≡ pending) ⊎ (st ≡ failed_retryable) → waits st ≡ true
  unfolding waits
  waits-of st (inl e) = rw e refl
  waits-of st (inr e) = rw e refl

  wanted-of : (t : JobType) → (types ≡ []) ⊎ Among t types → wanted types t ≡ true
  wanted-of t (inl e) = wanted-all types t e
  wanted-of t (inr m) = wanted-Among types t m

  IsClaimable-claimable :
      (j : GraphJob) → IsClaimable now types locked j → claimable now types locked j ≡ true
  unfolding claimable
  IsClaimable-claimable j v = elim (Bool-cases (any (λ i. i == j.id) locked)) [
    | inl taken ↦ absurd (v.unlocked (any_id-Among j.id locked taken))
    | inr free ↦
        ground (arith, free, waits-of j.status v.waiting, v.due, wanted-of j.job_type v.of_type)
  ]

  -- Every row may wait: it is not claimable, or the row that is first need not wait for it.
  abbrev pub IsNext : Table → GraphJob → Type 0
  IsNext jobs j = All (λ k. (¬ IsClaimable now types locked k) ⊎ Precedes j k) jobs

  pub least-IsNext :
      (jobs : Table) (j : GraphJob)
      → All (λ k. claimable now types locked k ≡ true → before k j ≡ false) jobs
      → IsNext jobs j
  least-IsNext [] j h = tt
  least-IsNext (k ∷ ks) j h = (
    elim (Bool-cases (claimable now types locked k)) [
      | inl due ↦ inr (before-Precedes j k (h.0 due))
      | inr kept_back ↦ inl (λ v. cc (kept_back, IsClaimable-claimable k v))
    ],
    least-IsNext ks j h.1,
  )
