-- ===== src/Jobs/Spread.antt =====
-- The active rows of `enqueue` of app/jobs/repository.py: one for each type and target.
use mathlib.Core.Path.{subst}
use astra_licensing_graph.Prelude.{
  ℕ, ◌≡◌, refl, ◌⊎◌, inl, inr, true, false, ◌&&◌, ◌==◌, Option, none, some, [], ◌∷◌, arith, All,
  Among, Bool-cases, Option-cases, any, map, if◌then◌else◌, find_first-misses,
}
use astra_licensing_graph.Jobs.Table.{
  JobStatus, JobType, GraphJob, Table, classify_email, clash, ensure_subscription, ingest_email,
  is_active, is_type, pending, recreate_subscription, renew_subscription, running, same_id,
  sync_folder,
}
use astra_licensing_graph.Jobs.Requests.{
  ok, Request, EnqueueResult, by_email, by_folder, coalesce_into, coalesced_into, enqueue,
  find_active_for_target, find_existing, find_key, insert_job, new_job,
}
use astra_licensing_graph.Jobs.Order.{is_type_refl}
use astra_licensing_graph.Jobs.Enqueue.{IsUnique, enqueue-IsUnique}

abbrev pub IsEmailWork : JobType → Type 0
IsEmailWork t = (t ≡ ingest_email) ⊎ (t ≡ classify_email)

abbrev pub IsFolderWork : JobType → Type 0
IsFolderWork t =
    (t ≡ sync_folder)
    ⊎ ((t ≡ ensure_subscription) ⊎ ((t ≡ renew_subscription) ⊎ (t ≡ recreate_subscription)))

abbrev pub IsActiveJob : GraphJob → Type 0
IsActiveJob j = (j.status ≡ pending) ⊎ (j.status ≡ running)

-- The same work twice: two active jobs of one type, for one email or one folder.
pub record IsRepeated (j k : GraphJob) : Type 0 where
  pub active : IsActiveJob j × IsActiveJob k
  pub same_type : j.job_type ≡ k.job_type
  pub same_target :
      (IsEmailWork j.job_type × ((e : ℕ) × (j.email_id ≡ some e) × (k.email_id ≡ some e)))
      ⊎ (IsFolderWork j.job_type × ((f : ℕ) × (j.folder_id ≡ some f) × (k.folder_id ≡ some f)))

-- No work stands twice.
abbrev pub IsSpread : Table → Type 0
IsSpread [] = Unit
IsSpread (j ∷ js) = All (λ k. ¬ IsRepeated j k) js × IsSpread js

by_email_lem : (t : JobType) → IsEmailWork t → by_email t ≡ true
unfolding by_email
by_email_lem t (inl e) = rw e refl
by_email_lem t (inr e) = rw e refl

by_folder_lem : (t : JobType) → IsFolderWork t → (by_email t ≡ false) × (by_folder t ≡ true)
unfolding by_email by_folder
by_folder_lem t (inl e) = rw e (refl, refl)
by_folder_lem t (inr (inl e)) = rw e (refl, refl)
by_folder_lem t (inr (inr (inl e))) = rw e (refl, refl)
by_folder_lem t (inr (inr (inr e))) = rw e (refl, refl)

is_active_lem : (st : JobStatus) → (st ≡ pending) ⊎ (st ≡ running) → is_active st ≡ true
is_active_lem st (inl e) = rw e refl
is_active_lem st (inr e) = rw e refl

same_id_lem : (a b : Option ℕ) (i : ℕ) → a ≡ some i → b ≡ some i → same_id a b ≡ true
same_id_lem a b i ea eb = rw (ea, eb) (ground arith)

module _ (r : Request) where
  -- A row that repeats the requested work is one that the select for an active target finds.
  missed-email :
      (jobs : Table) (k : GraphJob)
      → find_active_for_target r.job_type r.folder_id r.email_id jobs ≡ none
      → by_email r.job_type ≡ true
      → Among k jobs
      → (is_type k.job_type r.job_type && is_active k.status && same_id k.email_id r.email_id)
        ≡ false
  unfolding find_active_for_target
  missed-email jobs k e b m =
      find_first-misses
        (λ j. is_type j.job_type r.job_type && is_active j.status && same_id j.email_id r.email_id)
        jobs k (rw b at e) m

  missed-folder :
      (jobs : Table) (k : GraphJob)
      → find_active_for_target r.job_type r.folder_id r.email_id jobs ≡ none
      → by_email r.job_type ≡ false
      → by_folder r.job_type ≡ true
      → Among k jobs
      → (is_type k.job_type r.job_type && is_active k.status && same_id k.folder_id r.folder_id)
        ≡ false
  unfolding find_active_for_target
  missed-folder jobs k e b b' m =
      find_first-misses
        (λ j.
          is_type j.job_type r.job_type && is_active j.status && same_id j.folder_id r.folder_id)
        jobs k (rw (b, b') at e) m

  unrepeated :
      (jobs : Table) (k : GraphJob)
      → find_active_for_target r.job_type r.folder_id r.email_id jobs ≡ none
      → Among k jobs
      → ¬ IsRepeated (new_job r) k
  unfolding new_job
  unrepeated jobs k e m v =
      let typed : is_type k.job_type r.job_type ≡ true =
        subst (λ t. is_type t r.job_type ≡ true) v.same_type (is_type_refl r.job_type) in
      let live = is_active_lem k.status v.active.1 in
      elim v.same_target [
        | inl (work, (i, a, b)) ↦ cc (
          missed-email jobs k e (by_email_lem r.job_type work) m,
          same_id_lem k.email_id r.email_id i b a,
          typed,
          live,
        )
        | inr (work, (i, a, b)) ↦
            let (not_email, of_folder) = by_folder_lem r.job_type work in
            cc (
              missed-folder jobs k e not_email of_folder m,
              same_id_lem k.folder_id r.folder_id i b a,
              typed,
              live,
            )
      ]

  All-Among :
      (P : GraphJob → Type 0) (jobs : Table) → ((k : GraphJob) → Among k jobs → P k) → All P jobs
  All-Among P [] f = tt
  All-Among P (j ∷ js) f = (f j (inl refl), All-Among P js (λ k m. f k (inr m)))

  abbrev folded : ℕ → GraphJob → GraphJob
  folded i k = if k.id == i then coalesce_into k r.reason r.priority else k

  same_columns :
      (i : ℕ) (a : GraphJob)
      → ((folded i a).status ≡ a.status)
        × ((folded i a).job_type ≡ a.job_type)
        × ((folded i a).email_id ≡ a.email_id)
        × ((folded i a).folder_id ≡ a.folder_id)
  unfolding coalesce_into
  same_columns i a = elim (Bool-cases (a.id == i)) [
    | inl same ↦ rw same (refl, refl, refl, refl)
    | inr other ↦ rw other (refl, refl, refl, refl)
  ]

  unfolded : (i : ℕ) (a b : GraphJob) → IsRepeated (folded i a) (folded i b) → IsRepeated a b
  unfolded i a b v =
      let (sa, ta, ea, fa) = same_columns i a in
      let (sb, tb, eb, fb) = same_columns i b in
      record {
        active = rw (sa, sb) at v.active;
        same_type = rw (ta, tb) at v.same_type;
        same_target = rw (ta, ea, eb, fa, fb) at v.same_target;
      }

  unrepeated-folded :
      (i : ℕ) (j : GraphJob) (js : Table)
      → All (λ k. ¬ IsRepeated j k) js
      → All (λ k. ¬ IsRepeated (folded i j) k) (map (folded i) js)
  unrepeated-folded i j [] h = tt
  unrepeated-folded i j (k ∷ ks) h = ((λ v. h.0 (unfolded i j k v)), unrepeated-folded i j ks h.1)

  IsSpread-folded : (i : ℕ) (jobs : Table) → IsSpread jobs → IsSpread (map (folded i) jobs)
  IsSpread-folded i [] h = tt
  IsSpread-folded i (j ∷ js) h = (unrepeated-folded i j js h.0, IsSpread-folded i js h.1)

  coalesced-IsSpread :
      (jobs : Table) (active : GraphJob) → IsSpread jobs → IsSpread (coalesced_into jobs active r).1
  unfolding coalesced_into
  coalesced-IsSpread jobs active h = IsSpread-folded active.id jobs h

  inserted-IsSpread :
      (jobs : Table) (res : EnqueueResult) (t : Table)
      → IsSpread jobs
      → find_existing jobs r ≡ none
      → find_active_for_target r.job_type r.folder_id r.email_id jobs ≡ none
      → insert_job jobs r ≡ ok (res, t)
      → IsSpread t
  unfolding insert_job
  inserted-IsSpread jobs res t v e f h = elim (Bool-cases (any (clash (new_job r)) jobs)) [
    | inl full ↦ absurd (ground (arith, e))
    | inr free ↦
        let table : new_job r ∷ jobs ≡ t = ground arith in
        subst IsSpread table
          (All-Among (λ k. ¬ IsRepeated (new_job r) k) jobs (λ k m. unrepeated jobs k f m), v)
  ]

  enqueued-IsSpread :
      (jobs : Table) (res : EnqueueResult) (t : Table)
      → IsSpread jobs
      → enqueue jobs jobs r ≡ ok (res, t)
      → IsSpread t
  unfolding enqueue find_existing
  enqueued-IsSpread jobs res t v h = elim (Option-cases (find_key r.idempotency_key jobs)) [
    | inr (job, e) ↦ let table : jobs ≡ t = ground arith in subst IsSpread table v
    | inl e ↦ elim (Option-cases (find_active_for_target r.job_type r.folder_id r.email_id jobs)) [
      | inl f ↦ inserted-IsSpread jobs res t v (ground (arith, e, f)) f (ground (arith, e, f))
      | inr (active, f) ↦
          let table : (coalesced_into jobs active r).1 ≡ t = ground (arith, e, f) in
          subst IsSpread table (coalesced-IsSpread jobs active v)
    ]
  ]

-- On one table, with no row of another transaction between its selects and its insert, an enqueue
-- that returns keeps two things: no two rows clash on an id, an idempotency key or a unique index,
-- and no two PENDING or RUNNING jobs of one type are for the same email or the same folder, in all
-- six types, of which the unique indexes hold only three.
pub enqueue-IsSpread :
    (jobs : Table) (r : Request) (res : EnqueueResult) (t : Table)
    → IsUnique jobs
    → IsSpread jobs
    → enqueue jobs jobs r ≡ ok (res, t)
    → IsUnique t × IsSpread t
enqueue-IsSpread jobs r res t u v h =
    (enqueue-IsUnique jobs jobs r res t u u h, enqueued-IsSpread r jobs res t v h)
