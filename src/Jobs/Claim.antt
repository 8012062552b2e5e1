-- ===== src/Jobs/Claim.antt =====
-- `claim_next` of app/jobs/repository.py: the order of the queue, and the unique indexes.
use mathlib.Core.Path.{subst}
use astra_licensing_graph.Prelude.{
  some-inj, ◌+◌, ℕ, ◌≡◌, refl, sym, ◌∙◌, ap, ◌≢◌, inl, inr, Bool, true, false, not, ◌&&◌, none,
  some, List, [], ◌∷◌, String, arith, All, Among, Bool-cases, Option-cases, any, ◌==◌,
}
use astra_licensing_graph.Jobs.Table.{
  JobType, running, sync_folder, GraphJob, Table, is_active, is_type, same_slot, clash,
  refuses_update, put_row,
}
use astra_licensing_graph.Jobs.Requests.{ok, err, integrity_error}
use astra_licensing_graph.Jobs.Order.{IsClaimable, IsNext, claimable-IsClaimable, least-IsNext}
use astra_licensing_graph.Jobs.Queue.{
  claimable, before, first_of_order, claimed, commit_row, claim_next,
}

-- `j` passes the test, and no row that passes it stands before `j` in the order of the queue.
pub record IsFirst (p : GraphJob → Bool) (jobs : Table) (j : GraphJob) : Type 0 where
  pub passes : p j ≡ true
  pub there : Among j jobs
  pub least : All (λ k. p k ≡ true → before k j ≡ false) jobs

before_irrefl : (j : GraphJob) → before j j ≡ false
unfolding before
before_irrefl j = ground arith

not_before_trans : (a b c : GraphJob) → before a b ≡ false → before b c ≡ false → before a c ≡ false
unfolding before
not_before_trans a b c h k = ground arith

before-asym : (a b : GraphJob) → before a b ≡ true → before b a ≡ false
unfolding before
before-asym a b h = ground arith

All-weaken :
    {P Q : GraphJob → Type 0} (js : Table) → ((j : GraphJob) → P j → Q j) → All P js → All Q js
All-weaken [] f h = tt
All-weaken (j ∷ js) f h = (f j h.0, All-weaken js f h.1)

module _ (p : GraphJob → Bool) where
  first_of_order-none : (js : Table) → first_of_order p js ≡ none → All (λ k. p k ≡ false) js
  unfolding first_of_order
  first_of_order-none [] h = tt
  first_of_order-none (j ∷ js) h = ground (arith, first_of_order-none js)

  -- The step of the fold, on what the rest of the table gave.
  IsFirst-keep :
      (x k : GraphJob) (js : Table) → before k x ≡ true → IsFirst p js k → IsFirst p (x ∷ js) k
  IsFirst-keep x k js b v = record {
    passes = v.passes;
    there = inr v.there;
    least = ((λ _. before-asym k x b), v.least);
  }

  IsFirst-new :
      (x k : GraphJob) (js : Table)
      → p x ≡ true
      → before k x ≡ false
      → IsFirst p js k
      → IsFirst p (x ∷ js) x
  IsFirst-new x k js h b v = record {
    passes = h;
    there = inl refl;
    least = (
      (λ _. before_irrefl x),
      All-weaken js (λ m low t. not_before_trans m k x (low t) b) v.least,
    );
  }

  IsFirst-skip : (x k : GraphJob) (js : Table) → p x ≡ false → IsFirst p js k → IsFirst p (x ∷ js) k
  IsFirst-skip x k js h v = record {
    passes = v.passes;
    there = inr v.there;
    least = ((λ t. absurd (ground arith)), v.least);
  }

  IsFirst-only :
      (x : GraphJob) (js : Table) → p x ≡ true → All (λ k. p k ≡ false) js → IsFirst p (x ∷ js) x
  IsFirst-only x js h v = record {
    passes = h;
    there = inl refl;
    least = ((λ _. before_irrefl x), All-weaken js (λ m f t. absurd (ground arith)) v);
  }

  first_of_order-IsFirst :
      (js : Table) (j : GraphJob) → first_of_order p js ≡ some j → IsFirst p js j
  unfolding first_of_order
  first_of_order-IsFirst [] j h = cc
  first_of_order-IsFirst (x ∷ js) j h = elim (Bool-cases (p x)) [
    | inl yes_x ↦ elim (Option-cases (first_of_order p js)) [
      | inl empty ↦
          subst (IsFirst p (x ∷ js)) (some-inj (ground arith))
            (IsFirst-only x js yes_x (first_of_order-none js empty))
      | inr (k, e) ↦ elim (Bool-cases (before k x)) [
        | inl b ↦
            subst (IsFirst p (x ∷ js)) (some-inj (ground arith))
              (IsFirst-keep x k js b (first_of_order-IsFirst js k e))
        | inr b ↦
            subst (IsFirst p (x ∷ js)) (some-inj (ground arith))
              (IsFirst-new x k js yes_x b (first_of_order-IsFirst js k e))
      ]
    ]
    | inr no_x ↦ IsFirst-skip x j js no_x (first_of_order-IsFirst js j (ground arith))
  ]

clash-same_slot :
    (j k : GraphJob) (f : ℕ) (worker_id : String) (lease_seconds now : ℕ)
    → j.job_type ≡ sync_folder
    → j.folder_id ≡ some f
    → k.job_type ≡ sync_folder
    → k.folder_id ≡ some f
    → is_active k.status ≡ true
    → clash (claimed j worker_id lease_seconds now) k ≡ true
unfolding clash same_slot claimed is_type
clash-same_slot j k f worker_id lease_seconds now tj fj tk fk ak = ground arith

other :
    (j k : GraphJob) (worker_id : String) (lease_seconds now : ℕ)
    → clash (claimed j worker_id lease_seconds now) k ≡ true
    → k.id ≢ j.id
    → (not (k.id == (claimed j worker_id lease_seconds now).id)
        && clash (claimed j worker_id lease_seconds now) k)
      ≡ true
unfolding claimed
other j k worker_id lease_seconds now h ne = ground arith

any-Among :
    (p : GraphJob → Bool) (js : Table) (k : GraphJob) → Among k js → p k ≡ true → any p js ≡ true
any-Among p [] k m h = elim m [ ]
any-Among p (x ∷ js) k (inl e) h = ground (arith, ap p e)
any-Among p (x ∷ js) k (inr m) h = ground (arith, any-Among p js k m h)

module _ (jobs : Table) (worker_id : String) (lease_seconds : ℕ) (types : List JobType)
    (locked : List ℕ) (now : ℕ) where
  -- What a successful claim has done.
  pub record Claimed (job' : GraphJob) (jobs' : Table) : Type 0 where
    pub job : GraphJob
    pub there : Among job jobs
    pub due : IsClaimable now types locked job
    pub next : IsNext now types locked jobs job
    pub taken : job' ≡ claimed job worker_id lease_seconds now
    pub same : job'.id ≡ job.id
    pub now_running : job'.status ≡ running
    pub leased : job'.lease_owner ≡ some worker_id
    pub leased_until : job'.lease_expires_at ≡ some (now + lease_seconds)
    pub same_work :
        (job'.job_type ≡ job.job_type)
        × (job'.folder_id ≡ job.folder_id)
        × (job'.email_id ≡ job.email_id)
        × (job'.payload ≡ job.payload)
    pub counted : job'.attempts ≡ job.attempts + 1
    pub stored : jobs' ≡ put_row job' jobs
    pub fits : refuses_update jobs job' ≡ false

  claim-commit :
      (job : GraphJob) {job' : GraphJob} {jobs' : Table}
      → first_of_order (claimable now types locked) jobs ≡ some job
      → claim_next jobs worker_id lease_seconds types locked now ≡ ok (some job', jobs')
      → (job' ≡ claimed job worker_id lease_seconds now)
        × (jobs' ≡ put_row (claimed job worker_id lease_seconds now) jobs)
        × (refuses_update jobs (claimed job worker_id lease_seconds now) ≡ false)
  unfolding claim_next commit_row
  claim-commit job e h = ground (arith, e)

  -- A claim that returns a job has taken one that is PENDING or FAILED_RETRYABLE, due, of a wanted
  -- type and not locked; every other such row has a later priority, or the same priority and a later
  -- due time, or the same two and no earlier creation; the row that it stores under the job's id
  -- does the same work, is running, leased to the worker until the lease ends, with one attempt more.
  pub claim_next-first :
      (job' : GraphJob) (jobs' : Table)
      → claim_next jobs worker_id lease_seconds types locked now ≡ ok (some job', jobs')
      → Claimed job' jobs'
  unfolding claim_next claimed
  claim_next-first job' jobs' h =
      elim (Option-cases (first_of_order (claimable now types locked) jobs)) [
        | inl none_due ↦ absurd (nothing none_due)
        | inr (job, e) ↦
            let (taken, stored, fits) = claim-commit job e h in
            let first = first_of_order-IsFirst (claimable now types locked) jobs job e in
            record {
              job = job;
              there = first.there;
              due = claimable-IsClaimable now types locked job first.passes;
              next = least-IsNext now types locked jobs job first.least;
              taken = taken;
              same = rw taken refl;
              now_running = rw taken refl;
              leased = rw taken refl;
              leased_until = rw taken refl;
              same_work = rw taken (refl, refl, refl, refl);
              counted = rw taken refl;
              stored = stored ∙ ap (λ x. put_row x jobs) (sym taken);
              fits = rw taken fits;
            }
      ]
    where
      nothing : first_of_order (claimable now types locked) jobs ≡ none → ⊥
      nothing e = ground (arith, e)

  -- A waiting FAILED_RETRYABLE sync of a folder that is first in the order, while another sync of
  -- that folder is active, makes every claim fail on the unique index: no job at all is claimed.
  pub claim_next-blocked :
      (j k : GraphJob) (f : ℕ)
      → first_of_order (claimable now types locked) jobs ≡ some j
      → j.job_type ≡ sync_folder
      → j.folder_id ≡ some f
      → Among k jobs
      → k.id ≢ j.id
      → k.job_type ≡ sync_folder
      → k.folder_id ≡ some f
      → is_active k.status ≡ true
      → claim_next jobs worker_id lease_seconds types locked now ≡ err integrity_error
  unfolding claim_next commit_row refuses_update
  claim_next-blocked j k f e tj fj m ne tk fk ak =
      let j' = claimed j worker_id lease_seconds now in
      let slot = clash-same_slot j k f worker_id lease_seconds now tj fj tk fk ak in
      let full : refuses_update jobs j' ≡ true =
        any-Among (λ x. not (x.id == j'.id) && clash j' x) jobs k m
          (other j k worker_id lease_seconds now slot ne) in
      ground (arith, e, full)
