-- ===== src/Portals/Sound.antt =====
-- What holds of the rows of a portal run at any time, and how the shared writes of
-- app/services/portal_run_service.py keep it.
use astra_licensing_graph.Prelude.{
  ◌≡◌, sym, ◌∙◌, ◌≢◌, ◌⊎◌, inl, inr, ap, ◌≤◌, Bool, true, false, ◌||◌, Option, none, some, List, [],
  ◌∷◌, map, String, if◌then◌else◌, All, Bool-cases, find_first, is_some, optional_true, any,
}
use mathlib.Core.Path.{subst}
use astra_licensing_graph.Portals.Vocabulary.{
  AttestationStatus, PaymentStatus, is_approved, is_ready_for_review, is_submitted,
}
use astra_licensing_graph.Portals.Rows.{
  Manifest, PortalAttestationRecord, PortalPaymentRecord, PreSubmissionSnapshot, SnapshotPayload,
  Store, SubmissionEvidence,
}
use astra_licensing_graph.Portals.Snapshots.{approved_count, payload_of}

-- A row written back by a test keeps what holds of all rows.
pub All-put :
    {A : Type 0} (P : A → Type 0) (same : A → Bool) (row : A) (xs : List A)
    → All P xs
    → P row
    → All P (map (λ x. if same x then row else x) xs)
All-put P same row [] h p = tt
All-put P same row (x ∷ xs) h p = (kept (same x), All-put P same row xs h.1 p)
  where
    kept : (b : Bool) → P (if b then row else x)
    kept true = p
    kept false = h.0

pub All-find_first :
    {A : Type 0} (P : A → Type 0) (test : A → Bool) (xs : List A) {a : A}
    → All P xs
    → find_first test xs ≡ some a
    → P a
All-find_first P test [] h e = absurd (cc)
All-find_first P test (x ∷ xs) {a} h e = elim (Bool-cases (test x)) [
  | inl hit ↦ subst P (ap (λ (o : Option _). elim o [ none ↦ x | some y ↦ y ]) (rw hit at e)) h.0
  | inr miss ↦ All-find_first P test xs h.1 (rw miss at e)
]

-- The row that is found passes the test.
pub find_first-test :
    {A : Type 0} (test : A → Bool) (xs : List A) {a : A}
    → find_first test xs ≡ some a
    → test a ≡ true
find_first-test test [] e = absurd (cc)
find_first-test test (x ∷ xs) {a} e = elim (Bool-cases (test x)) [
  | inl hit ↦
      subst (λ y. test y ≡ true)
        (ap (λ (o : Option _). elim o [ none ↦ x | some y ↦ y ]) (rw hit at e)) hit
  | inr miss ↦ find_first-test test xs (rw miss at e)
]

abbrev pub IsSoundAttestation : PortalAttestationRecord → Type 0
IsSoundAttestation a =
    a.status ≡ AttestationStatus.completed_by_human
    → (u : String) × (e : String) × (a.completed_by_actor ≡ some u)
      × (a.evidence_reference ≡ some e)

-- A payment that was approved or made names who did so.
abbrev pub IsSoundPayment : PortalPaymentRecord → Type 0
IsSoundPayment p =
    (p.status ≡ PaymentStatus.approved → (u : String) × (p.approved_by_actor ≡ some u))
    × (p.status ≡ PaymentStatus.paid_externally
        → (u : String) × (v : String) × (p.approved_by_actor ≡ some u) × (p.paid_by_actor ≡ some v))

-- A number, a reference or a document.
abbrev pub has_reference : SubmissionEvidence → Bool
has_reference e =
    optional_true e.confirmation_number
    || optional_true e.filing_reference
    || is_some e.source_document_id

-- Or a hash, which `add_evidence` takes too.
abbrev pub IsConfirmed : SubmissionEvidence → Type 0
IsConfirmed e = has_reference e || optional_true e.evidence_sha256 ≡ true

abbrev pub OnPayment : Option PortalPaymentRecord → Type 0
OnPayment none = Unit
OnPayment (some p) = IsSoundPayment p

-- The rows that soundness is about are the same, and so is what a payload takes from the run.
pub record SameRows (s s' : Store) : Type 0 where
  pub pins : payload_of s'.run ≡ payload_of s.run
  pub snapshots : s'.snapshots ≡ s.snapshots
  pub attestations : s'.attestations ≡ s.attestations
  pub payment : s'.payment ≡ s.payment
  pub evidence : s'.evidence ≡ s.evidence

module _ (canonical_snapshot_hash : SnapshotPayload → String) where
  pub record IsSoundSnapshot (pins : Manifest → SnapshotPayload) (r : PreSubmissionSnapshot)
      : Type 0 where
    pub hashed : r.snapshot_sha256 ≡ canonical_snapshot_hash (pins r.manifest)
    pub clean :
        (is_ready_for_review r.status ≡ true) ⊎ (is_approved r.status ≡ true)
        → r.manifest.discrepancy_report ≡ []
    pub four_eyes :
        is_approved r.status ≡ true
        → (a : String) × (r.reviewed_by_actor ≡ some a) × (a ≢ r.created_by_actor)

  pub record IsSound (s : Store) : Type 0 where
    pub mirrored : s.run.current_stage ≡ s.run.status
    pub snapshots : All (IsSoundSnapshot (payload_of s.run)) s.snapshots
    pub one_approved : approved_count s.snapshots ≤ 1
    pub attestations : All IsSoundAttestation s.attestations
    pub payment : OnPayment s.payment
    pub confirmed : All IsConfirmed s.evidence
    pub submitted : is_submitted s.run.status ≡ true → any has_reference s.evidence ≡ true

  -- Writes to other rows keep it: with the run's status as it was, or another than SUBMITTED.
  pub IsSound-stays :
      (s s' : Store)
      → IsSound s
      → SameRows s s'
      → s'.run.current_stage ≡ s.run.current_stage
      → s'.run.status ≡ s.run.status
      → IsSound s'
  IsSound-stays s s' v same m st = record {
    mirrored = m ∙ v.mirrored ∙ sym st;
    snapshots = rw (same.pins, same.snapshots) v.snapshots;
    one_approved = rw same.snapshots v.one_approved;
    attestations = rw same.attestations v.attestations;
    payment = rw same.payment v.payment;
    confirmed = rw same.evidence v.confirmed;
    submitted = λ h. rw same.evidence (v.submitted (rw st at h));
  }

  pub IsSound-moves :
      (s s' : Store)
      → IsSound s
      → SameRows s s'
      → s'.run.current_stage ≡ s'.run.status
      → is_submitted s'.run.status ≡ false
      → IsSound s'
  IsSound-moves s s' v same m other = record {
    mirrored = m;
    snapshots = rw (same.pins, same.snapshots) v.snapshots;
    one_approved = rw same.snapshots v.one_approved;
    attestations = rw same.attestations v.attestations;
    payment = rw same.payment v.payment;
    confirmed = rw same.evidence v.confirmed;
    submitted = λ h. absurd (cc (other, h));
  }
