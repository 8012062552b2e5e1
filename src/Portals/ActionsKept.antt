-- ===== src/Portals/ActionsKept.antt =====
-- The calls of app/services/submission_evidence_service.py that a human completes leave sound
-- rows: attestations, signatures and payments.
use astra_licensing_graph.Prelude.{
  ◌≡◌, refl, inl, inr, ℕ, true, Option, none, some, List, String, ◌==◌, arith, Bool-cases, All,
  optional_true, is_some,
}
use mathlib.Core.Path.{subst}
use astra_licensing_graph.Portals.Vocabulary.{PaymentStatus, is_payment_approved, is_submitted}
use astra_licensing_graph.Portals.Rows.{
  Caller, HumanHandoff, PortalAttestationRecord, PortalPaymentRecord, SnapshotPayload, Store,
}
use astra_licensing_graph.Portals.Results.{Result, ◌>>◌}
use astra_licensing_graph.Portals.HumanActions.{
  approve_payment, attested, check_receipt, complete_handoff, complete_pending, ensure_attestation,
  ensure_payment, fee_changed, keep_attestation, new_attestation, new_payment, put_attestation,
  record_attestation_completion, record_external_payment, record_signature_completion,
  review_payment, validate_evidence_document,
}
use astra_licensing_graph.Portals.Outcomes.{IsPlain, Leaves, Leaves-check, call_rules, returned}
use astra_licensing_graph.Portals.Sound.{
  All-put, IsSound, IsSoundAttestation, IsSoundPayment, OnPayment,
}
use astra_licensing_graph.Portals.Writes.{in_status-IsSound}
use astra_licensing_graph.Portals.Withdrawn.{write_rules}

pub validate_evidence_document-IsPlain :
    (s : Store) (d : ℕ) → IsPlain (validate_evidence_document s d)
unfolding validate_evidence_document
validate_evidence_document-IsPlain s d e s' h = ground arith

check_receipt-IsPlain : (s : Store) (d : Option ℕ) → IsPlain (check_receipt s d)
unfolding check_receipt
check_receipt-IsPlain s none e s' h = ground arith
check_receipt-IsPlain s (some d) e s' h =
    ground (arith, validate_evidence_document-IsPlain s d e s')

module _ {P : Store → Type 0} where
  Leaves-receipt :
      (s : Store) (d : Option ℕ) (k : Result Store) → Leaves P k → Leaves P (check_receipt s d >> k)
  Leaves-receipt s d k h = Leaves-check (check_receipt s d) k (check_receipt-IsPlain s d) h

  Leaves-document :
      (s : Store) (d : ℕ) (k : Result Store)
      → Leaves P k
      → Leaves P (validate_evidence_document s d >> k)
  Leaves-document s d k h =
      Leaves-check (validate_evidence_document s d) k (validate_evidence_document-IsPlain s d) h

payment_approved-status :
    (st : PaymentStatus) → is_payment_approved st ≡ true → st ≡ PaymentStatus.approved
unfolding is_payment_approved
payment_approved-status PaymentStatus.approved h = refl
payment_approved-status _ h = absurd (cc)

attested-IsSoundAttestation :
    (c : Caller) (evidence : Option String) (a : PortalAttestationRecord)
    → optional_true evidence ≡ true
    → IsSoundAttestation (attested c evidence a)
unfolding attested
attested-IsSoundAttestation c none a h = absurd (cc)
attested-IsSoundAttestation c (some e) a h = λ _. (c.actor_id, _, refl, refl)

module _ (canonical_snapshot_hash : SnapshotPayload → String) where
  abbrev Sound : Store → Type 0
  Sound = IsSound canonical_snapshot_hash

  abbrev Kept : Result Store → Type 0
  Kept = Leaves Sound

  -- Other attestations, each with what a completed one has.
  with_attestations-IsSound :
      (s : Store) (rows : List PortalAttestationRecord)
      → All IsSoundAttestation rows
      → Sound s
      → Sound (record s { attestations = rows })
  with_attestations-IsSound s rows h v = record {
    mirrored = v.mirrored;
    snapshots = v.snapshots;
    one_approved = v.one_approved;
    attestations = h;
    payment = v.payment;
    confirmed = v.confirmed;
    submitted = v.submitted;
  }

  with_payment-IsSound :
      (s : Store) (p : PortalPaymentRecord)
      → IsSoundPayment p
      → Sound s
      → Sound (record s { payment = some p })
  with_payment-IsSound s p h v = record {
    mirrored = v.mirrored;
    snapshots = v.snapshots;
    one_approved = v.one_approved;
    attestations = v.attestations;
    payment = h;
    confirmed = v.confirmed;
    submitted = v.submitted;
  }

  complete_handoff-IsSound :
      (result : String) (h : HumanHandoff) (s : Store)
      → Sound s
      → Sound (complete_handoff result h s)
  unfolding complete_handoff is_submitted
  complete_handoff-IsSound result h s v = elim (Bool-cases (is_some h.browser_session_id)) [
    | inl own ↦ rw own (search write_rules)
    | inr other ↦ rw other (search write_rules)
  ]

  complete_pending-IsSound :
      (result : String) (h : Option HumanHandoff) (s : Store)
      → Sound s
      → Sound (complete_pending result h s)
  unfolding complete_pending
  complete_pending-IsSound result none s v = v
  complete_pending-IsSound result (some h) s v = complete_handoff-IsSound result h s v

  keep_attestation-Kept :
      (s : Store) (fresh : ℕ) (type : String) (actor : ℕ) (fingerprint : Option String)
      → (a : Option PortalAttestationRecord) → Sound s
      → Kept (keep_attestation s fresh type actor fingerprint a)
  unfolding keep_attestation
  keep_attestation-Kept s fresh type actor fingerprint none v = returned (
      with_attestations-IsSound s _ (unfold new_attestation in (λ h. absurd (cc)), v.attestations)
        v)
  keep_attestation-Kept s fresh type actor fingerprint (some a) v = search call_rules

  attested-IsSound :
      (s : Store) (c : Caller) (i : ℕ) (a : PortalAttestationRecord) (evidence : Option String)
      → Sound s
      → optional_true evidence ≡ true
      → Sound (record s { attestations = put_attestation (attested c evidence a) s.attestations })
  attested-IsSound s c i a evidence v h =
      with_attestations-IsSound s _
        (All-put IsSoundAttestation (λ x. x.id == (attested c evidence a).id)
          (attested c evidence a) s.attestations v.attestations
          (attested-IsSoundAttestation c evidence a h))
        v

  review_payment-IsSound :
      (s : Store) (fee : Option ℕ) (currency summary : Option String)
      → (p : Option PortalPaymentRecord) → Sound s
      → Sound (review_payment s fee currency summary p)
  unfolding review_payment is_submitted
  review_payment-IsSound s fee currency summary none v =
      with_payment-IsSound s _ (unfold new_payment in ((λ h. absurd (cc)), (λ h. absurd (cc)))) v
  review_payment-IsSound s fee currency summary (some p) v =
      elim (Bool-cases (fee_changed fee currency summary p)) [
        | inl changed ↦ rw changed (
            in_status-IsSound canonical_snapshot_hash _ _ refl
              (with_payment-IsSound s _ ((λ h. absurd (cc)), (λ h. absurd (cc))) v))
        | inr same ↦ rw same v
      ]

  approved_payment-IsSound :
      (s : Store) (c : Caller) (p : PortalPaymentRecord)
      → Sound s
      → Sound (record s {
        payment =
            some
              (record p { status = PaymentStatus.approved; approved_by_actor = some c.actor_id });
      })
  approved_payment-IsSound s c p v =
      with_payment-IsSound s _ ((λ _. (c.actor_id, refl)), (λ h. absurd (cc))) v

  paid-IsSound :
      (s : Store) (c : Caller) (p : PortalPaymentRecord) (receipt : Option ℕ)
      → s.payment ≡ some p
      → is_payment_approved p.status ≡ true
      → Sound s
      → Sound (record s {
        payment = some (record p {
          status = PaymentStatus.paid_externally;
          paid_by_actor = some c.actor_id;
          receipt_document_id = receipt;
        });
      })
  paid-IsSound s c p receipt e h v =
      let (u, approved) = (subst OnPayment e v.payment).0 (payment_approved-status p.status h) in
      with_payment-IsSound s _ ((λ x. absurd (cc)), (λ _. (u, c.actor_id, approved, refl))) v

  pub ensure_attestation-Kept :
      (s : Store) (fresh : ℕ) (type : String) (actor : ℕ) (fingerprint : Option String)
      → Sound s
      → Kept (ensure_attestation s fresh type actor fingerprint)
  unfolding ensure_attestation
  ensure_attestation-Kept s fresh type actor fingerprint v =
      search (call_rules, keep_attestation-Kept)

  pub ensure_payment-Kept :
      (s : Store) (fee : Option ℕ) (currency summary : Option String)
      → Sound s
      → Kept (ensure_payment s fee currency summary)
  unfolding ensure_payment
  ensure_payment-Kept s fee currency summary v =
      returned (review_payment-IsSound s fee currency summary s.payment v)

  module _ (s : Store) (c : Caller) (v : Sound s) where
    pub record_attestation_completion-Kept :
        (i : ℕ) (page : String) (evidence : Option String)
        → Kept (record_attestation_completion s c i page evidence)
    unfolding record_attestation_completion
    record_attestation_completion-Kept i page evidence =
        search (write_rules, call_rules, complete_pending-IsSound, attested-IsSound) depth 14

    pub record_signature_completion-Kept : (i : ℕ) → Kept (record_signature_completion s c i)
    unfolding record_signature_completion
    record_signature_completion-Kept i =
        search (write_rules, call_rules, Leaves-document, complete_handoff-IsSound) depth 14

    pub approve_payment-Kept : Kept (approve_payment s c)
    unfolding approve_payment
    approve_payment-Kept = search (call_rules, approved_payment-IsSound) depth 12

    pub record_external_payment-Kept :
        (receipt : Option ℕ) → Kept (record_external_payment s c receipt)
    unfolding record_external_payment
    record_external_payment-Kept receipt =
        search (write_rules, call_rules, Leaves-receipt, complete_pending-IsSound, paid-IsSound)
          depth 14
