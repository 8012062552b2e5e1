-- ===== src/Portals/HumanActions.antt =====
-- Attestations, signatures and payments, which only a human completes: `ensure_attestation`,
-- `record_attestation_completion`, `record_signature_completion`, `ensure_payment`,
-- `approve_payment` and `record_external_payment` of app/services/submission_evidence_service.py. A fee
-- summary is kept as its JSON text.
use astra_licensing_graph.Prelude.{
  ℕ, Bool, true, false, not, ◌&&◌, ◌||◌, Option, none, some, List, ◌∷◌, map, String, if◌then◌else◌,
  ◌==◌, find_first, is_some, str_eq, optional_true, truncate,
}
use astra_licensing_graph.Portals.Vocabulary.{
  AttestationStatus, HandoffStatus, HandoffType, PaymentStatus, PortalRunStatus, is_active,
  is_payment_approved, is_requested, is_review_required, is_waiting,
}
use astra_licensing_graph.Portals.Rows.{
  Caller, GovernedForm, HumanHandoff, PortalAttestationRecord, PortalPaymentRecord, Store,
  attestation_completion_recorded, external_payment_recorded, signature_completion_recorded,
}
use astra_licensing_graph.Portals.Results.{
  Conflict, Error, Result, found, ok, present, require, ◌>>=◌, ◌>>◌,
}
use astra_licensing_graph.Portals.Governance.{assert_actor_is_user, audited, in_status}
use astra_licensing_graph.Portals.Handoffs.{handoff_by_id, same_type, with_handoff}

abbrev pub put_attestation :
    PortalAttestationRecord → List PortalAttestationRecord → List PortalAttestationRecord
put_attestation row = map (λ r. if r.id == row.id then row else r)

unfoldable pub attestation_by_id : ℕ → Store → Option PortalAttestationRecord
attestation_by_id i s = find_first (λ r. r.id == i) s.attestations

same_id : ℕ → Option ℕ → Bool
same_id u none = false
same_id u (some v) = u == v

-- Both fingerprints are there and differ.
text_changed : Option String → Option String → Bool
text_changed (some a) (some b) =
    optional_true (some a) && optional_true (some b) && not (str_eq a b)
text_changed _ _ = false

unfoldable pub new_attestation : ℕ → String → ℕ → Option String → PortalAttestationRecord
new_attestation fresh type required_actor fingerprint = record {
  id = fresh;
  attestation_type = type;
  required_actor_id = some required_actor;
  status = AttestationStatus.waiting;
  attestation_text_fingerprint = fingerprint;
  completed_by_actor = none;
  evidence_reference = none;
}

unfoldable pub keep_attestation :
    Store → ℕ → String → ℕ → Option String → Option PortalAttestationRecord → Result Store
unfolding text_changed
keep_attestation s fresh type required_actor fingerprint (some a) = do
  require (not (text_changed a.attestation_text_fingerprint fingerprint))
      Conflict.attestation_changed
  ok s
keep_attestation s fresh type required_actor fingerprint none = ok (record s {
  attestations = new_attestation fresh type required_actor fingerprint ∷ s.attestations;
})

unfoldable pub ensure_attestation :
    Store
    → (fresh : ℕ) (attestation_type : String) (required_actor_id : ℕ)
    → (text_fingerprint : Option String) → Result Store
unfolding same_id
ensure_attestation s fresh type required_actor fingerprint = do
  require (same_id required_actor s.run.assigned_signatory_id) Conflict.not_signatory
  keep_attestation s fresh type required_actor fingerprint
      (find_first (λ a. str_eq a.attestation_type type) s.attestations)

-- The newest handoff of a type that is REQUESTED or ACTIVE.
unfoldable pub pending_handoff : Store → HandoffType → Option HumanHandoff
pending_handoff s t =
    find_first (λ h. same_type h.handoff_type t && (is_requested h.status || is_active h.status))
      s.handoffs

-- Without a session of its own the handoff gives the run back to the operator.
unfoldable pub complete_handoff : String → HumanHandoff → Store → Store
complete_handoff result h s =
    let s' = with_handoff (record h { status = HandoffStatus.completed; result = some result }) s in
    if is_some h.browser_session_id then s' else in_status PortalRunStatus.waiting_operator s'

unfoldable pub complete_pending : String → Option HumanHandoff → Store → Store
unfolding complete_handoff
complete_pending result none s = s
complete_pending result (some h) s = complete_handoff result h s

-- `resulting_page_category in {"attestation", "final_submit"}`
on_attestation : String → Bool
on_attestation page = str_eq page "attestation" || str_eq page "final_submit"

unfoldable pub attested : Caller → Option String → PortalAttestationRecord → PortalAttestationRecord
attested c none a = a
attested c (some e) a = record a {
  status = AttestationStatus.completed_by_human;
  completed_by_actor = some c.actor_id;
  evidence_reference = some (truncate 1000 e);
}

unfoldable pub record_attestation_completion :
    Store
    → Caller
    → (attestation_id : ℕ) (page : String) (evidence_reference : Option String) → Result Store
unfolding on_attestation
record_attestation_completion s c attestation_id page evidence = do
  a ← found (attestation_by_id attestation_id s) Error.not_found
  require (is_waiting a.status) Conflict.attestation_not_waiting
  user ← present a.required_actor_id Conflict.attestation_unassigned
  assert_actor_is_user s c user
  require (not (on_attestation page)) Conflict.page_not_attested
  require (optional_true evidence) Conflict.no_evidence
  let s' = record s { attestations = put_attestation (attested c evidence a) s.attestations }
  ok (
      audited (attestation_completion_recorded a.id)
        (complete_pending "COMPLETED_BY_HUMAN" (pending_handoff s HandoffType.attestation) s'))

-- `_validate_evidence_document`
unfoldable pub validate_evidence_document : Store → ℕ → Result (Unit {0})
validate_evidence_document s document_id = do
  d ← found (find_first (λ x. x.id == document_id) s.evidence_documents) Error.not_found
  require d.is_available Conflict.document_unavailable
  require d.is_linked Conflict.document_not_linked

is_active_signature : HumanHandoff → Bool
is_active_signature h = same_type h.handoff_type HandoffType.signature && is_active h.status

signed_document : Option GovernedForm → Option ℕ
signed_document none = none
signed_document (some f) =
    if f.signature_required && f.is_signed then f.signed_document_id else none

unfoldable pub record_signature_completion : Store → Caller → (handoff_id : ℕ) → Result Store
unfolding is_active_signature signed_document
record_signature_completion s c handoff_id = do
  h ← present (handoff_by_id handoff_id s) Conflict.signature_not_active
  require (is_active_signature h) Conflict.signature_not_active
  user ← present h.requested_from_user_id Conflict.handoff_unassigned
  assert_actor_is_user s c user
  _ ← present s.run.form_instance_id Conflict.no_form
  document ← present (signed_document s.form) Conflict.form_not_signed
  validate_evidence_document s document
  ok (
      audited (signature_completion_recorded h.id)
        (complete_handoff "SIGNED_BY_AUTHORIZED_PERSON" h s))

-- Two optional values that differ.
changed_amount : Option ℕ → Option ℕ → Bool
changed_amount none none = false
changed_amount (some a) (some b) = not (a == b)
changed_amount _ _ = true

changed_text : Option String → Option String → Bool
changed_text none none = false
changed_text (some a) (some b) = not (str_eq a b)
changed_text _ _ = true

unfoldable pub new_payment : Option ℕ → Option String → Option String → PortalPaymentRecord
new_payment fee currency summary = record {
  status = PaymentStatus.review_required;
  expected_fee_amount = fee;
  currency = currency;
  portal_fee_summary = summary;
  approved_by_actor = none;
  paid_by_actor = none;
  receipt_document_id = none;
}

-- An approved payment whose fee is now another one.
unfoldable pub fee_changed : Option ℕ → Option String → Option String → PortalPaymentRecord → Bool
unfolding changed_amount changed_text
fee_changed fee currency summary p =
    is_payment_approved p.status
    && (changed_amount p.expected_fee_amount fee
        || changed_text p.currency currency
        || changed_text p.portal_fee_summary summary)

unfoldable pub review_payment :
    Store → Option ℕ → Option String → Option String → Option PortalPaymentRecord → Store
review_payment s fee currency summary none = record s {
  payment = some (new_payment fee currency summary);
}
review_payment s fee currency summary (some p) =
    if fee_changed fee currency summary p
    then in_status PortalRunStatus.discrepancies_found
        (record s { payment = some (record p { status = PaymentStatus.review_required }) })
    else s

unfoldable pub ensure_payment :
    Store → (fee : Option ℕ) (currency fee_summary : Option String) → Result Store
ensure_payment s fee currency summary = ok (review_payment s fee currency summary s.payment)

unfoldable pub approve_payment : Store → Caller → Result Store
approve_payment s c = do
  p ← found s.payment Error.not_found
  approver ← present s.run.assigned_payment_approver_id Conflict.no_payment_approver
  assert_actor_is_user s c approver
  require (is_review_required p.status) Conflict.payment_not_in_review
  ok (record s {
    payment =
        some (record p { status = PaymentStatus.approved; approved_by_actor = some c.actor_id });
  })

unfoldable pub check_receipt : Store → Option ℕ → Result (Unit {0})
check_receipt s none = ok tt
check_receipt s (some d) = validate_evidence_document s d

unfoldable pub record_external_payment :
    Store → Caller → (receipt_document_id : Option ℕ) → Result Store
record_external_payment s c receipt = do
  p ← found s.payment Error.not_found
  approver ← present s.run.assigned_payment_approver_id Conflict.no_payment_approver
  assert_actor_is_user s c approver
  require (is_payment_approved p.status) Conflict.payment_not_approved
  check_receipt s receipt
  let paid = record p {
    status = PaymentStatus.paid_externally;
    paid_by_actor = some c.actor_id;
    receipt_document_id = receipt;
  }
  ok (
      audited external_payment_recorded (
        complete_pending "PAID_EXTERNALLY" (pending_handoff s HandoffType.payment)
          (record s { payment = some paid })))
