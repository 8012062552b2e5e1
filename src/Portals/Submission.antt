-- ===== src/Portals/Submission.antt =====
-- The final submission: `request_final_submit_handoff`, `request_submission_reconciliation`,
-- `capture_submission_result` and `_advance_case` of app/services/submission_evidence_service.py. The
-- transition of the case is that of `Licensing.CaseService`, and `str.upper` is a parameter.
use astra_licensing_graph.Prelude.{
  ℕ, ◌+◌, ◌*◌, Bool, true, false, not, ◌||◌, Option, none, some, ◌∷◌, String, end, field, text,
  if◌then◌else◌, any, find_first, is_some, optional_true, or_else, str_eq,
}
use astra_licensing_graph.Licensing.Stages.{CaseStage}
use astra_licensing_graph.Licensing.Transition.{known}
use astra_licensing_graph.Licensing.CaseRows as CaseRows
use astra_licensing_graph.Licensing.CaseRows.{ComplianceCase, Request, Uuid, uuid_text}
use astra_licensing_graph.Licensing.CaseService.{names, transition}
use astra_licensing_graph.Portals.Vocabulary.{
  HandoffStatus, HandoffType, PortalRunStatus, is_active, is_attested, is_completed_handoff,
  is_settled, is_submitted,
}
use astra_licensing_graph.Portals.Rows.{
  Caller, GovernedForm, HumanHandoff, JobKey, PortalDefinition, PortalPaymentRecord, Store,
  SubmissionEvidence, submission_evidence_verified,
}
use astra_licensing_graph.Portals.Results.{
  Conflict, Error, Result, err, found, ok, present, require, ◌>>=◌, ◌>>◌,
}
use astra_licensing_graph.Portals.Governance.{
  approved_snapshot, assert_actor_is_user, audited, enqueue, in_status, operator_session,
  revalidate_governance,
}
use astra_licensing_graph.Portals.Handoffs.{create_handoff, same_type, with_handoff}
use astra_licensing_graph.Portals.HumanActions.{validate_evidence_document}

-- A required signature is there, where the run has a form.
unfoldable pub form_settled : Option ℕ → Option GovernedForm → Bool
form_settled (some i) (some f) = not f.signature_required || f.is_signed
form_settled _ _ = true

unfoldable pub payment_settled : Option PortalPaymentRecord → Bool
payment_settled none = true
payment_settled (some p) = is_settled p.status

unfoldable pub all_attested : Store → Bool
all_attested s = not (any (λ a. not (is_attested a.status)) s.attestations)

unfoldable pub request_final_submit_handoff : Store → Caller → Result Store
request_final_submit_handoff s c = do
  _ ← revalidate_governance s c.now
  _ ← present (approved_snapshot s) Conflict.no_approved_snapshot
  require (all_attested s) Conflict.attestation_incomplete
  require (form_settled s.run.form_instance_id s.form) Conflict.signature_incomplete
  require (payment_settled s.payment) Conflict.payment_incomplete
  operator ← present s.run.assigned_operator_id Conflict.no_operator
  session ← present (operator_session s operator) Conflict.no_final_session
  create_handoff s c HandoffType.final_submit (some operator) none (some session.id)

-- The newest final-submit handoff.
unfoldable pub final_handoff : Store → Option HumanHandoff
final_handoff s = find_first (λ h. same_type h.handoff_type HandoffType.final_submit) s.handoffs

unfoldable pub request_submission_reconciliation : Store → Caller → Result Store
request_submission_reconciliation s c = do
  h ← present (final_handoff s) Conflict.no_final_handoff
  require (is_active h.status) Conflict.no_final_handoff
  user ← present h.requested_from_user_id Conflict.final_handoff_unowned
  session ← present h.browser_session_id Conflict.final_handoff_unowned
  assert_actor_is_user s c user
  require (not (is_submitted s.run.status)) Conflict.already_recorded
  let s' = with_handoff (record h { result = some "HUMAN_ACTION_REPORTED" }) s
  ok (
      enqueue (JobKey.submission_capture h.id) session 1
        (in_status PortalRunStatus.submission_result_pending s'))

-- What the human reports of the final action, and the id that new evidence gets.
pub record Capture : Type 0 where
  pub outcome : String
  pub page : String
  pub ambiguous : Bool
  pub confirmation_number : Option String
  pub filing_reference : Option String
  pub evidence_document_id : Option ℕ
  pub evidence_id : Uuid

unfoldable pub new_evidence : Caller → Capture → SubmissionEvidence
new_evidence c r = record {
  id = r.evidence_id;
  confirmation_number = r.confirmation_number;
  filing_reference = r.filing_reference;
  source_document_id = r.evidence_document_id;
  evidence_sha256 = none;
  submitted_by_actor = c.actor_id;
  submitted_at = some c.now;
}

-- `portal and portal.portal_type in {"LICENSING_VENDOR", "BOND_PROVIDER"}`
goes_to_vendor : Option PortalDefinition → Bool
goes_to_vendor none = false
goes_to_vendor (some p) =
    str_eq p.portal_type "LICENSING_VENDOR" || str_eq p.portal_type "BOND_PROVIDER"

unfoldable pub submission_stage : Option PortalDefinition → CaseStage
unfolding goes_to_vendor
submission_stage portal =
    if goes_to_vendor portal
    then CaseStage.submitted_to_vendor
    else CaseStage.submitted_to_regulator

unfoldable pub submission_request : Store → Caller → Capture → Request
submission_request s c r = record {
  to_stage = known (submission_stage s.portal);
  actor_id = c.actor_id;
  reason = some "Human portal submission verified.";
  evidence = some (
      field "submission_reference" (text (uuid_text r.evidence_id))
        (field "portal_run_id" (text (uuid_text s.run.id)) end));
  close_reason = none;
  now = c.now;
}

unfoldable pub moved_case : CaseRows.Result CaseRows.Store → Result CaseRows.Store
moved_case (CaseRows.ok case) = ok case
moved_case (CaseRows.err e) = err Error.invalid_transition

-- The follow-up deadline is made once for a run, seven days later.
unfoldable pub follow_up : ℕ → Option ℕ → Option ℕ
follow_up now due = or_else due (some (now + 7 * 86400))

unfoldable pub advance_case : Store → Caller → Capture → Result Store
advance_case s c r = do
  case ← found s.case.case Error.not_found
  require (names CaseStage.submission_pending case.current_stage) Conflict.case_not_pending
  moved ← moved_case (transition s.case (submission_request s c r))
  ok (record s { case = moved; follow_up_due = follow_up c.now s.follow_up_due })

unfoldable pub finish_handoff : Option String → HumanHandoff → Store → Store
finish_handoff result h =
    with_handoff (record h { status = HandoffStatus.completed; result = result })

unfoldable pub check_final_actor : Store → Caller → Option ℕ → Result (Unit {0})
check_final_actor s c none = ok tt
check_final_actor s c (some user) = assert_actor_is_user s c user

unfoldable pub check_document : Store → Option ℕ → Result (Unit {0})
check_document s none = ok tt
check_document s (some d) = validate_evidence_document s d

unfoldable pub is_reported : HandoffStatus → Bool
is_reported st = is_active st || is_completed_handoff st

-- The writes of a confirmed submission, before the case is advanced.
unfoldable pub recorded_submission : HumanHandoff → Store → Caller → Capture → Store
recorded_submission h s c r =
    let s' = record s {
      evidence = new_evidence c r ∷ s.evidence;
      run = record s.run { submitted_at = some c.now };
    } in
    in_status PortalRunStatus.submitted (finish_handoff (some "CONFIRMED") h s')

unfoldable pub confirm_submission : HumanHandoff → Store → Caller → Capture → Result Store
confirm_submission h s c r = do
  require (str_eq r.page "confirmation") Conflict.page_not_confirmation
  require
      (optional_true r.confirmation_number
        || optional_true r.filing_reference
        || is_some r.evidence_document_id)
      Conflict.no_confirmation
  check_document s r.evidence_document_id
  s' ← advance_case (recorded_submission h s c r) c r
  ok (audited (submission_evidence_verified r.evidence_id) s')

unfoldable pub fail_submission : HumanHandoff → Store → Store
fail_submission h s = in_status PortalRunStatus.submission_failed (finish_handoff h.result h s)

module _ (upper : String → String) where
  -- The outcome that the human reports cannot be told.
  unfoldable pub is_ambiguous : Capture → Bool
  is_ambiguous r =
      r.ambiguous || not (str_eq (upper r.outcome) "CONFIRMED" || str_eq (upper r.outcome) "FAILED")

  unfoldable pub record_outcome : HumanHandoff → Store → Caller → Capture → Result Store
  record_outcome h s c r =
      if is_ambiguous r
      then ok (in_status PortalRunStatus.submission_result_pending s)
      else if str_eq (upper r.outcome) "FAILED"
      then ok (fail_submission h s)
      else confirm_submission h s c r

  unfoldable pub capture_submission_result : Store → Caller → Capture → Result Store
  capture_submission_result s c r = do
    h ← present (final_handoff s) Conflict.no_final_handoff
    require (is_reported h.status) Conflict.no_final_handoff
    check_final_actor s c h.requested_from_user_id
    require (not (is_submitted s.run.status)) Conflict.already_recorded
    record_outcome h s c r
