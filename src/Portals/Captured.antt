-- ===== src/Portals/Captured.antt =====
-- What a recorded submission rests on: `capture_submission_result` of
-- app/services/submission_evidence_service.py.
use astra_licensing_graph.Prelude.{
  ◌⊎◌, ◌≢◌, Among, ◌≡◌, refl, ap, inl, inr, true, false, not, ◌||◌, Option, some, ◌∷◌, String,
  arith, Bool-cases, str_eq, optional_true, is_some,
}
use mathlib.Core.Path.{subst}
use astra_licensing_graph.Licensing.Stages.{elem, is_stage, post_signature_stages}
use astra_licensing_graph.Licensing.CaseService.{signature_recorded, signature_required}
use astra_licensing_graph.Licensing.Control.{transition-signed}
use astra_licensing_graph.Portals.Vocabulary.{
  HandoffStatus, HandoffType, PortalRunStatus, is_submitted,
}
use astra_licensing_graph.Portals.Rows.{
  Caller, HumanHandoff, PortalDefinition, Store, SubmissionEvidence,
}
use astra_licensing_graph.Portals.Results.{ok}
use astra_licensing_graph.Portals.Governance.{audited, in_status}
use astra_licensing_graph.Portals.Handoffs.{with_handoff}
use astra_licensing_graph.Portals.Submission.{
  Capture, advance_case, capture_submission_result, check_document, check_final_actor,
  confirm_submission, fail_submission, final_handoff, finish_handoff, is_ambiguous, is_reported,
  new_evidence, record_outcome, recorded_submission, submission_request, submission_stage,
}
use astra_licensing_graph.Portals.Bound.{
  ok-injective, not-false, bind-ok, check-ok, found-ok, require-ok,
}
use astra_licensing_graph.Portals.Reported.{
  IsOwner, check_final_actor-IsOwner, final_handoff_lem, is_reported_lem, unsubmitted,
}
use astra_licensing_graph.Portals.Advanced.{
  IsAdvanced, IsAsked, advance_case-ok, submission_request-IsAsked,
}

-- What a confirmed submission shows.
pub record IsVerified (s s' : Store) (c : Caller) (r : Capture) : Type 0 where
  pub page : str_eq r.page "confirmation" ≡ true
  pub reference :
      optional_true r.confirmation_number
        || optional_true r.filing_reference
        || is_some r.evidence_document_id
      ≡ true
  pub advanced : IsAdvanced s s' c r
  pub evidence : SubmissionEvidence
  pub added : s'.evidence ≡ evidence ∷ s.evidence
  pub named : evidence.id ≡ r.evidence_id
  pub number : evidence.confirmation_number ≡ r.confirmation_number
  pub filing : evidence.filing_reference ≡ r.filing_reference
  pub document : evidence.source_document_id ≡ r.evidence_document_id
  pub by_caller : evidence.submitted_by_actor ≡ c.actor_id
  pub dated : evidence.submitted_at ≡ some c.now
  pub asked : IsAsked c r (submission_request s c r)

confirm_submission-ok :
    (h : HumanHandoff) (s s' : Store) (c : Caller) (r : Capture)
    → confirm_submission h s c r ≡ ok s'
    → IsVerified s s' c r
unfolding confirm_submission recorded_submission submission_request new_evidence finish_handoff
    with_handoff in_status audited
confirm_submission-ok h s s' c r e =
    let (page, e₁) = require-ok (str_eq r.page "confirmation") _ _ e in
    let (reference, e₂) = require-ok _ _ _ e₁ in
    let (_, e₃) = check-ok (check_document s r.evidence_document_id) _ e₂ in
    let (t, m, e₄) = bind-ok (advance_case (recorded_submission h s c r) c r) _ e₃ in
    let (a, same) = advance_case-ok (recorded_submission h s c r) t c r m in
    subst (λ x. IsVerified s x c r) (ok-injective e₄)
      (record {
        page = page;
        reference = reference;
        advanced = record {
          case = a.case;
          found_case = a.found_case;
          pending = a.pending;
          moved = a.moved;
        };
        evidence = new_evidence c r;
        added = ap (λ x. x.evidence) same;
        named = refl;
        number = refl;
        filing = refl;
        document = refl;
        by_caller = refl;
        dated = refl;
        asked = submission_request-IsAsked s c r;
      })

-- A store in another status than SUBMITTED is not in it.
not_submitted :
    (s' : Store) (st : PortalRunStatus) (s : Store)
    → is_submitted st ≡ false
    → ok (in_status st s) ≡ ok s'
    → is_submitted s'.run.status ≡ false
unfolding in_status
not_submitted s' st s h e = subst (λ x. is_submitted x.run.status ≡ false) (ok-injective e) h

record_outcome-ok :
    (upper : String → String) (h : HumanHandoff) (s s' : Store) (c : Caller) (r : Capture)
    → record_outcome upper h s c r ≡ ok s'
    → is_submitted s'.run.status ≡ true
    → confirm_submission h s c r ≡ ok s'
unfolding record_outcome fail_submission is_submitted
record_outcome-ok upper h s s' c r e submitted = elim (Bool-cases (is_ambiguous upper r)) [
  | inl unclear ↦ absurd (
      cc (
        not_submitted s' PortalRunStatus.submission_result_pending s refl (rw unclear at e),
        submitted,
      ))
  | inr clear ↦ elim (Bool-cases (str_eq (upper r.outcome) "FAILED")) [
    | inl refused ↦ absurd (
        cc (
          not_submitted s' PortalRunStatus.submission_failed _ refl (rw (clear, refused) at e),
          submitted,
        ))
    | inr confirmed ↦ rw (clear, confirmed) at e
  ]
]

-- A call that leaves a run SUBMITTED found it in another status and a final-submit handoff, active
-- or completed, whose owner, if it names one, is the caller; it was given a confirmation page and a
-- confirmation number, a filing reference or a document; it adds evidence with just these, the
-- caller and the time; and it found the case at SUBMISSION_PENDING and moved it by an accepted
-- transition to SUBMITTED_TO_VENDOR or SUBMITTED_TO_REGULATOR that carries the evidence's id.
pub capture_submission_result-IsVerified :
    (upper : String → String) (s s' : Store) (c : Caller) (r : Capture)
    → capture_submission_result upper s c r ≡ ok s'
    → is_submitted s'.run.status ≡ true
    → (h : HumanHandoff) × Among h s.handoffs
      × (h.handoff_type ≡ HandoffType.final_submit)
      × ((h.status ≡ HandoffStatus.active) ⊎ (h.status ≡ HandoffStatus.completed))
      × IsOwner s c h.requested_from_user_id
      × (s.run.status ≢ PortalRunStatus.submitted)
      × IsVerified s s' c r
unfolding capture_submission_result
capture_submission_result-IsVerified upper s s' c r e submitted =
    let (h, final, e₁) = found-ok (final_handoff s) _ _ e in
    let (reported, e₂) = require-ok (is_reported h.status) _ _ e₁ in
    let (own, e₃) = check-ok (check_final_actor s c h.requested_from_user_id) _ e₂ in
    let (fresh, e₄) = require-ok (not (is_submitted s.run.status)) _ _ e₃ in
    (
      h,
      (final_handoff_lem s final).0,
      (final_handoff_lem s final).1,
      is_reported_lem h.status reported,
      check_final_actor-IsOwner s c h.requested_from_user_id own,
      unsubmitted s.run.status (not-false (is_submitted s.run.status) fresh),
      confirm_submission-ok h s s' c r (record_outcome-ok upper h s s' c r e₄ submitted),
    )

submission_stage-elem :
    (portal : Option PortalDefinition) → elem (submission_stage portal) post_signature_stages ≡ true
unfolding submission_stage post_signature_stages elem is_stage
submission_stage-elem portal = ground arith

-- A run is recorded as SUBMITTED only if no form of its compliance case needs a signature or a form
-- that needs one has its signed document: the portal cannot go around the control point of the
-- case.
pub capture_submission_result-signed :
    (upper : String → String) (s s' : Store) (c : Caller) (r : Capture)
    → capture_submission_result upper s c r ≡ ok s'
    → is_submitted s'.run.status ≡ true
    → signature_required s.case.instances ≡ true
    → signature_recorded s.case.instances ≡ true
unfolding submission_request
capture_submission_result-signed upper s s' c r e submitted needed =
    let (h, _, _, _, _, _, v) = capture_submission_result-IsVerified upper s s' c r e submitted in
    transition-signed s.case s'.case (submission_request s c r) (submission_stage s.portal)
      v.advanced.moved refl (submission_stage-elem s.portal) needed
