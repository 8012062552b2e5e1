-- ===== src/Portals/Tests.antt =====
-- One portal run from its snapshot to its recorded submission, and the theorems at it.
use astra_licensing_graph.Prelude.{
  ◌≡◌, refl, ◌≢◌, arith, ℕ, ◌≤◌, true, false, none, some, [], All, str_eq, Among, ◌⊎◌, inl, inr,
}
use astra_licensing_graph.Licensing.Stages as Stages
use astra_licensing_graph.Licensing.Stages.{CaseStage, CaseStatus}
use astra_licensing_graph.Licensing.Transition.{known}
use astra_licensing_graph.Licensing.Transition as Transition
use astra_licensing_graph.Licensing.CaseRows.{uuid}
use astra_licensing_graph.Licensing.CaseService as CaseService
use astra_licensing_graph.Licensing.CaseService.{signature_recorded}
use astra_licensing_graph.Portals.Vocabulary.{
  AutomationLevel, BrowserSessionStatus, HandoffStatus, HandoffType, PaymentStatus,
  PortalApprovalStatus, PortalReviewStatus, PortalRunStatus, SnapshotStatus,
}
use astra_licensing_graph.Portals.Vocabulary as Vocabulary
use astra_licensing_graph.Portals.Policies as Policies
use astra_licensing_graph.Portals.Rows.{
  BrowserSession, HumanHandoff, PortalDefinition, PortalReviewVersion, PreSubmissionSnapshot, Store,
}
use astra_licensing_graph.Portals.Results.{Conflict, Error, err, ok, settled}
use astra_licensing_graph.Portals.Governance as Governance
use astra_licensing_graph.Portals.Governance.{
  in_status, is_live, operator_session, approved_snapshot, revalidate_governance,
}
use astra_licensing_graph.Portals.RunService.{capture_validation}
use astra_licensing_graph.Portals.Snapshots as Snapshots
use astra_licensing_graph.Portals.Snapshots.{approve_snapshot, create_snapshot}
use astra_licensing_graph.Portals.Sessions as Sessions
use astra_licensing_graph.Portals.Handoffs as Handoffs
use astra_licensing_graph.Portals.Submission as Submission
use astra_licensing_graph.Portals.Submission.{
  Capture, capture_submission_result, request_final_submit_handoff,
}
use astra_licensing_graph.Portals.Evidence as Evidence
use astra_licensing_graph.Portals.Evidence.{EvidenceFields, add_evidence}
use astra_licensing_graph.Portals.Sound.{IsSound}
use astra_licensing_graph.Portals.Steps as Steps
use astra_licensing_graph.Portals.Steps.{Environment, Call, Steps-IsSound, called, stay, then}
use astra_licensing_graph.Portals.Cleared.{IsCleared, IsHanded, final_submit-IsCleared}
use astra_licensing_graph.Portals.Governed.{IsGoverned}
use astra_licensing_graph.Portals.Settled as Settled
use astra_licensing_graph.Portals.Reported.{IsOwner}
use astra_licensing_graph.Portals.Captured.{
  capture_submission_result-IsVerified, capture_submission_result-signed, IsVerified,
}
use astra_licensing_graph.Portals.Approved.{approve_snapshot-blocked, approve_snapshot-newest}
use astra_licensing_graph.Portals.Reopened.{capture_validation-reopens}
use astra_licensing_graph.Portals.Example.{session, hash, env, ana, bob, opened}

abbrev taken : Store
taken = settled opened (create_snapshot hash opened ana)

abbrev approved : Store
approved = settled taken (approve_snapshot hash taken bob 70)

-- What the tests compute with.
program : Unit {0}
unfolding Stages.is_stage Stages.elem Stages.allowed_transitions Stages.evidence_requirements
    Stages.stage_status Stages.post_signature_stages Stages.terminal_stages
    Transition.check_controls Transition.validate_transition CaseService.fill_payload
    CaseService.case_facts CaseService.move_case CaseService.stage_event CaseService.commit_move
    CaseService.transition_case CaseService.transition Vocabulary.in_approved_statuses
    Vocabulary.is_review_approved Vocabulary.in_active_session_statuses
    Vocabulary.is_validation_step Vocabulary.is_discrepancy Vocabulary.is_verified
    Vocabulary.is_open_handoff Vocabulary.is_active Vocabulary.is_completed_handoff
    Vocabulary.is_approved Vocabulary.is_ready_for_review Vocabulary.is_attested
    Vocabulary.is_settled Vocabulary.is_submitted Policies.approval_is_current Governance.in_status
    Governance.audited Governance.enqueue Governance.adapter_current
    Governance.revalidate_governance Governance.acts_as Governance.principal_of Governance.is_user
    Policies.after_moment Policies.lapsed Governance.operator_session Governance.live_session
    Governance.approved_snapshot Governance.add_step Governance.add_job Snapshots.compare_field
    Snapshots.demanded Snapshots.field_discrepancies Snapshots.document_discrepancies
    Snapshots.latest_validation_messages Snapshots.message_discrepancies Snapshots.discrepancies
    Snapshots.max_version Snapshots.latest_snapshot Snapshots.manifest_of Snapshots.payload_of
    Snapshots.snapshot_status Snapshots.captured_status Snapshots.snapshot_by_id
    Snapshots.approved_count Snapshots.is_latest Snapshots.with_snapshot Snapshots.with_approval
    Snapshots.commit_approval Snapshots.new_snapshot Snapshots.create_snapshot
    Snapshots.approve_snapshot Sessions.session_by_id Sessions.under Sessions.live_count
    Sessions.commit_sessions Handoffs.handoff_by_id Handoffs.run_status_for_handoff
    Handoffs.same_type Handoffs.owned_session Handoffs.handoff_session Handoffs.open_handoff
    Handoffs.add_handoff Handoffs.ensure_handoff Handoffs.create_handoff Handoffs.is_lapsed
    Handoffs.control_session Handoffs.with_handoff Handoffs.refuse_expired Handoffs.accept_handoff
    Submission.form_settled Submission.payment_settled Submission.all_attested
    Submission.request_final_submit_handoff Submission.final_handoff Submission.new_evidence
    Submission.submission_stage Submission.submission_request Submission.moved_case
    Submission.follow_up Submission.advance_case Submission.finish_handoff
    Submission.check_final_actor Submission.check_document Vocabulary.is_requested
    Submission.is_reported Submission.recorded_submission Submission.confirm_submission
    Submission.is_ambiguous Submission.record_outcome Submission.capture_submission_result settled
program = tt

opened-IsSound : IsSound hash opened
unfolding program
opened-IsSound = record {
  mirrored = refl;
  snapshots = tt;
  one_approved = omega arith;
  attestations = tt;
  payment = tt;
  confirmed = tt;
  submitted = λ h. absurd (cc);
}

-- ana takes a snapshot and bob approves it.
approved-IsSound : IsSound hash approved
unfolding Steps.perform
approved-IsSound =
    Steps-IsSound env
      (then (called ana Call.create_snapshot) (then (called bob (Call.approve_snapshot 70)) stay))
      opened-IsSound

taken-IsSound : IsSound hash taken
unfolding Steps.perform
taken-IsSound = Steps-IsSound env (then (called ana Call.create_snapshot) stay) opened-IsSound

approved_ok : approve_snapshot hash taken bob 70 ≡ ok approved
unfolding program
approved_ok = refl

final_ok :
    request_final_submit_handoff approved ana
    ≡ ok (settled approved (request_final_submit_handoff approved ana))
unfolding program
final_ok = refl

abbrev handed : Store
handed = settled approved (request_final_submit_handoff approved ana)

abbrev controlled : Store
controlled = settled handed (Handoffs.accept_handoff handed ana 70)

abbrev report : Capture
report = record {
  outcome = "CONFIRMED";
  page = "confirmation";
  ambiguous = false;
  confirmation_number = some "N-1";
  filing_reference = none;
  evidence_document_id = none;
  evidence_id = uuid "e" "1";
}

abbrev submitted : Store
submitted = settled controlled (capture_submission_result (λ t. t) controlled ana report)

captured_ok : capture_submission_result (λ t. t) controlled ana report ≡ ok submitted
unfolding program
captured_ok = refl

submitted_status : Vocabulary.is_submitted submitted.run.status ≡ true
unfolding program
submitted_status = refl

controlled-IsSound : IsSound hash controlled
unfolding Steps.perform
controlled-IsSound =
    Steps-IsSound env
      (then (called ana Call.request_final_submit_handoff)
        (then (called ana (Call.accept_handoff 70)) stay))
      approved-IsSound

-- Evidence with a hash alone.
abbrev hashed : EvidenceFields
hashed = record {
  evidence_type = "RECEIPT";
  confirmation_number = none;
  filing_reference = none;
  source_document_id = none;
  screenshot_storage_uri = some "sharepoint://receipt";
  receipt_storage_uri = none;
  evidence_sha256 = some "ab12";
  submitted_at = none;
  evidence_id = uuid "e" "2";
}

-- ana hands the final submission to herself, takes it, reports it, and files a receipt.
Steps-IsSound_example : IsSound hash (settled submitted (add_evidence submitted ana hashed))
unfolding Steps.perform
Steps-IsSound_example =
    Steps-IsSound env
      (then (called ana (Call.capture_submission_result report))
        (then (called ana (Call.add_evidence hashed)) stay))
      controlled-IsSound

add_evidence_ok :
    add_evidence opened ana hashed ≡ ok (settled opened (add_evidence opened ana hashed))
unfolding program Evidence.submission_evidence_types Evidence.starts_with Evidence.is_governed_uri
    Evidence.added_evidence Evidence.add_evidence
add_evidence_ok = refl

abbrev first_snapshot : PreSubmissionSnapshot
first_snapshot =
    Snapshots.reviewed SnapshotStatus.approved bob (Snapshots.new_snapshot hash opened ana)

one_session : Settled.IsKeyed approved.sessions
unfolding program
one_session a b ma mb same = cc (only a ma, only b mb)
  where
    only : (x : BrowserSession) → Among x approved.sessions → x ≡ session
    only x (inl e) = e
    only x (inr m) = elim m [ ]

final_submit-IsCleared_example :
    (r : PreSubmissionSnapshot) × (operator : ℕ) × (b : BrowserSession) × IsGoverned approved
      ana.now
    × Among r approved.snapshots
    × (r.status ≡ SnapshotStatus.approved)
    × IsCleared hash approved r
    × All Settled.IsAttested approved.attestations
    × Settled.IsSigned approved
    × Settled.IsPaid approved.payment
    × (approved.run.assigned_operator_id ≡ some operator)
    × Settled.IsOwnSession approved operator b
    × IsHanded approved handed operator b.id
final_submit-IsCleared_example =
    final_submit-IsCleared hash approved handed ana approved-IsSound one_session final_ok

capture_submission_result-IsVerified_example :
    (h : HumanHandoff) × Among h controlled.handoffs
    × (h.handoff_type ≡ HandoffType.final_submit)
    × ((h.status ≡ HandoffStatus.active) ⊎ (h.status ≡ HandoffStatus.completed))
    × IsOwner controlled ana h.requested_from_user_id
    × (controlled.run.status ≢ PortalRunStatus.submitted)
    × IsVerified controlled submitted ana report
capture_submission_result-IsVerified_example =
    capture_submission_result-IsVerified (λ t. t) controlled submitted ana report captured_ok
      submitted_status

capture_submission_result-signed_example : signature_recorded controlled.case.instances ≡ true
unfolding program
capture_submission_result-signed_example =
    capture_submission_result-signed (λ t. t) controlled submitted ana report captured_ok
      submitted_status refl

approve_snapshot-newest_example :
    (r : PreSubmissionSnapshot) × (l : PreSubmissionSnapshot) × (g : PortalDefinition
      × PortalReviewVersion)
    × (Snapshots.snapshot_by_id 70 taken ≡ some r)
    × (Vocabulary.is_ready_for_review r.status ≡ true)
    × (r.manifest.discrepancy_report ≡ [])
    × (str_eq r.created_by_actor bob.actor_id ≡ false)
    × (revalidate_governance taken bob.now ≡ ok g)
    × (l.id ≡ r.id)
    × All (λ x. x.version ≤ l.version) taken.snapshots
    × (approved.run.status ≡ PortalRunStatus.pre_submission_approved)
approve_snapshot-newest_example =
    approve_snapshot-newest hash taken approved bob 70 taken-IsSound approved_ok

-- ana takes another snapshot after the approval.
abbrev retaken : Store
retaken = settled approved (create_snapshot hash approved (record ana { fresh = 75 }))

approve_snapshot-blocked_example : approve_snapshot hash retaken bob 75 ≢ ok retaken
unfolding program
approve_snapshot-blocked_example =
    approve_snapshot-blocked hash retaken retaken bob 75 first_snapshot refl refl

abbrev done : HumanHandoff
done = record {
  id = 70;
  handoff_type = HandoffType.final_submit;
  status = HandoffStatus.completed;
  browser_session_id = some 9;
  requested_from_user_id = some 1;
  expires_at = none;
  result = some "CONFIRMED";
}

capture_validation-reopens_example :
    (capture_submission_result (λ t. t) submitted ana (record report { ambiguous = true })
      ≡ err (Error.state_conflict Conflict.already_recorded))
    × (capture_submission_result
          (λ t. t)
          (settled submitted (capture_validation (λ t. t) (λ t. t) submitted [] "confirmation"))
          ana
          (record report { ambiguous = true })
        ≡ ok (
            in_status PortalRunStatus.submission_result_pending (
              settled submitted
                (capture_validation (λ t. t) (λ t. t) submitted [] "confirmation"))))
unfolding program
capture_validation-reopens_example =
    capture_validation-reopens (λ t. t) (λ t. t) (λ t. t) submitted ana
      (record report { ambiguous = true }) done [] "confirmation" refl refl refl refl refl
