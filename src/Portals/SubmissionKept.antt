-- ===== src/Portals/SubmissionKept.antt =====
-- The final submission, after app/services/submission_evidence_service.py, leaves sound rows.
use astra_licensing_graph.Prelude.{
  ◌≡◌, refl, ℕ, Bool, true, false, ◌||◌, Option, none, some, ◌∷◌, String, if◌then◌else◌, arith,
  is_some, optional_true,
}
use astra_licensing_graph.Licensing.CaseRows as CaseRows
use astra_licensing_graph.Portals.Vocabulary.{is_submitted}
use astra_licensing_graph.Portals.Rows.{Caller, HumanHandoff, SnapshotPayload, Store}
use astra_licensing_graph.Portals.Results.{Result, ok, err, kept, ◌>>=◌, ◌>>◌}
use astra_licensing_graph.Portals.Governance.{in_status}
use astra_licensing_graph.Portals.Handoffs.{with_handoff}
use astra_licensing_graph.Portals.Submission.{
  Capture, advance_case, capture_submission_result, check_document, check_final_actor,
  confirm_submission, fail_submission, finish_handoff, moved_case, new_evidence, record_outcome,
  recorded_submission, request_final_submit_handoff, request_submission_reconciliation,
}
use astra_licensing_graph.Portals.Evidence.{EvidenceFields, add_evidence, added_evidence}
use astra_licensing_graph.Portals.Snapshots.{payload_of}
use astra_licensing_graph.Portals.Outcomes.{
  IsPlain, Leaves, Leaves-bind, Leaves-check, call_rules, failed,
}
use astra_licensing_graph.Portals.Sound.{IsSound, IsSound-stays}
use astra_licensing_graph.Portals.ActionsKept.{validate_evidence_document-IsPlain}
use astra_licensing_graph.Portals.SessionsKept.{create_handoff-Kept}
use astra_licensing_graph.Portals.Withdrawn.{write_rules}

check_document-IsPlain : (s : Store) (d : Option ℕ) → IsPlain (check_document s d)
unfolding check_document
check_document-IsPlain s none e s' h = ground arith
check_document-IsPlain s (some d) e s' h =
    ground (arith, validate_evidence_document-IsPlain s d e s')

check_final_actor-IsPlain :
    (s : Store) (c : Caller) (user : Option ℕ) → IsPlain (check_final_actor s c user)
unfolding check_final_actor
check_final_actor-IsPlain s c none e s' h = ground arith
check_final_actor-IsPlain s c (some user) e s' h = ground arith

moved_case-IsPlain : (r : CaseRows.Result CaseRows.Store) → IsPlain (moved_case r)
unfolding moved_case
moved_case-IsPlain (CaseRows.ok case) e s' h = ground arith
moved_case-IsPlain (CaseRows.err x) e s' h = ground arith

module _ {P : Store → Type 0} where
  Leaves-evidence :
      (s : Store) (d : Option ℕ) (k : Result Store)
      → Leaves P k
      → Leaves P (check_document s d >> k)
  Leaves-evidence s d k h = Leaves-check (check_document s d) k (check_document-IsPlain s d) h

  Leaves-final_actor :
      (s : Store) (c : Caller) (user : Option ℕ) (k : Result Store)
      → Leaves P k
      → Leaves P (check_final_actor s c user >> k)
  Leaves-final_actor s c user k h =
      Leaves-check (check_final_actor s c user) k (check_final_actor-IsPlain s c user) h

  Leaves-if :
      (b : Bool) (k k' : Result Store) → Leaves P k → Leaves P k' → Leaves P (if b then k else k')
  Leaves-if true k k' h h' = h
  Leaves-if false k k' h h' = h'

  Leaves-assoc :
      {A B : Type 0} (m : Result A) (g : A → Result B) (f : B → Result Store)
      → Leaves P (m >>= (λ a. g a >>= f))
      → Leaves P ((m >>= g) >>= f)
  Leaves-assoc (ok a) g f h = h
  Leaves-assoc (err e) g f h = failed
  Leaves-assoc (kept e s) g f h = h

  Leaves-moved :
      (r : CaseRows.Result CaseRows.Store) (f : CaseRows.Store → Result Store)
      → ((case : CaseRows.Store) → Leaves P (f case))
      → Leaves P (moved_case r >>= f)
  Leaves-moved r f h = Leaves-bind (moved_case r) f (moved_case-IsPlain r) (λ a _. h a)

module _ (canonical_snapshot_hash : SnapshotPayload → String) where
  abbrev Sound : Store → Type 0
  Sound = IsSound canonical_snapshot_hash

  abbrev Kept : Result Store → Type 0
  Kept = Leaves Sound

  recorded_submission-IsSound :
      (h : HumanHandoff) (s : Store) (c : Caller) (r : Capture)
      → optional_true r.confirmation_number
          || optional_true r.filing_reference
          || is_some r.evidence_document_id
        ≡ true
      → Sound s
      → Sound (recorded_submission h s c r)
  unfolding recorded_submission new_evidence finish_handoff with_handoff in_status payload_of
  recorded_submission-IsSound h s c r confirmed v = record {
    mirrored = refl;
    snapshots = v.snapshots;
    one_approved = v.one_approved;
    attestations = v.attestations;
    payment = v.payment;
    confirmed = (ground (arith, confirmed), v.confirmed);
    submitted = λ _. ground (arith, confirmed);
  }

  advanced-IsSound :
      (s : Store) (case : CaseRows.Store) (due : Option ℕ)
      → Sound s
      → Sound (record s { case = case; follow_up_due = due })
  unfolding payload_of
  advanced-IsSound s case due v =
      IsSound-stays canonical_snapshot_hash s _ v
        (record {
          pins = refl;
          snapshots = refl;
          attestations = refl;
          payment = refl;
          evidence = refl;
        })
        refl refl

  Leaves-advance :
      (s : Store) (c : Caller) (r : Capture) (f : Store → Result Store)
      → Sound s
      → ((s' : Store) → Sound s' → Kept (f s'))
      → Kept (advance_case s c r >>= f)
  unfolding advance_case
  Leaves-advance s c r f v h =
      search (call_rules, Leaves-assoc, Leaves-moved, advanced-IsSound) depth 12

  confirm_submission-Kept :
      (h : HumanHandoff) (s : Store) (c : Caller) (r : Capture)
      → Sound s
      → Kept (confirm_submission h s c r)
  unfolding confirm_submission
  confirm_submission-Kept h s c r v =
      search (write_rules, call_rules, Leaves-evidence, Leaves-advance, recorded_submission-IsSound)
        depth 14

  added-IsSound :
      (s : Store) (c : Caller) (r : EvidenceFields)
      → optional_true r.confirmation_number
          || optional_true r.filing_reference
          || is_some r.source_document_id
          || optional_true r.evidence_sha256
        ≡ true
      → Sound s
      → Sound (record s { evidence = added_evidence c r ∷ s.evidence })
  unfolding added_evidence payload_of
  added-IsSound s c r confirmed v = record {
    mirrored = v.mirrored;
    snapshots = v.snapshots;
    one_approved = v.one_approved;
    attestations = v.attestations;
    payment = v.payment;
    confirmed = (ground (arith, confirmed), v.confirmed);
    submitted = λ h. ground (arith, v.submitted h);
  }

  fail_submission-IsSound : (h : HumanHandoff) (s : Store) → Sound s → Sound (fail_submission h s)
  unfolding fail_submission finish_handoff is_submitted
  fail_submission-IsSound h s v = search write_rules

  record_outcome-Kept :
      (upper : String → String) (h : HumanHandoff) (s : Store) (c : Caller) (r : Capture)
      → Sound s
      → Kept (record_outcome upper h s c r)
  unfolding record_outcome is_submitted
  record_outcome-Kept upper h s c r v =
      search (write_rules, call_rules, Leaves-if, fail_submission-IsSound, confirm_submission-Kept)
        depth 12

  module _ (s : Store) (c : Caller) (v : Sound s) where
    pub request_final_submit_handoff-Kept : Kept (request_final_submit_handoff s c)
    unfolding request_final_submit_handoff
    request_final_submit_handoff-Kept = search (call_rules, create_handoff-Kept) depth 16

    pub request_submission_reconciliation-Kept : Kept (request_submission_reconciliation s c)
    unfolding request_submission_reconciliation is_submitted
    request_submission_reconciliation-Kept = search (write_rules, call_rules) depth 14

    pub add_evidence-Kept : (r : EvidenceFields) → Kept (add_evidence s c r)
    unfolding add_evidence
    add_evidence-Kept r = search (write_rules, call_rules, Leaves-evidence, added-IsSound) depth 14

    pub capture_submission_result-Kept :
        (upper : String → String) (r : Capture) → Kept (capture_submission_result upper s c r)
    unfolding capture_submission_result
    capture_submission_result-Kept upper r =
        search (call_rules, Leaves-final_actor, record_outcome-Kept) depth 12
