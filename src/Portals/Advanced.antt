-- ===== src/Portals/Advanced.antt =====
-- The transition of the case that a recorded submission asks for: `_advance_case` of
-- app/services/submission_evidence_service.py.
use astra_licensing_graph.Prelude.{◌⊎◌, Fields, field, text, ◌≡◌, refl, true, some, arith}
use mathlib.Core.Path.{subst}
use astra_licensing_graph.Licensing.Stages.{CaseStage}
use astra_licensing_graph.Licensing.CaseRows as CaseRows
use astra_licensing_graph.Licensing.CaseRows.{ComplianceCase, Request, uuid_text}
use astra_licensing_graph.Licensing.CaseService.{names, transition}
use astra_licensing_graph.Portals.Rows.{Caller, Store}
use astra_licensing_graph.Portals.Results.{ok}
use astra_licensing_graph.Portals.Submission.{
  Capture, advance_case, follow_up, moved_case, submission_request, submission_stage,
}
use astra_licensing_graph.Licensing.Transition.{known}
use astra_licensing_graph.Portals.Bound.{ok-injective, bind-ok, found-ok, require-ok}

moved_case-ok :
    (r : CaseRows.Result CaseRows.Store) {case : CaseRows.Store}
    → moved_case r ≡ ok case
    → r ≡ CaseRows.ok case
unfolding moved_case
moved_case-ok (CaseRows.ok x) h = cc
moved_case-ok (CaseRows.err e) h = absurd (cc)

-- The case stood at SUBMISSION_PENDING and took its transition.
pub record IsAdvanced (s s' : Store) (c : Caller) (r : Capture) : Type 0 where
  pub case : ComplianceCase
  pub found_case : s.case.case ≡ some case
  pub pending : names CaseStage.submission_pending case.current_stage ≡ true
  pub moved : transition s.case (submission_request s c r) ≡ CaseRows.ok s'.case

pub advance_case-ok :
    (s s' : Store) (c : Caller) (r : Capture)
    → advance_case s c r ≡ ok s'
    → IsAdvanced s s' c r
      × (s' ≡ record s { case = s'.case; follow_up_due = follow_up c.now s.follow_up_due })
unfolding advance_case
advance_case-ok s s' c r e =
    let (case, found_case, e₁) = found-ok s.case.case _ _ e in
    let (pending, e₂) = require-ok _ _ _ e₁ in
    let (moved, m, e₃) = bind-ok (moved_case (transition s.case (submission_request s c r))) _ e₂ in
    subst
      (λ t.
        IsAdvanced s t c r
        × (t ≡ record s { case = t.case; follow_up_due = follow_up c.now s.follow_up_due }))
      (ok-injective e₃)
      (
        record {
          case = case;
          found_case = found_case;
          pending = pending;
          moved = moved_case-ok _ m;
        },
        refl,
      )

-- The transition that the case is asked for: to a stage after submission, by the caller, with the id
-- of the evidence.
pub record IsAsked (c : Caller) (r : Capture) (request : Request) : Type 0 where
  pub stage :
      (request.to_stage ≡ known CaseStage.submitted_to_vendor)
      ⊎ (request.to_stage ≡ known CaseStage.submitted_to_regulator)
  pub actor : request.actor_id ≡ c.actor_id
  pub others : Fields
  pub reference :
      request.evidence ≡ some (field "submission_reference" (text (uuid_text r.evidence_id)) others)

pub submission_request-IsAsked :
    (s : Store) (c : Caller) (r : Capture) → IsAsked c r (submission_request s c r)
unfolding submission_request submission_stage
submission_request-IsAsked s c r = record {
  stage = ground arith;
  actor = refl;
  others = _;
  reference = refl;
}
