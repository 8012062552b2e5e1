-- ===== src/Licensing/Routes.antt =====
-- Routes through the stages of app/licensing/stages.py: to COMPLETED, and by way of BLOCKED.
use mathlib.Core.Path.{subst}
use astra_licensing_graph.Prelude.{
  ℕ, zero, suc, ◌≡◌, refl, inl, inr, Bool, true, false, ◌&&◌, ◌||◌, some, arith, All, Bool-cases,
  has_field,
}
use astra_licensing_graph.Licensing.Stages.{
  CaseStage, is_stage, elem, allowed_transitions, evidence_requirements, post_signature_stages,
  terminal_stages,
}
use astra_licensing_graph.Licensing.Every.{every_stage}
use astra_licensing_graph.Licensing.Transition.{known, Facts, payload_of, validate_transition}
use astra_licensing_graph.Licensing.Permitted.{validate_transition-allowed_iff}
use astra_licensing_graph.Licensing.CaseRows.{ComplianceCase, Store, Request, ok}
use astra_licensing_graph.Licensing.CaseService.{
  case_facts, commit_move, move_case, transition_case, transition,
}

-- Accepted transitions, under the same facts, from a stage to COMPLETED.
pub data Route (facts : Facts) : CaseStage → Type 0 where
  arrived : Route facts CaseStage.completed
  onward :
      (from to : CaseStage)
      → (validate_transition (known from) (known to) facts).allowed ≡ true
      → Route facts to
      → Route facts from

-- The next stage on one way to COMPLETED.
towards : CaseStage → CaseStage
towards CaseStage.due_identified = CaseStage.case_planning
towards CaseStage.case_planning = CaseStage.form_received
towards CaseStage.vendor_outreach_pending = CaseStage.vendor_outreach_sent
towards CaseStage.vendor_outreach_sent = CaseStage.form_received
towards CaseStage.vendor_questions = CaseStage.answers_ready
towards CaseStage.internal_information_pending = CaseStage.answers_ready
towards CaseStage.answers_ready = CaseStage.answers_sent
towards CaseStage.answers_sent = CaseStage.form_received
towards CaseStage.document_checklist_received = CaseStage.packet_building
towards CaseStage.documents_pending = CaseStage.packet_building
towards CaseStage.packet_building = CaseStage.packet_ready_for_review
towards CaseStage.packet_ready_for_review = CaseStage.packet_approved
towards CaseStage.packet_approved = CaseStage.packet_sent
towards CaseStage.packet_sent = CaseStage.submission_pending
towards CaseStage.form_received = CaseStage.form_preparation
towards CaseStage.form_preparation = CaseStage.form_ready_for_review
towards CaseStage.form_missing_information = CaseStage.form_ready_for_review
towards CaseStage.form_ready_for_review = CaseStage.signature_pending
towards CaseStage.signature_pending = CaseStage.signed_form_received
towards CaseStage.signed_form_received = CaseStage.submission_pending
towards CaseStage.submission_pending = CaseStage.submitted_to_regulator
towards CaseStage.submitted_to_vendor = CaseStage.submitted_to_regulator
towards CaseStage.submitted_to_regulator = CaseStage.renewed_evidence_received
towards CaseStage.vendor_validation = CaseStage.regulator_review
towards CaseStage.regulator_review = CaseStage.renewed_evidence_received
towards CaseStage.deficiency_received = CaseStage.form_preparation
towards CaseStage.renewed_evidence_received = CaseStage.inventory_update_pending
towards CaseStage.inventory_update_pending = CaseStage.completed
towards CaseStage.blocked = CaseStage.case_planning
towards stage = stage

-- At most `n` steps of `towards`, each an edge, lead to COMPLETED.
arrives : ℕ → CaseStage → Bool
arrives zero s = is_stage s CaseStage.completed
arrives (suc n) s =
    is_stage s CaseStage.completed
    || (elem (towards s) (allowed_transitions s) && arrives n (towards s))

live_arrives : (s : CaseStage) → (elem s terminal_stages || arrives 12 s) ≡ true
unfolding elem allowed_transitions is_stage terminal_stages arrives towards
live_arrives = every_stage (λ s. elem s terminal_stages || arrives 12 s) refl

is_completed : (s : CaseStage) → is_stage s CaseStage.completed ≡ true → CaseStage.completed ≡ s
unfolding is_stage
is_completed CaseStage.completed h = refl
is_completed _ h = absurd (ground arith)

module _ (facts : Facts)
    (evidenced : (s : CaseStage)
      → All (λ key. has_field key (payload_of facts.evidence) ≡ true) (evidence_requirements s))
    (signed : facts.signature_recorded ≡ true) (renewed : facts.has_renewed_evidence ≡ true) where
  edge-allowed :
      (s t : CaseStage)
      → elem t (allowed_transitions s) ≡ true
      → (validate_transition (known s) (known t) facts).allowed ≡ true
  edge-allowed s t e = (validate_transition-allowed_iff s t facts).1 (record {
    edge = e;
    evidenced = evidenced t;
    signed = λ _ _. signed;
    closable = λ _. ground arith;
  })

  Route-arrives : (n : ℕ) (s : CaseStage) → arrives n s ≡ true → Route facts s
  unfolding arrives
  Route-arrives zero s h = subst (Route facts) (is_completed s h) arrived
  Route-arrives (suc n) s h = elim (Bool-cases (is_stage s CaseStage.completed)) [
    | inl e ↦ subst (Route facts) (is_completed s e) arrived
    | inr more ↦
        onward s (towards s) (edge-allowed s (towards s) (ground arith))
          (Route-arrives n (towards s) (ground arith))
  ]

  -- Once every evidence key is in the payload, a signature is recorded and renewed evidence exists,
  -- accepted transitions lead from every stage that is not terminal to COMPLETED.
  pub live-Route : (s : CaseStage) → elem s terminal_stages ≡ false → Route facts s
  live-Route s h = Route-arrives 12 s (ground (arith, live_arrives s))

-- BLOCKED and REGULATOR_REVIEW.
detour_edges :
    (s : CaseStage)
    → (elem s terminal_stages
        || is_stage s CaseStage.blocked
        || elem CaseStage.blocked (allowed_transitions s))
      ≡ true
unfolding elem allowed_transitions is_stage terminal_stages
detour_edges =
    every_stage
      (λ s.
        elem s terminal_stages
        || is_stage s CaseStage.blocked
        || elem CaseStage.blocked (allowed_transitions s))
      refl

blocked_free :
    (s : CaseStage) (facts : Facts)
    → elem CaseStage.blocked (allowed_transitions s) ≡ true
    → (validate_transition (known s) (known CaseStage.blocked) facts).allowed ≡ true
unfolding elem is_stage post_signature_stages evidence_requirements
blocked_free s facts e = (validate_transition-allowed_iff s CaseStage.blocked facts).1 (record {
  edge = e;
  evidenced = tt;
  signed = λ _ h. ground arith;
  closable = λ h. ground arith;
})

review_free :
    (facts : Facts)
    → (validate_transition
        (known CaseStage.blocked)
        (known CaseStage.regulator_review)
        facts).allowed
      ≡ true
unfolding elem is_stage post_signature_stages evidence_requirements allowed_transitions
review_free facts =
    (validate_transition-allowed_iff CaseStage.blocked CaseStage.regulator_review facts).1 (record {
      edge = refl;
      evidenced = tt;
      signed = λ _ h. ground arith;
      closable = λ h. ground arith;
    })

accepted :
    (s : Store) (case : ComplianceCase) (r : Request) (from to : CaseStage)
    → s.case ≡ some case
    → case.current_stage ≡ known from
    → r.to_stage ≡ known to
    → (validate_transition (known from) (known to) (case_facts s case r)).allowed ≡ true
    → transition s r
      ≡ ok (
          commit_move s case r
            (validate_transition case.current_stage r.to_stage (case_facts s case r)))
unfolding transition transition_case
accepted s case r from to found at named h =
    let lifted : (validate_transition case.current_stage r.to_stage (case_facts s case r)).allowed
        ≡ true =
      cc in
    ground (arith, found, lifted)

-- From any stage but BLOCKED, COMPLETED and CANCELLED, two accepted calls, whatever the forms,
-- signatures and evidence, block the case and resume it at REGULATOR_REVIEW; the forms are unchanged.
pub detour-regulator_review :
    (s : Store) (case : ComplianceCase) (from : CaseStage) (r₁ r₂ : Request)
    → s.case ≡ some case
    → case.current_stage ≡ known from
    → elem from terminal_stages ≡ false
    → is_stage from CaseStage.blocked ≡ false
    → r₁.to_stage ≡ known CaseStage.blocked
    → r₂.to_stage ≡ known CaseStage.regulator_review
    → (s₁ : Store) × (s₂ : Store) × (case₂ : ComplianceCase) × (transition s r₁ ≡ ok s₁)
      × (transition s₁ r₂ ≡ ok s₂)
      × (s₂.case ≡ some case₂)
      × (case₂.current_stage ≡ known CaseStage.regulator_review)
      × (s₂.instances ≡ s.instances)
unfolding commit_move move_case
detour-regulator_review s case from r₁ r₂ found at live open_now n₁ n₂ =
    let facts₁ = case_facts s case r₁ in
    let check₁ = validate_transition case.current_stage r₁.to_stage facts₁ in
    let case₁ = move_case case r₁ check₁ in
    let s₁ = commit_move s case r₁ check₁ in
    let facts₂ = case_facts s₁ case₁ r₂ in
    let check₂ = validate_transition case₁.current_stage r₂.to_stage facts₂ in
    (
      s₁,
      commit_move s₁ case₁ r₂ check₂,
      move_case case₁ r₂ check₂,
      accepted s case r₁ from CaseStage.blocked found at n₁
          (blocked_free from facts₁ (ground (arith, detour_edges from))),
      accepted s₁ case₁ r₂ CaseStage.blocked CaseStage.regulator_review refl n₁ n₂
          (review_free facts₂),
      refl,
      n₂,
      refl,
    )
