-- ===== src/Licensing/Every.antt =====
-- A question about every stage, or every pair of stages, answered by evaluation over the list of
-- all stages.
use astra_licensing_graph.Prelude.{
  ◌≡◌, refl, Bool, true, some, List, [], ◌∷◌, all, get_elem?, all-get_elem?,
}
use astra_licensing_graph.Licensing.Stages.{CaseStage, position}

abbrev pub stages : List CaseStage
stages =
    CaseStage.due_identified ∷ CaseStage.case_planning ∷ CaseStage.vendor_outreach_pending
    ∷ CaseStage.vendor_outreach_sent ∷ CaseStage.vendor_questions
    ∷ CaseStage.internal_information_pending ∷ CaseStage.answers_ready ∷ CaseStage.answers_sent
    ∷ CaseStage.document_checklist_received ∷ CaseStage.documents_pending
    ∷ CaseStage.packet_building ∷ CaseStage.packet_ready_for_review ∷ CaseStage.packet_approved
    ∷ CaseStage.packet_sent ∷ CaseStage.form_received ∷ CaseStage.form_preparation
    ∷ CaseStage.form_missing_information ∷ CaseStage.form_ready_for_review
    ∷ CaseStage.signature_pending ∷ CaseStage.signed_form_received ∷ CaseStage.submission_pending
    ∷ CaseStage.submitted_to_vendor ∷ CaseStage.submitted_to_regulator ∷ CaseStage.vendor_validation
    ∷ CaseStage.regulator_review ∷ CaseStage.deficiency_received
    ∷ CaseStage.renewed_evidence_received ∷ CaseStage.inventory_update_pending ∷ CaseStage.completed
    ∷ CaseStage.blocked ∷ CaseStage.cancelled ∷ []

get_elem?-position : (s : CaseStage) → get_elem? stages (position s) ≡ some s
unfolding position
get_elem?-position CaseStage.due_identified = refl
get_elem?-position _ = refl

pub every_stage : (p : CaseStage → Bool) → all p stages ≡ true → (s : CaseStage) → p s ≡ true
every_stage p h s = all-get_elem? p stages (position s) h (get_elem?-position s)

pub every_pair :
    (p : CaseStage → CaseStage → Bool)
    → all (λ s. all (p s) stages) stages ≡ true
    → (s t : CaseStage) → p s t ≡ true
every_pair p h s t = every_stage (p s) (every_stage (λ r. all (p r) stages) h s) t
