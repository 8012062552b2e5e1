-- ===== src/Licensing/Control.antt =====
-- The control points of a compliance case, over every sequence of calls.
use mathlib.Core.Path.{subst}
use astra_licensing_graph.Prelude.{
  ℕ, ◌≡◌, refl, sym, ◌≢◌, true, not, ◌||◌, none, some, String, arith,
}
use astra_licensing_graph.Licensing.Stages.{
  CaseStage, is_stage, elem, allowed_transitions, stage_status, post_signature_stages,
  terminal_stages,
}
use astra_licensing_graph.Licensing.Every.{every_pair}
use astra_licensing_graph.Licensing.Transition.{known}
use astra_licensing_graph.Licensing.CaseRows.{ComplianceCase, Store, Request, ok, Uuid}
use astra_licensing_graph.Licensing.CaseService.{
  case_facts, transition, open_case, signature_required, signature_recorded,
}
use astra_licensing_graph.Licensing.History.{transition-Moved}
use astra_licensing_graph.Licensing.Reached.{
  IsHistory, HasRenewal, is_late, IsReached, Reach, Reach-IsReached, open_case-IsReached,
}

known_inj : {a b : CaseStage} → known a ≡ known b → a ≡ b
known_inj e = cc

terminal_table :
    (s t : CaseStage)
    → (not (elem s terminal_stages) || not (elem t (allowed_transitions s))) ≡ true
unfolding elem allowed_transitions is_stage terminal_stages
terminal_table =
    every_pair (λ s t. not (elem s terminal_stages) || not (elem t (allowed_transitions s))) refl

terminal_no_edge :
    (s t : CaseStage) → elem s terminal_stages ≡ true → ¬ (elem t (allowed_transitions s) ≡ true)
terminal_no_edge s t h e = ground (arith, terminal_table s t)

module _ (s₀ s₁ s : Store) (id : Uuid) (actor : String) (now : ℕ) (fresh : s₀.case ≡ none)
    (opened : open_case s₀ id actor now ≡ ok s₁) (r : Reach s₁ s) where
  reached : IsReached s
  reached = Reach-IsReached (open_case-IsReached s₀ s₁ id actor now fresh opened) r

  -- After any sequence of accepted transitions and changes to forms and packets, starting where the
  -- case is opened, the case stands in a stage of the enumeration, its status is the one that the
  -- table gives that stage, and its events lead from the opening to that stage along edges of the
  -- matrix.
  pub Reach-consistent :
      (case : ComplianceCase) × (stage : CaseStage) × (s.case ≡ some case)
      × (case.current_stage ≡ known stage)
      × (case.status ≡ stage_status stage)
      × IsHistory stage s.events
  Reach-consistent = let v = reached in (v.case, v.stage, v.found, v.at, v.status, v.history)

  -- A case that is completed after any sequence of accepted transitions and changes to forms and
  -- packets, starting where the case is opened, has an event that entered
  -- RENEWED_EVIDENCE_RECEIVED with the id of a renewed document: a close reason alone never
  -- completes a case.
  pub completed-HasRenewal :
      (case : ComplianceCase)
      → s.case ≡ some case
      → case.current_stage ≡ known CaseStage.completed
      → HasRenewal s.events
  unfolding is_late is_stage
  completed-HasRenewal case found at =
      let v = reached in
      let stage : known v.stage ≡ known CaseStage.completed = cc (v.found, v.at) in
      v.renewal (rw (known_inj stage))

-- A transition into a submission stage is accepted only if no form needs a signature or a form that
-- needs one has its signed document.
pub transition-signed :
    (s s' : Store) (r : Request) (to : CaseStage)
    → transition s r ≡ ok s'
    → r.to_stage ≡ known to
    → elem to post_signature_stages ≡ true
    → signature_required s.instances ≡ true
    → signature_recorded s.instances ≡ true
unfolding case_facts
transition-signed s s' r to h e post needed =
    let m = transition-Moved s s' r h in
    let same : known m.to ≡ known to = cc (m.entered) in
    m.permitted.signed needed
      (subst (λ t. elem t post_signature_stages ≡ true) (sym (known_inj same)) post)

-- No call moves a case out of COMPLETED or CANCELLED.
transition-terminal :
    (s s' : Store) (r : Request) (case : ComplianceCase) (from : CaseStage)
    → s.case ≡ some case
    → case.current_stage ≡ known from
    → elem from terminal_stages ≡ true
    → transition s r ≢ ok s'
transition-terminal s s' r case from found at terminal h =
    let m = transition-Moved s s' r h in
    let same : known m.from ≡ known from = cc (m.found, m.left) in
    let still = subst (λ t. elem t terminal_stages ≡ true) (sym (known_inj same)) terminal in
    terminal_no_edge m.from m.to still m.permitted.edge
