-- ===== src/Licensing/Reached.antt =====
-- The invariant of a case: its status, its history of stage events, and the renewed evidence that
-- stands behind its last stages.
use astra_licensing_graph.Prelude.{
  ◌≡◌, refl, sym, ◌⊎◌, inl, inr, Bool, true, false, not, ◌||◌, none, some, List, [], ◌∷◌, Fields,
  arith, All, Bool-cases, String, ℕ, has_field,
}
use mathlib.Core.Path.{subst}
use astra_licensing_graph.Licensing.Stages.{
  CaseStage, is_stage, elem, allowed_transitions, evidence_requirements, stage_status,
  initial_stage,
}
use astra_licensing_graph.Licensing.Every.{every_pair}
use astra_licensing_graph.Licensing.Transition.{known, validate_transition}
use astra_licensing_graph.Licensing.CaseRows.{
  ComplianceCase, FormInstance, DocumentPacket, Store, StageEvent, Request, ok, Uuid,
}
use astra_licensing_graph.Licensing.CaseService.{
  case_facts, commit_move, move_case, stage_event, transition, open_case, new_case,
}
use astra_licensing_graph.Licensing.History.{Moved, transition-Moved}

-- The events, newest first, lead from the opening of the case to `stage` along edges of the matrix.
abbrev pub IsHistory : CaseStage → List StageEvent → Type 0
IsHistory stage [] = ⊥
IsHistory stage (e ∷ es) =
    ((stage ≡ initial_stage)
      × (e.from_stage ≡ none)
      × (e.to_stage ≡ known initial_stage)
      × (es ≡ []))
    ⊎ ((from : CaseStage) × (e.from_stage ≡ some (known from))
        × (e.to_stage ≡ known stage)
        × (elem stage (allowed_transitions from) ≡ true)
        × IsHistory from es)

-- Some event entered RENEWED_EVIDENCE_RECEIVED with the id of the renewed document.
abbrev pub HasRenewal : List StageEvent → Type 0
HasRenewal [] = ⊥
HasRenewal (e ∷ es) =
    ((e.to_stage ≡ known CaseStage.renewed_evidence_received)
      × (has_field "renewed_evidence_document_id" e.evidence ≡ true))
    ⊎ HasRenewal es

-- The stages behind the renewed evidence.
unfoldable pub is_late : CaseStage → Bool
unfolding is_stage
is_late s =
    is_stage s CaseStage.renewed_evidence_received
    || is_stage s CaseStage.inventory_update_pending
    || is_stage s CaseStage.completed

pub record IsReached (s : Store) : Type 0 where
  pub case : ComplianceCase
  pub stage : CaseStage
  pub found : s.case ≡ some case
  pub at : case.current_stage ≡ known stage
  pub status : case.status ≡ stage_status stage
  pub history : IsHistory stage s.events
  pub renewal : is_late stage ≡ true → HasRenewal s.events

-- A late stage is entered from a late stage, or it is RENEWED_EVIDENCE_RECEIVED.
late_edge :
    (s t : CaseStage)
    → (not (elem t (allowed_transitions s))
        || (not (is_late t) || (is_late s || is_stage t CaseStage.renewed_evidence_received)))
      ≡ true
unfolding elem allowed_transitions is_late is_stage
late_edge =
    every_pair
      (λ s t.
        not (elem t (allowed_transitions s))
        || (not (is_late t) || (is_late s || is_stage t CaseStage.renewed_evidence_received)))
      refl

renewed_evidenced :
    (to : CaseStage) (payload : Fields)
    → is_stage to CaseStage.renewed_evidence_received ≡ true
    → All (λ key. has_field key payload ≡ true) (evidence_requirements to)
    → (to ≡ CaseStage.renewed_evidence_received)
      × (has_field "renewed_evidence_document_id" payload ≡ true)
unfolding is_stage evidence_requirements
renewed_evidenced CaseStage.renewed_evidence_received payload e h = (refl, h.0)
renewed_evidenced _ payload e h = absurd (ground arith)

module _ (s s' : Store) (r : Request) (m : Moved s s' r) where
  open m use {case, from, to, left, entered, permitted, status, after}

  moved-IsHistory : IsHistory from s.events → IsHistory to s'.events
  unfolding commit_move stage_event
  moved-IsHistory h = rw after (inr (from, cc, entered, permitted.edge, h))

  moved-status :
      (c' : ComplianceCase) × (s'.case ≡ some c')
      × (c'.current_stage ≡ known to)
      × (c'.status ≡ stage_status to)
  unfolding commit_move move_case
  moved-status =
      let check = validate_transition case.current_stage r.to_stage (case_facts s case r) in
      (move_case case r check, rw after refl, entered, ground (arith, status))

  -- What the event of an entry into RENEWED_EVIDENCE_RECEIVED holds.
  entering :
      is_late to ≡ true
      → is_late from ≡ false
      → (r.to_stage ≡ known CaseStage.renewed_evidence_received)
        × (has_field "renewed_evidence_document_id" (stage_event s case r).evidence ≡ true)
  unfolding stage_event case_facts
  entering late new =
      let renewed : is_stage to CaseStage.renewed_evidence_received ≡ true =
        ground (arith, late_edge from to, permitted.edge) in
      let (named, evidenced) = renewed_evidenced to _ renewed permitted.evidenced in (cc, evidenced)

  moved-renewal :
      (is_late from ≡ true → HasRenewal s.events) → is_late to ≡ true → HasRenewal s'.events
  unfolding commit_move stage_event
  moved-renewal h late = rw after (elim (Bool-cases (is_late from)) [
    | inl before ↦ inr (h before)
    | inr new ↦ inl (entering late new)
  ])

-- What may happen to a case: an accepted transition, or a change of its forms and packets.
pub data Step (s s' : Store) : Type 0 where
  move : (r : Request) → transition s r ≡ ok s' → Step s s'
  edit :
      (is : List FormInstance) (ps : List DocumentPacket)
      → s' ≡ record s { instances = is; packets = ps }
      → Step s s'

pub data Reach (s : Store) : Store → Type 0 where
  here : Reach s s
  next : {t u : Store} → Reach s t → Step t u → Reach s u

known-injective : {a b : CaseStage} → known a ≡ known b → a ≡ b
known-injective e = cc

move-IsReached : {s s' : Store} (r : Request) → IsReached s → transition s r ≡ ok s' → IsReached s'
move-IsReached {s} {s'} r v h =
    let m = transition-Moved s s' r h in
    let (c', found, at, status) = moved-status s s' r m in
    let same : v.stage ≡ m.from = known-injective (cc (v.found, m.found, v.at, m.left)) in
    record {
      case = c';
      stage = m.to;
      found = found;
      at = at;
      status = status;
      history = moved-IsHistory s s' r m (subst (λ x. IsHistory x s.events) same v.history);
      renewal =
          moved-renewal s s' r m
            (subst (λ x. is_late x ≡ true → HasRenewal s.events) same v.renewal);
    }

Step-IsReached : {s s' : Store} → Step s s' → IsReached s → IsReached s'
Step-IsReached (move r h) v = move-IsReached r v h
Step-IsReached (edit is ps e) v = rw e (record {
  case = v.case;
  stage = v.stage;
  found = v.found;
  at = v.at;
  status = v.status;
  history = v.history;
  renewal = v.renewal;
})

pub Reach-IsReached : {s s' : Store} → IsReached s → Reach s s' → IsReached s'
Reach-IsReached v here = v
Reach-IsReached v (next r st) = Step-IsReached st (Reach-IsReached v r)

new_case-IsReached :
    (s : Store) (id : Uuid) (actor : String) (now : ℕ) → IsReached (new_case s id actor now)
unfolding new_case stage_status initial_stage is_late
new_case-IsReached s id actor now = record {
  case = _;
  stage = initial_stage;
  found = refl;
  at = refl;
  status = refl;
  history = inl (refl, refl, refl, refl);
  renewal = λ h. cc;
}

-- A call of `open_case` on an obligation that has no case begins such a history.
pub open_case-IsReached :
    (s s' : Store) (id : Uuid) (actor : String) (now : ℕ)
    → s.case ≡ none
    → open_case s id actor now ≡ ok s'
    → IsReached s'
unfolding open_case
open_case-IsReached s s' id actor now e h =
    let opened : s' ≡ new_case s id actor now = ground arith in
    subst IsReached (sym opened) (new_case-IsReached s id actor now)
