-- ===== src/Licensing/History.antt =====
-- What an accepted call of `ComplianceCaseService.transition` has found and done.
use astra_licensing_graph.Prelude.{◌≡◌, refl, inl, inr, true, some, arith, Option-cases}
use astra_licensing_graph.Licensing.Stages.{CaseStage, elem, stage_status}
use astra_licensing_graph.Licensing.Transition.{StageName, known, other, validate_transition, Facts}
use astra_licensing_graph.Licensing.Permitted.{
  Permitted, validate_transition-allowed_iff, allowed-status,
}
use astra_licensing_graph.Licensing.CaseRows.{ComplianceCase, Store, Request, ok}
use astra_licensing_graph.Licensing.CaseService.{
  case_facts, commit_move, transition_case, transition,
}

pub record Moved (s s' : Store) (r : Request) : Type 0 where
  pub case : ComplianceCase
  pub from : CaseStage
  pub to : CaseStage
  pub found : s.case ≡ some case
  pub left : case.current_stage ≡ known from
  pub entered : r.to_stage ≡ known to
  pub permitted : Permitted from to (case_facts s case r)
  pub status :
      (validate_transition case.current_stage r.to_stage (case_facts s case r)).resulting_status
      ≡ some (stage_status to)
  pub after :
      s'
      ≡ commit_move s case r
          (validate_transition case.current_stage r.to_stage (case_facts s case r))

transition_case-ok :
    (s : Store) (case : ComplianceCase) (r : Request) {s' : Store}
    → transition_case s case r ≡ ok s'
    → ((validate_transition case.current_stage r.to_stage (case_facts s case r)).allowed ≡ true)
      × (s'
          ≡ commit_move s case r
              (validate_transition case.current_stage r.to_stage (case_facts s case r)))
unfolding transition_case
transition_case-ok s case r h = ground arith

-- An allowed transition is between two stages of the enumeration.
allowed-known :
    (from to : StageName) (f : Facts)
    → (validate_transition from to f).allowed ≡ true
    → (a : CaseStage) × (b : CaseStage) × (from ≡ known a) × (to ≡ known b)
unfolding validate_transition elem
allowed-known (known a) (known b) f h = (a, b, refl, refl)
allowed-known (known a) (other b) f h = ground arith
allowed-known (other a) (known b) f h = ground arith
allowed-known (other a) (other b) f h = ground arith

Moved-of :
    (s s' : Store) (case : ComplianceCase) (r : Request)
    → s.case ≡ some case
    → transition_case s case r ≡ ok s'
    → Moved s s' r
Moved-of s s' case r found h =
    let (allowed, after) = transition_case-ok s case r h in
    let (a, b, left, entered) =
      allowed-known case.current_stage r.to_stage (case_facts s case r) allowed in
    record {
      case = case;
      from = a;
      to = b;
      found = found;
      left = left;
      entered = entered;
      permitted = (validate_transition-allowed_iff a b (case_facts s case r)).0 (cc);
      status = allowed-status case.current_stage r.to_stage b (case_facts s case r) entered allowed;
      after = after;
    }

pub transition-Moved : (s s' : Store) (r : Request) → transition s r ≡ ok s' → Moved s s' r
unfolding transition
transition-Moved s s' r h = elim (Option-cases s.case) [
  | inl missing ↦ ground arith
  | inr (case, found) ↦ Moved-of s s' case r found (ground arith)
]
