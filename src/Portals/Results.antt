-- ===== src/Portals/Results.antt =====
-- The errors of the portal services and what a call leaves behind. An error that leaves a call rolls
-- its transaction back; `kept` is the error of a call that has committed before it raises.
use astra_licensing_graph.Prelude.{Bool, true, false, Option, none, some}
use astra_licensing_graph.Portals.Policies.{PolicyDecision, PolicyReason}
use astra_licensing_graph.Portals.Rows.{Store}

-- The refusals of the services, by their messages.
pub data Conflict : Type 0 where
  policy : PolicyReason → Conflict
  terminal_run run_not_ready terminal_pause no_operator no_adapter route_not_reviewed no_session
        actor_not_assigned not_blocked submitted_cancel session_open not_authorized disabled :
      Conflict
  snapshot_not_ready creator_approves not_latest hash_mismatch not_rejectable : Conflict
  review_missing review_filing_type review_entity adapter_inactive : Conflict
  run_not_started automation_unavailable session_expired control_inactive handoff_open : Conflict
  no_target session_of_other_run handoff_not_requested handoff_expired handoff_unassigned
        foreign_session handoff_not_active dedicated_workflow no_isolated_session
        handoff_not_declinable :
      Conflict
  not_signatory attestation_changed attestation_not_waiting attestation_unassigned page_not_attested
        no_evidence signature_not_active no_form form_not_signed document_unavailable
        document_not_linked :
      Conflict
  no_payment_approver payment_not_in_review payment_not_approved : Conflict
  no_approved_snapshot attestation_incomplete signature_incomplete payment_incomplete
        no_final_session no_final_handoff final_handoff_unowned already_recorded
        page_not_confirmation no_confirmation case_not_pending unknown_evidence_type
        ungoverned_artifact unverifiable_evidence :
      Conflict
  field_human_only field_changed document_missing document_invalid no_packet no_documents
        too_many_documents mime_type_refused documents_too_large :
      Conflict

pub data Error : Type 0 where
  not_found : Error
  state_conflict : Conflict → Error
  integrity : Error
  invalid_transition : Error

pub data Result {ℓ} (A : Type ℓ) : Type ℓ where
  ok : A → Result A
  err : Error → Result A
  kept : Error → Store → Result A

infixl 5 ◌>>=◌ ◌>>◌
abbrev pub ◌>>=◌ {ℓ κ} : {A : Type ℓ} {B : Type κ} → Result A → (A → Result B) → Result B
ok a >>= f = f a
err e >>= f = err e
kept e s >>= f = kept e s

abbrev pub ◌>>◌ {ℓ} : {B : Type ℓ} → Result (Unit {0}) → Result B → Result B
m >> k = m >>= λ _. k

-- `if not b: raise StateConflictError(...)`
abbrev pub require : Bool → Conflict → Result (Unit {0})
require true c = ok tt
require false c = err (state_conflict c)

abbrev pub granted_or : PolicyDecision → Result (Unit {0})
granted_or d = require d.allowed (policy d.reason)

-- `if row is None: raise`
abbrev pub found {ℓ} : {A : Type ℓ} → Option A → Error → Result A
found none e = err e
found (some a) e = ok a

abbrev pub present {ℓ} : {A : Type ℓ} → Option A → Conflict → Result A
present o c = found o (state_conflict c)

-- The store after a call at `s`.
unfoldable pub settled : Store → Result Store → Store
settled s (ok s') = s'
settled s (err e) = s
settled s (kept e s') = s'
