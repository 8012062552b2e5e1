-- ===== src/Licensing/CaseService.antt =====
-- `ComplianceCaseService.open_case` and `transition` of app/services/compliance_case_service.py. Times
-- are whole seconds, and one reading of the clock serves the whole call.
use astra_licensing_graph.Prelude.{
  ℕ, ◌-◌, end, field, Bool, true, false, not, ◌&&◌, ◌||◌, Option, none, some, List, [], ◌∷◌, String,
  Fields, text, ℤ, pos, negsuc, if◌then◌else◌, leb, any, or_else, is_some, has_field, set_field,
  truncate, optional_true,
}
use astra_licensing_graph.Licensing.Stages.{CaseStage, CaseStatus, is_stage, initial_stage}
use astra_licensing_graph.Licensing.Transition.{
  StageName, known, other, Facts, TransitionCheck, validate_transition,
}
use astra_licensing_graph.Licensing.CaseRows.{
  ComplianceCase, DocumentPacket, FormInstance, ObligationStatus, PacketStatus, Request, Result,
  StageEvent, Store, Uuid, approved, case_opened, case_stage_changed, err, in_case,
  invalid_state_transition, not_approved, not_found, ok, satisfied, uuid_text,
}

-- `name == stage.value`
abbrev pub names : CaseStage → StageName → Bool
names s (known t) = is_stage t s
names s (other a) = false

abbrev pub payload_start : Option Fields → Fields
payload_start none = end
payload_start (some fs) = fs

is_approved : PacketStatus → Bool
is_approved approved = true
is_approved (not_approved s) = false

-- The approved packet of the highest version.
latest_approved : List DocumentPacket → Option DocumentPacket
unfolding is_approved
latest_approved [] = none
latest_approved (p ∷ ps) =
    let rest = latest_approved ps in
    if is_approved p.status
    then elim rest [ none ↦ some p | some q ↦ if leb q.version p.version then some p else some q ]
    else rest

first_signed : List FormInstance → Option Uuid
first_signed [] = none
first_signed (i ∷ is) = or_else i.signed_document_id (first_signed is)

abbrev pub signature_required : List FormInstance → Bool
signature_required = any (λ i. i.signature_required)

abbrev pub signature_recorded : List FormInstance → Bool
signature_recorded = any (λ i. i.signature_required && is_some i.signed_document_id)

abbrev pub renewal_seen : List StageEvent → Bool
renewal_seen = any (λ e. names CaseStage.renewed_evidence_received e.to_stage)

add_id : String → Option Uuid → Fields → Fields
add_id key none payload = payload
add_id key (some u) payload = set_field key (text (uuid_text u)) payload

packet_id : Option DocumentPacket → Option Uuid
packet_id none = none
packet_id (some p) = some p.id

-- The ids that the service adds to the payload by itself.
unfoldable pub fill_payload : Store → StageName → Fields → Fields
unfolding latest_approved first_signed add_id packet_id
fill_payload s to payload =
    let payload' =
      if (names CaseStage.packet_approved to || names CaseStage.packet_sent to)
        && not (has_field "document_packet_id" payload)
      then add_id "document_packet_id" (packet_id (latest_approved s.packets)) payload
      else payload in
    if names CaseStage.signed_form_received to && not (has_field "signed_document_id" payload')
    then add_id "signed_document_id" (first_signed s.instances) payload'
    else payload'

-- What the service tells `validate_transition`.
unfoldable pub case_facts : Store → ComplianceCase → Request → Facts
case_facts s case r =
    let payload = payload_start r.evidence in
    record {
      evidence = some (fill_payload s r.to_stage payload);
      signature_required = signature_required s.instances;
      signature_recorded = signature_recorded s.instances;
      has_renewed_evidence =
          has_field "renewed_evidence_document_id" payload || renewal_seen s.events;
      close_reason = if optional_true r.close_reason then r.close_reason else case.close_reason;
    }

-- `later - earlier`
elapsed : ℕ → ℕ → ℤ
elapsed later earlier =
    if leb earlier later then pos (later - earlier) else negsuc (earlier - later - 1)

seconds_since : Option ℕ → ℕ → Option ℤ
unfolding elapsed
seconds_since none now = none
seconds_since (some t) now = some (elapsed now t)

blocked_note : Option String → String
blocked_note reason = elim reason [
  | none ↦ "Blocked"
  | some s ↦ if optional_true (some s) then truncate 500 s else "Blocked"
]

cut_reason : Option String → Option String
cut_reason none = none
cut_reason (some s) = some (truncate 500 s)

-- The case after an accepted transition.
unfoldable pub move_case : ComplianceCase → Request → TransitionCheck → ComplianceCase
unfolding blocked_note cut_reason
move_case case r check = record {
  current_stage = r.to_stage;
  status = elim check.resulting_status [ none ↦ case.status | some st ↦ st ];
  stage_entered_at = some r.now;
  created_at = case.created_at;
  close_reason =
      if optional_true r.close_reason then cut_reason r.close_reason else case.close_reason;
  blocked_reason =
      if names CaseStage.blocked r.to_stage
      then some (blocked_note r.reason)
      else if names CaseStage.blocked case.current_stage
      then none
      else case.blocked_reason;
  completed_at = if names CaseStage.completed r.to_stage then some r.now else case.completed_at;
}

unfoldable pub stage_event : Store → ComplianceCase → Request → StageEvent
unfolding seconds_since
stage_event s case r = record {
  from_stage = some case.current_stage;
  to_stage = r.to_stage;
  actor_id = r.actor_id;
  reason = r.reason;
  evidence = fill_payload s r.to_stage (payload_start r.evidence);
  seconds_in_previous_stage = seconds_since (or_else case.stage_entered_at case.created_at) r.now;
  occurred_at = r.now;
}

satisfy : Bool → Option ObligationStatus → Option ObligationStatus
satisfy true (some o) = some satisfied
satisfy _ o = o

unfoldable pub commit_move : Store → ComplianceCase → Request → TransitionCheck → Store
unfolding satisfy
commit_move s case r check =
    let case' = move_case case r check in
    record s {
      case = some case';
      events = stage_event s case r ∷ s.events;
      audit = case_stage_changed case.current_stage r.to_stage case'.status ∷ s.audit;
      obligation = satisfy (names CaseStage.completed r.to_stage) s.obligation;
    }

unfoldable pub transition_case : Store → ComplianceCase → Request → Result Store
transition_case s case r =
    let check = validate_transition case.current_stage r.to_stage (case_facts s case r) in
    if check.allowed
    then ok (commit_move s case r check)
    else err (invalid_state_transition check.reason check.missing_evidence)

unfoldable pub transition : Store → Request → Result Store
transition s r = elim s.case [ none ↦ err not_found | some case ↦ transition_case s case r ]

-- `status not in (COMPLETED, CANCELLED)`
is_open_status : CaseStatus → Bool
is_open_status CaseStatus.completed = false
is_open_status CaseStatus.cancelled = false
is_open_status _ = true

-- A new case has no form, no packet, and the one event that opens it.
unfoldable pub new_case : Store → Uuid → String → ℕ → Store
new_case s obligation_id actor_id now = record {
  case = some (record {
    current_stage = known initial_stage;
    status = CaseStatus.«open»;
    stage_entered_at = some now;
    created_at = some now;
    close_reason = none;
    blocked_reason = none;
    completed_at = none;
  });
  instances = [];
  packets = [];
  events =
      (record {
        from_stage = none;
        to_stage = known initial_stage;
        actor_id = actor_id;
        reason = some "Case opened.";
        evidence = field "obligation_id" (text (uuid_text obligation_id)) end;
        seconds_in_previous_stage = none;
        occurred_at = now;
      })
      ∷ [];
  audit = case_opened (known initial_stage) ∷ s.audit;
  obligation = some in_case;
}

unfoldable pub open_case : Store → Uuid → String → ℕ → Result Store
unfolding is_open_status
open_case s obligation_id actor_id now = elim s.obligation [
  | none ↦ err not_found
  | some o ↦ elim s.case [
    | none ↦ ok (new_case s obligation_id actor_id now)
    | some case ↦
        if is_open_status case.status then ok s else ok (new_case s obligation_id actor_id now)
  ]
]
