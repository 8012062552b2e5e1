-- ===== src/Licensing/CaseRows.antt =====
-- The rows and arguments of `ComplianceCaseService.open_case` and `transition` of
-- app/services/compliance_case_service.py, for one obligation with its latest case. Left out are the
-- columns that neither method tests: the case's key, its owners, dates and organisations.
use astra_licensing_graph.Prelude.{ℕ, Bool, Option, List, String, Fields, ℤ}
use Prim.Native.Char.{Char}
use astra_licensing_graph.Licensing.Stages.{CaseStatus}
use astra_licensing_graph.Licensing.Transition.{StageName, Reason}

-- The text of a UUID, which is never empty.
pub data Uuid : Type 0 where
  uuid : Char → String → Uuid

abbrev pub uuid_text : Uuid → String
uuid_text (uuid c s) = String.◌∷◌ c s

pub record FormInstance : Type 0 where
  pub signature_required : Bool
  pub signed_document_id : Option Uuid

pub data PacketStatus : Type 0 where
  approved : PacketStatus
  not_approved : String → PacketStatus

pub record DocumentPacket : Type 0 where
  pub id : Uuid
  pub version : ℕ
  pub status : PacketStatus

pub record StageEvent : Type 0 where
  pub from_stage : Option StageName
  pub to_stage : StageName
  pub actor_id : String
  pub reason : Option String
  pub evidence : Fields
  pub seconds_in_previous_stage : Option ℤ
  pub occurred_at : ℕ

pub data AuditRow : Type 0 where
  case_opened : StageName → AuditRow
  case_stage_changed : (before after : StageName) → CaseStatus → AuditRow

pub data ObligationStatus : Type 0 where
  in_case satisfied : ObligationStatus
  elsewhere : String → ObligationStatus

pub record ComplianceCase : Type 0 where
  pub current_stage : StageName
  pub status : CaseStatus
  pub stage_entered_at : Option ℕ
  pub created_at : Option ℕ
  pub close_reason : Option String
  pub blocked_reason : Option String
  pub completed_at : Option ℕ

-- The rows of one obligation and its latest case. `events` and `audit` have the newest row first.
pub record Store : Type 0 where
  pub case : Option ComplianceCase
  pub instances : List FormInstance
  pub packets : List DocumentPacket
  pub events : List StageEvent
  pub audit : List AuditRow
  pub obligation : Option ObligationStatus

pub data Error : Type 0 where
  not_found : Error
  invalid_state_transition : Reason → List String → Error

pub data Result (A : Type 0) : Type 0 where
  ok : A → Result A
  err : Error → Result A

-- The arguments of a call, and the clock's reading.
pub record Request : Type 0 where
  pub to_stage : StageName
  pub actor_id : String
  pub reason : Option String
  pub evidence : Option Fields
  pub close_reason : Option String
  pub now : ℕ
