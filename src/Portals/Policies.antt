-- ===== src/Portals/Policies.antt =====
-- The portal policies of app/portals/policies.py. A decision keeps its reason as data, with what the
-- message names. An automation level arrives as a `str`; the rank of a text that is no level is
-- below the rank of every level. `str.upper` is a parameter.
use astra_licensing_graph.Prelude.{
  ℕ, Bool, true, false, not, ◌&&◌, Option, none, some, List, [], ◌∷◌, String, Fields, end, field,
  if◌then◌else◌, leb, ltb, ◌==◌, any, has_field, str_eq,
}
use astra_licensing_graph.Portals.Vocabulary.{
  AdapterStatus, AuthorizationStatus, AutomationLevel, PortalApprovalStatus, PortalReviewStatus,
  automation_level_rank, in_approved_statuses, is_authorization_active, is_review_approved,
}

pub data PolicyReason : Type 0 where
  portal_status : PortalApprovalStatus → PolicyReason
  review_not_approved review_not_yet_valid review_expired terms_expired approval_current :
      PolicyReason
  authorization_inactive authorization_expired filing_type_unauthorized entity_unauthorized
        authorization_current :
      PolicyReason
  always_human_only : String → PolicyReason
  marked_human_only : PolicyReason
  review_prohibits not_explicitly_allowed exceeds_level within_boundary : String → PolicyReason

pub record PolicyDecision : Type 0 where
  pub allowed : Bool
  pub reason : PolicyReason

abbrev pub denied : PolicyReason → PolicyDecision
denied r = record { allowed = false; reason = r }

abbrev pub granted : PolicyReason → PolicyDecision
granted r = record { allowed = true; reason = r }

-- `text in texts`
abbrev pub mem_text : String → List String → Bool
mem_text s = any (str_eq s)

abbrev pub mem_id : ℕ → List ℕ → Bool
mem_id i = any (λ j. i == j)

-- `bool(xs)` of a list.
abbrev pub filled {ℓ} : {A : Type ℓ} → List A → Bool
filled [] = false
filled (x ∷ xs) = true

-- `t and t > moment`
unfoldable pub after_moment : ℕ → Option ℕ → Bool
after_moment moment none = false
after_moment moment (some t) = ltb moment t

-- `t and t <= moment`
unfoldable pub lapsed : ℕ → Option ℕ → Bool
lapsed moment none = false
lapsed moment (some t) = leb t moment

pub absolutely_prohibited_actions : List String
absolutely_prohibited_actions =
    "ACCEPT_TERMS" ∷ "ENTER_MFA" ∷ "SOLVE_CAPTCHA" ∷ "ATTEST" ∷ "SIGN" ∷ "ENTER_PAYMENT_CREDENTIALS"
    ∷ "AUTHORIZE_PAYMENT" ∷ "FINAL_SUBMIT" ∷ []

pub action_minimum_level : String → Option AutomationLevel
action_minimum_level action =
    if str_eq action "NAVIGATE"
    then some AutomationLevel.navigation_assist
    else if str_eq action "ENTER_FIELD"
    then some AutomationLevel.assisted_entry
    else if str_eq action "UPLOAD_DOCUMENT"
    then some AutomationLevel.upload_assist
    else if str_eq action "SAVE_DRAFT"
    then some AutomationLevel.assisted_entry
    else if str_eq action "VALIDATE"
    then some AutomationLevel.pre_submission_assist
    else if str_eq action "CAPTURE_PRE_SUBMISSION"
    then some AutomationLevel.pre_submission_assist
    else none

unfoldable pub approval_is_current :
    PortalApprovalStatus
    → PortalReviewStatus
    → (valid_from valid_to terms_expires_at : Option ℕ) (now : ℕ) → PolicyDecision
approval_is_current portal review valid_from valid_to terms_expires_at now =
    if not (in_approved_statuses portal)
    then denied (portal_status portal)
    else if not (is_review_approved review)
    then denied review_not_approved
    else if after_moment now valid_from
    then denied review_not_yet_valid
    else if lapsed now valid_to
    then denied review_expired
    else if lapsed now terms_expires_at
    then denied terms_expired
    else granted approval_current

unfoldable pub authorization_is_current :
    AuthorizationStatus
    → (expires_at : Option ℕ) (filing_type : String) (legal_entity_id : ℕ)
    → (authorized_filing_types : List String) (authorized_entity_ids : List ℕ) (now : ℕ)
    → PolicyDecision
authorization_is_current status expires_at filing_type entity types entities now =
    if not (is_authorization_active status)
    then denied authorization_inactive
    else if lapsed now expires_at
    then denied authorization_expired
    else if filled types && not (mem_text filing_type types)
    then denied filing_type_unauthorized
    else if filled entities && not (mem_id entity entities)
    then denied entity_unauthorized
    else granted authorization_current

pub data LevelName : Type 0 where
  known : AutomationLevel → LevelName
  other : String → LevelName

-- `AUTOMATION_LEVEL_RANK.get(level, -1)`, one higher.
unfoldable pub rank_after : LevelName → ℕ
unfolding automation_level_rank
rank_after (known l) = ℕ.suc (automation_level_rank l)
rank_after (other s) = 0

-- `bool(fields)` of a dict.
abbrev pub any_field : Fields → Bool
any_field end = false
any_field (field k v fs) = true

-- `min` of the two ranks.
unfoldable pub effective_rank : LevelName → LevelName → ℕ
effective_rank run portal =
    let r = rank_after run in let p = rank_after portal in if leb p r then p else r

-- `minimum and effective_rank < AUTOMATION_LEVEL_RANK[minimum]`
unfoldable pub exceeds : LevelName → LevelName → Option AutomationLevel → Bool
unfolding effective_rank
exceeds run portal none = false
exceeds run portal (some minimum) = ltb (effective_rank run portal) (rank_after (known minimum))

unfoldable pub decide_action :
    (action : String) (run_level portal_level : LevelName) (allowed prohibited : Fields)
    → (human_only : Bool) → PolicyDecision
decide_action action run portal allowed prohibited human_only =
    if mem_text action absolutely_prohibited_actions
    then denied (always_human_only action)
    else if human_only
    then denied marked_human_only
    else if has_field action prohibited
    then denied (review_prohibits action)
    else if any_field allowed && not (has_field action allowed)
    then denied (not_explicitly_allowed action)
    else if exceeds run portal (action_minimum_level action)
    then denied (exceeds_level action)
    else granted (within_boundary action)

unfoldable pub action_is_allowed :
    (upper : String → String) (action : String) (run_level portal_level : LevelName)
    → (allowed prohibited : Fields) (human_only : Bool) → PolicyDecision
unfolding decide_action
action_is_allowed upper action run portal allowed prohibited human_only =
    decide_action (upper action) run portal allowed prohibited human_only

unfoldable pub portal_can_activate : PortalApprovalStatus → Bool
portal_can_activate PortalApprovalStatus.automation_prohibited = false
portal_can_activate PortalApprovalStatus.temporarily_suspended = false
portal_can_activate PortalApprovalStatus.expired = false
portal_can_activate PortalApprovalStatus.retired = false
portal_can_activate _ = true

unfoldable pub adapter_is_active : AdapterStatus → Bool
adapter_is_active AdapterStatus.active = true
adapter_is_active _ = false
