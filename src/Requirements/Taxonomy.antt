-- ===== src/Requirements/Taxonomy.antt =====
-- The enumerations of app/requirements/taxonomy.py, and `summarize` and `window_for` of
-- app/requirements/freshness.py. The statuses of citations are SourceFreshnessStatus values.
use astra_licensing_graph.Prelude.{ℕ, Bool, true, false, ◌==◌, List, [], ◌∷◌, ltb, if◌then◌else◌}

pub data RequirementOutcome : Type 0 where
  likely_required possibly_required likely_not_required counsel_review out_of_scope
        insufficient_information :
      RequirementOutcome

-- OUTCOME_CAUTION_RANK
unfoldable pub caution_rank : RequirementOutcome → ℕ
caution_rank out_of_scope = 0
caution_rank likely_not_required = 1
caution_rank insufficient_information = 2
caution_rank possibly_required = 3
caution_rank likely_required = 4
caution_rank counsel_review = 5

abbrev pub same_outcome : RequirementOutcome → RequirementOutcome → Bool
unfolding caution_rank
same_outcome a b = caution_rank a == caution_rank b

pub data SourceType : Type 0 where
  nmls_checklist nmls_renewal_checklist regulator_webpage regulator_pdf statute regulation
        regulator_guidance counsel_memo vendor_checklist internal_policy other :
      SourceType

pub data AuthorityLevel : Type 0 where
  official_primary official_guidance approved_counsel vendor_operational internal unverified :
      AuthorityLevel

-- AUTHORITATIVE_LEVELS
abbrev pub is_authoritative : AuthorityLevel → Bool
is_authoritative official_primary = true
is_authoritative official_guidance = true
is_authoritative approved_counsel = true
is_authoritative _ = false

pub data SourceFreshnessStatus : Type 0 where
  fresh due_for_verification stale not_known no_source : SourceFreshnessStatus

-- _SEVERITY
unfoldable pub severity : SourceFreshnessStatus → ℕ
severity no_source = 4
severity stale = 3
severity not_known = 2
severity due_for_verification = 1
severity fresh = 0

-- `max(statuses, key=...)` is the first of the greatest.
unfoldable pub worst_of : SourceFreshnessStatus → List SourceFreshnessStatus → SourceFreshnessStatus
worst_of s [] = s
worst_of s (t ∷ ts) = worst_of (if ltb (severity s) (severity t) then t else s) ts

unfoldable pub summarize : List SourceFreshnessStatus → SourceFreshnessStatus
summarize [] = no_source
summarize (s ∷ ss) = worst_of s ss

-- DEFAULT_FRESHNESS_DAYS
unfoldable pub default_freshness_days : SourceType → ℕ
default_freshness_days nmls_checklist = 365
default_freshness_days nmls_renewal_checklist = 180
default_freshness_days regulator_webpage = 180
default_freshness_days regulator_pdf = 365
default_freshness_days statute = 730
default_freshness_days regulation = 730
default_freshness_days regulator_guidance = 365
default_freshness_days counsel_memo = 730
default_freshness_days vendor_checklist = 90
default_freshness_days internal_policy = 365
default_freshness_days other = 180
