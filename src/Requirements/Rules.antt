-- ===== src/Requirements/Rules.antt =====
-- app/requirements/rules.py: rules as data, and which of them apply in which order. Ids are numbers,
-- dates are ordinals, and a priority is not negative; a rule's outcome is a RequirementOutcome, as
-- `Rule.validate` and the table's CHECK ask.
use Prim.Native.Char.{code}
use astra_licensing_graph.Prelude.{
  ℕ, ◌+◌, Bool, true, false, not, ◌&&◌, Option, none, some, List, [], ◌∷◌, String, ltb, ◌==◌,
  if◌then◌else◌, select,
}
use astra_licensing_graph.Requirements.Conditions.{Node}
use astra_licensing_graph.Requirements.Taxonomy.{
  RequirementOutcome, AuthorityLevel, SourceFreshnessStatus,
}

pub record SourceCitation : Type 0 where
  pub source_id : Option ℕ
  pub snapshot_id : Option ℕ
  pub title : String
  pub authority_level : AuthorityLevel
  pub freshness_status : Option SourceFreshnessStatus

pub record Rule : Type 0 where
  pub id : ℕ
  pub rule_key : String
  pub outcome : RequirementOutcome
  pub conditions : Node
  pub priority : ℕ
  pub jurisdiction_id : Option ℕ
  pub license_type_id : Option ℕ
  pub filing_channels : List String
  pub required_facts : List String
  pub effective_from : Option ℕ
  pub effective_to : Option ℕ
  pub requires_counsel_review : Bool
  pub enabled : Bool
  pub citations : List SourceCitation

unfoldable pub is_effective_on : Rule → ℕ → Bool
is_effective_on r when =
    if elim r.effective_from [ none ↦ false | some first ↦ ltb when first ]
    then false
    else not (elim r.effective_to [ none ↦ false | some last ↦ ltb last when ])

unfoldable pub specificity : Rule → ℕ
specificity r =
    elim r.jurisdiction_id [ none ↦ 0 | some _ ↦ 1 ]
    + elim r.license_type_id [ none ↦ 0 | some _ ↦ 1 ]

-- `a <= b` on texts, by code points.
unfoldable pub text_leb : String → String → Bool
text_leb String.[] t = true
text_leb (String.◌∷◌ c s) String.[] = false
text_leb (String.◌∷◌ c s) (String.◌∷◌ d t) =
    let rest = text_leb s t in
    if ltb (code c) (code d) then true else if code c == code d then rest else false

-- The order of the keys (-specificity, priority, rule_key).
unfoldable pub no_later : Rule → Rule → Bool
no_later r s =
    if ltb (specificity s) (specificity r)
    then true
    else if ltb (specificity r) (specificity s)
    then false
    else if ltb r.priority s.priority
    then true
    else if ltb s.priority r.priority
    then false
    else text_leb r.rule_key s.rule_key

-- `sorted` keeps the order of equal keys.
unfoldable pub insert_rule : Rule → List Rule → List Rule
insert_rule r [] = r ∷ []
insert_rule r (s ∷ ss) =
    let rest = insert_rule r ss in if no_later r s then r ∷ s ∷ ss else s ∷ rest

unfoldable pub sorted_rules : List Rule → List Rule
sorted_rules [] = []
sorted_rules (r ∷ rs) = insert_rule r (sorted_rules rs)

unfoldable pub in_scope_of : Option ℕ → Option ℕ → Bool
in_scope_of none wanted = true
in_scope_of (some i) none = false
in_scope_of (some i) (some j) = i == j

unfoldable pub applies : ℕ → Option ℕ → Option ℕ → Rule → Bool
applies when jurisdiction_id license_type_id r =
    r.enabled
    && is_effective_on r when
    && in_scope_of r.jurisdiction_id jurisdiction_id
    && in_scope_of r.license_type_id license_type_id

unfoldable pub resolve_effective_rules : List Rule → ℕ → Option ℕ → Option ℕ → List Rule
resolve_effective_rules rules when jurisdiction_id license_type_id =
    sorted_rules (select (applies when jurisdiction_id license_type_id) rules)
