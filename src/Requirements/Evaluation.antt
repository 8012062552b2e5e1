-- ===== src/Requirements/Evaluation.antt =====
-- `evaluate` of app/requirements/conditions.py with its trace. `none` is a TypeError that leaves the
-- function; after one the trace is not read. A node that validation refuses is not evaluated: it is
-- `none` here.
use astra_licensing_graph.Prelude.{
  Bool, true, false, not, Option, none, some, List, [], ◌∷◌, String, Value, null, boolean, text,
  array, object, nil, cons, Fields, end, field, get_field, set_field, str_eq, if◌then◌else◌, any,
  is_some, text_true, ◌++◌,
}
use astra_licensing_graph.Requirements.Conditions.{
  Operator, is_true, is_false, is_present, is_absent, is_empty, is_not_empty, Comparison, Group,
  all_of, any_of, none_of, Node, negation, group, comparison, Nodes, stop, next, split_path,
}
use astra_licensing_graph.Requirements.Comparisons.{
  Truth, holds, fails, unknown, truth, Python, compare_values,
}

unfoldable pub resolve_from : Value → List String → Option Value
resolve_from v [] = some v
resolve_from (object fs) (segment ∷ rest) = elim (get_field segment fs) [
  | none ↦ none
  | some w ↦ resolve_from w rest
]
resolve_from v (segment ∷ rest) = none

unfoldable pub resolve_fact : Fields → String → Option Value
unfolding resolve_from split_path
resolve_fact facts path = resolve_from (object facts) (split_path path)

-- `value is not None`
unfoldable pub present_value : Option Value → Option Value
present_value (some null) = none
present_value o = o

-- The value of a fact that is found and not null.
unfoldable pub known : Fields → String → Option Value
unfolding present_value
known facts path = present_value (resolve_fact facts path)

-- `len(value) == 0`, for a value that has a length.
empty_value : Value → Option Bool
empty_value (text s) = some (not (text_true s))
empty_value (array nil) = some true
empty_value (array (cons v vs)) = some false
empty_value (object end) = some true
empty_value (object (field k v fs)) = some false
empty_value _ = none

value_or_null : Option Value → Value
value_or_null none = null
value_or_null (some v) = v

unfoldable pub is_boolean : Bool → Value → Bool
is_boolean b (boolean true) = b
is_boolean b (boolean false) = not b
is_boolean b _ = false

module _ (py : Python) where
  -- The operators on a fact that is known.
  unfoldable pub test_value : Operator → Value → Option Value → Bool → Option Truth
  unfolding empty_value value_or_null is_boolean
  test_value is_true v expected cs = some (truth (is_boolean true v))
  test_value is_false v expected cs = some (truth (is_boolean false v))
  test_value is_empty v expected cs = elim (empty_value v) [ none ↦ none | some b ↦ some (truth b) ]
  test_value is_not_empty v expected cs = elim (empty_value v) [
    | none ↦ some unknown
    | some b ↦ some (truth (not b))
  ]
  test_value op v expected cs = compare_values py op v (value_or_null expected) cs

  unfoldable pub test_fact : Operator → Option Value → Option Value → Bool → Option Truth
  test_fact is_present fact expected cs = some (truth (is_some fact))
  test_fact is_absent fact expected cs = some (truth (not (is_some fact)))
  test_fact op none expected cs = some unknown
  test_fact op (some v) expected cs = test_value op v expected cs

  unfoldable pub compare_fact : Comparison → Fields → Option Truth
  compare_fact k facts = elim k.fact [
    | none ↦ none
    | some path ↦ elim k.op [
      | none ↦ none
      | some op ↦ test_fact op (known facts path) k.value k.case_sensitive
    ]
  ]

abbrev pub is_holds : Truth → Bool
is_holds holds = true
is_holds _ = false

abbrev pub is_fails : Truth → Bool
is_fails fails = true
is_fails _ = false

abbrev pub is_unknown : Truth → Bool
is_unknown unknown = true
is_unknown _ = false

abbrev pub negate : Truth → Truth
negate holds = fails
negate fails = holds
negate unknown = unknown

unfoldable pub combine : Group → List Truth → Truth
combine all_of ts = if any is_fails ts then fails else if any is_unknown ts then unknown else holds
combine any_of ts = if any is_holds ts then holds else if any is_unknown ts then unknown else fails
combine none_of ts = if any is_holds ts then fails else if any is_unknown ts then unknown else holds

abbrev pub map_truth {ℓ} : {A : Type ℓ} → (A → Truth) → Option A → Option Truth
map_truth f none = none
map_truth f (some a) = some (f a)

abbrev pub add_truth : Option Truth → Option (List Truth) → Option (List Truth)
add_truth (some t) (some ts) = some (t ∷ ts)
add_truth _ _ = none

unfoldable mutual
  pub truth_of : Python → Node → Fields → Option Truth
  truth_of py (negation n) facts = map_truth negate (truth_of py n facts)
  truth_of py (group g ns) facts = map_truth (combine g) (truths_of py ns facts)
  truth_of py (comparison k) facts = compare_fact py k facts
  truth_of py _ facts = none

  pub truths_of : Python → Nodes → Fields → Option (List Truth)
  truths_of py stop facts = some []
  truths_of py (next n ns) facts = add_truth (truth_of py n facts) (truths_of py ns facts)

pub record EvaluationTrace : Type 0 where
  pub facts_used : Fields
  pub missing_facts : List String

note_used : String → Value → EvaluationTrace → EvaluationTrace
note_used path v t = record t { facts_used = set_field path v t.facts_used }

note_missing : String → EvaluationTrace → EvaluationTrace
note_missing path t =
    if any (str_eq path) t.missing_facts
    then t
    else record t { missing_facts = t.missing_facts ++ path ∷ [] }

unfoldable pub asks_presence : Operator → Bool
asks_presence is_present = true
asks_presence is_absent = true
asks_presence _ = false

note_fact : Operator → String → Fields → EvaluationTrace → EvaluationTrace
unfolding asks_presence note_used note_missing value_or_null
note_fact op path facts t =
    if asks_presence op
    then note_used path (value_or_null (resolve_fact facts path)) t
    else elim (known facts path) [ none ↦ note_missing path t | some v ↦ note_used path v t ]

unfoldable pub note_comparison : Comparison → Fields → EvaluationTrace → EvaluationTrace
unfolding note_fact
note_comparison k facts t = elim k.fact [
  | none ↦ t
  | some path ↦ elim k.op [ none ↦ t | some op ↦ note_fact op path facts t ]
]

unfoldable mutual
  pub traced : Node → Fields → EvaluationTrace → EvaluationTrace
  traced (negation n) facts t = traced n facts t
  traced (group g ns) facts t = traced_all ns facts t
  traced (comparison k) facts t = note_comparison k facts t
  traced _ facts t = t

  pub traced_all : Nodes → Fields → EvaluationTrace → EvaluationTrace
  traced_all stop facts t = t
  traced_all (next n ns) facts t = traced_all ns facts (traced n facts t)

unfoldable pub evaluate : Python → Node → Fields → EvaluationTrace → Option Truth × EvaluationTrace
evaluate py node facts t = (truth_of py node facts, traced node facts t)
