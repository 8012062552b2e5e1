-- ===== src/Requirements/Conditions.antt =====
-- The rule language of app/requirements/conditions.py and its validation. A node is the JSON object
-- of the source by its shape: what `validate_conditions` asks of its keys is kept, with the entries
-- of a comparison.
use Prim.Native.Char.{code}
use astra_licensing_graph.Prelude.{
  split_text, ◌++◌, ℕ, ◌+◌, Bool, true, false, not, ◌&&◌, ◌||◌, Option, none, some, List, [], ◌∷◌,
  String, Value, text, array, ltb, leb, ◌==◌, if◌then◌else◌, all, is_some, text_length,
}

pub data Operator : Type 0 where
  eq ne in_ not_in contains not_contains contains_any contains_all gt gte lt lte matches before
        after is_true is_false is_present is_absent is_empty is_not_empty :
      Operator

-- OPERATORS: whether the operator requires a `value`.
unfoldable pub needs_value : Operator → Bool
needs_value is_true = false
needs_value is_false = false
needs_value is_present = false
needs_value is_absent = false
needs_value is_empty = false
needs_value is_not_empty = false
needs_value _ = true

-- The entries of a comparison: `fact` where it is a text, `op` where it is an operator, and whether
-- there are keys besides those of the language.
pub record Comparison : Type 0 where
  pub other_keys : Bool
  pub fact : Option String
  pub op : Option Operator
  pub value : Option Value
  pub case_sensitive : Bool

pub data Group : Type 0 where
  all_of any_of none_of : Group

mutual
  pub data Node : Type 0 where
    not_object empty_object : Node
    -- A logical key and another key.
    crowded : Node
    -- A group whose value is no list.
    no_list : Group → Node
    negation : Node → Node
    group : Group → Nodes → Node
    comparison : Comparison → Node

  pub data Nodes : Type 0 where
    stop : Nodes
    next : Node → Nodes → Nodes

pub data RuleValidationError : Type 0 where
  too_many_nodes too_deep must_be_object must_not_be_empty exactly_one_key non_empty_list
        unsupported_keys bad_fact_path unsupported_operator requires_value carries_value
        requires_list requires_pattern long_pattern invalid_pattern :
      RuleValidationError

unfoldable pub max_depth : ℕ
max_depth = 12

unfoldable pub max_nodes : ℕ
max_nodes = 400

-- `s.split(".")`
unfoldable pub split_path : String → List String
split_path s = split_text b'.' s

is_lower : ℕ → Bool
is_lower c = leb b'a' c && leb c b'z'

word_rest : String → Bool
unfolding is_lower
word_rest String.[] = true
word_rest (String.◌∷◌ c s) =
    (is_lower (code c) || leb b'0' (code c) && leb (code c) b'9' || code c == b'_') && word_rest s

-- `[a-z][a-z0-9_]*`
word : String → Bool
unfolding is_lower word_rest
word String.[] = false
word (String.◌∷◌ c s) = is_lower (code c) && word_rest s

-- `$` also matches before a newline at the end.
drop_newline : String → String
drop_newline String.[] = String.[]
drop_newline (String.◌∷◌ c String.[]) = if code c == 10 then String.[] else String.◌∷◌ c String.[]
drop_newline (String.◌∷◌ c (String.◌∷◌ d s)) = String.◌∷◌ c (drop_newline (String.◌∷◌ d s))

-- _FACT_PATH_PATTERN
unfoldable pub is_fact_path : String → Bool
unfolding split_path word drop_newline
is_fact_path s = all word (split_path (drop_newline s))

unfoldable pub needs_list : Operator → Bool
needs_list in_ = true
needs_list not_in = true
needs_list contains_any = true
needs_list contains_all = true
needs_list _ = false

unfoldable pub is_list : Option Value → Bool
is_list (some (array vs)) = true
is_list _ = false

unfoldable pub is_matches : Operator → Bool
is_matches matches = true
is_matches _ = false

-- `re` is the pattern library: whether a text compiles.
module _ (compiles : String → Bool) where
  unfoldable pub check_pattern : Option Value → Option RuleValidationError
  check_pattern (some (text p)) =
      if ltb 200 (text_length p)
      then some long_pattern
      else if compiles p
      then none
      else some invalid_pattern
  check_pattern _ = some requires_pattern

  unfoldable pub check_operator : Operator → Option Value → Option RuleValidationError
  unfolding check_pattern is_list is_matches
  check_operator op value =
      if needs_value op && not (is_some value)
      then some requires_value
      else if not (needs_value op) && is_some value
      then some carries_value
      else if needs_list op && not (is_list value)
      then some requires_list
      else if is_matches op
      then check_pattern value
      else none

  unfoldable pub check_comparison : Comparison → Option RuleValidationError
  unfolding check_operator
  check_comparison c = if c.other_keys then some unsupported_keys else elim c.fact [
    | none ↦ some bad_fact_path
    | some path ↦
        if not (is_fact_path path)
        then some bad_fact_path
        else elim c.op [ none ↦ some unsupported_operator | some op ↦ check_operator op c.value ]
  ]

-- The counter after a valid node, or the error.
pub data Checked : Type 0 where
  counted : ℕ → Checked
  refused : RuleValidationError → Checked

-- What the source asks of a node before its shape: the two bounds, on the counter that counts it.
unfoldable pub check_bounds : ℕ → ℕ → Option RuleValidationError
unfolding max_depth max_nodes
check_bounds depth counter =
    if ltb max_nodes counter
    then some too_many_nodes
    else if ltb max_depth depth
    then some too_deep
    else none

abbrev pub guarded : Option RuleValidationError → Checked → Checked
guarded none r = r
guarded (some e) r = refused e

abbrev pub leaf : Option RuleValidationError → ℕ → Checked
leaf none n = counted n
leaf (some e) n = refused e

unfoldable mutual
  unfolding check_bounds

  pub validate : (String → Bool) → ℕ → ℕ → Node → Checked
  validate re d c not_object = guarded (check_bounds d (c + 1)) (refused must_be_object)
  validate re d c empty_object = guarded (check_bounds d (c + 1)) (refused must_not_be_empty)
  validate re d c crowded = guarded (check_bounds d (c + 1)) (refused exactly_one_key)
  validate re d c (no_list g) = guarded (check_bounds d (c + 1)) (refused non_empty_list)
  validate re d c (negation n) = guarded (check_bounds d (c + 1)) (validate re (d + 1) (c + 1) n)
  validate re d c (group g stop) = guarded (check_bounds d (c + 1)) (refused non_empty_list)
  validate re d c (group g (next n ns)) =
      guarded (check_bounds d (c + 1)) (validate_all re (d + 1) (c + 1) (next n ns))
  validate re d c (comparison k) =
      guarded (check_bounds d (c + 1)) (leaf (check_comparison re k) (c + 1))

  pub validate_all : (String → Bool) → ℕ → ℕ → Nodes → Checked
  validate_all re d c stop = counted c
  validate_all re d c (next n ns) = elim (validate re d c n) [
    | refused e ↦ refused e
    | counted c' ↦ validate_all re d c' ns
  ]

unfoldable pub validate_conditions : (String → Bool) → Node → Checked
validate_conditions re node = validate re 0 0 node

unfoldable mutual
  pub collect_fact_paths : Node → List String
  collect_fact_paths (negation n) = collect_fact_paths n
  collect_fact_paths (group g ns) = collect_all_paths ns
  collect_fact_paths (comparison k) = elim k.fact [ none ↦ [] | some path ↦ path ∷ [] ]
  collect_fact_paths _ = []

  pub collect_all_paths : Nodes → List String
  collect_all_paths stop = []
  collect_all_paths (next n ns) = collect_fact_paths n ++ collect_all_paths ns
