-- ===== src/Requirements/Raising.antt =====
-- Where `evaluate` of app/requirements/conditions.py raises on a rule that validation accepts.
use astra_licensing_graph.Prelude.{
  and_both, ℕ, ◌≡◌, refl, Bool, true, false, not, ◌&&◌, Option, none, some, List, [], ◌∷◌, String,
  Value, null, number, boolean, text, array, object, nil, cons, end, field, ℤ, Fields, arith,
}
use astra_licensing_graph.Requirements.Conditions.{
  Operator, contains_any, contains_all, is_present, is_absent, is_empty, is_not_empty, Comparison,
  Node, negation, group, comparison, Nodes, stop, next, counted, validate, validate_conditions,
  check_comparison, check_operator, is_fact_path, max_depth, max_nodes, needs_value, needs_list,
  is_list, is_matches,
}
use astra_licensing_graph.Requirements.Comparisons.{Truth, Python, compare_values}
use astra_licensing_graph.Requirements.Evaluation.{
  known, test_value, test_fact, compare_fact, negate, combine, truth_of, truths_of, evaluate,
  EvaluationTrace,
}
use astra_licensing_graph.Requirements.Validated.{validate_conditions_iff}
use astra_licensing_graph.Requirements.Validity.{
  IsComparison, IsWellFormed, denied, grouped, compared, AllWellFormed, none_left, both,
}

-- The operators that take the length or the hash of a value.
unfoldable pub may_raise : Operator → Bool
may_raise is_empty = true
may_raise contains_any = true
may_raise contains_all = true
may_raise _ = false

unfoldable mutual
  pub cannot_raise : Node → Bool
  cannot_raise (negation n) = cannot_raise n
  cannot_raise (group g ns) = all_cannot_raise ns
  cannot_raise (comparison k) = elim k.op [ none ↦ true | some op ↦ not (may_raise op) ]
  cannot_raise _ = true

  pub all_cannot_raise : Nodes → Bool
  all_cannot_raise stop = true
  all_cannot_raise (next n ns) = cannot_raise n && all_cannot_raise ns

length_some :
    (py : Python) (v : Value) (e : Option Value) (cs : Bool)
    → (t : Truth) × (test_value py is_not_empty v e cs ≡ some t)
unfolding test_value
length_some py null e cs = (_, refl)
length_some py (boolean b) e cs = (_, refl)
length_some py (number i) e cs = (_, refl)
length_some py (text s) e cs = (_, refl)
length_some py (array nil) e cs = (_, refl)
length_some py (array (cons v vs)) e cs = (_, refl)
length_some py (object end) e cs = (_, refl)
length_some py (object (field k v fs)) e cs = (_, refl)

test_fact-some :
    (py : Python) (op : Operator) (fact expected : Option Value) (cs : Bool)
    → may_raise op ≡ false
    → (t : Truth) × (test_fact py op fact expected cs ≡ some t)
unfolding test_fact test_value compare_values may_raise
test_fact-some py is_empty f e cs h = cc
test_fact-some py contains_any f e cs h = cc
test_fact-some py contains_all f e cs h = cc
test_fact-some py is_present f e cs h = (_, refl)
test_fact-some py is_absent f e cs h = (_, refl)
test_fact-some py is_not_empty none e cs h = (_, refl)
test_fact-some py is_not_empty (some v) e cs h = length_some py v e cs
test_fact-some py _ none e cs h = (_, refl)
test_fact-some py _ (some v) e cs h = (_, refl)

module _ (py : Python) (re : String → Bool) (facts : Fields) where
  compare_fact-some :
      (k : Comparison)
      → IsComparison re k
      → cannot_raise (comparison k) ≡ true
      → (t : Truth) × (compare_fact py k facts ≡ some t)
  unfolding compare_fact cannot_raise
  compare_fact-some k v h =
      let safe : may_raise v.op ≡ false = ground (arith, v.operator) in
      let (t, e) = test_fact-some py v.op (known facts v.path) k.value k.case_sensitive safe in
      (t, rw (v.fact, v.operator) e)

  mutual
    unfolding truth_of cannot_raise

    truth_of-some :
        (n : Node)
        → IsWellFormed re n
        → cannot_raise n ≡ true
        → (t : Truth) × (truth_of py n facts ≡ some t)
    truth_of-some (negation n) (denied v) h =
        let (t, e) = truth_of-some n v h in (negate t, rw e refl)
    truth_of-some (group g (next n ns)) (grouped v) h =
        let (ts, e) = truths_of-some (next n ns) v h in (combine g ts, rw e refl)
    truth_of-some (comparison k) (compared v) h = compare_fact-some k v h
    truth_of-some (group g stop) v h = elim v [ ]
    truth_of-some _ v h = elim v [ ]

    truths_of-some :
        (ns : Nodes)
        → AllWellFormed re ns
        → all_cannot_raise ns ≡ true
        → (ts : List Truth) × (truths_of py ns facts ≡ some ts)
    truths_of-some stop none_left h = ([], refl)
    truths_of-some (next n ns) (both v vs) h =
        let (here, later) = and_both (cannot_raise n) (all_cannot_raise ns) h in
        let (t, e) = truth_of-some n v here in
        let (ts, es) = truths_of-some ns vs later in (t ∷ ts, rw (e, es) refl)

-- A rule that validation accepts, and that asks no fact whether it is empty or contains any or all of
-- a list, evaluates to TRUE, FALSE or UNKNOWN on all facts: it never raises.
pub evaluate_total :
    (py : Python) (re : String → Bool) (node : Node) (n : ℕ) (facts : Fields)
    (trace : EvaluationTrace)
    → validate_conditions re node ≡ counted n
    → cannot_raise node ≡ true
    → (t : Truth) × ((evaluate py node facts trace).0 ≡ some t)
unfolding evaluate
evaluate_total py re node n facts trace valid safe =
    let (shape, count, depth) = (validate_conditions_iff re node).0 (n, valid) in
    truth_of-some py re facts node shape safe

-- A comparison whether the fact at a valid path is empty.
abbrev pub asks_empty : String → Node
asks_empty path = comparison (record {
  other_keys = false;
  fact = some path;
  op = some is_empty;
  value = none;
  case_sensitive = false;
})

-- Asking whether a fact is empty is a valid rule at every valid path, and raises on every facts in
-- which the fact is a number.
pub is_empty-raises :
    (py : Python) (re : String → Bool) (path : String) (facts : Fields) (i : ℤ)
    (trace : EvaluationTrace)
    → is_fact_path path ≡ true
    → known facts path ≡ some (number i)
    → (validate_conditions re (asks_empty path) ≡ counted 1)
      × ((evaluate py (asks_empty path) facts trace).0 ≡ none)
unfolding validate_conditions validate check_comparison check_operator needs_value needs_list
    is_list is_matches evaluate truth_of compare_fact test_fact test_value max_depth max_nodes
is_empty-raises py re path facts i trace p k = (rw p refl, rw k refl)
