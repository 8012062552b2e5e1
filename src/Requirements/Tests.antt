-- ===== src/Requirements/Tests.antt =====
-- Concrete rules and facts.
use Prim.Native.Char.{code}
use astra_licensing_graph.Prelude.{
  split_text, ℕ, ◌≡◌, refl, true, false, Option, none, some, List, [], ◌∷◌, String, Value, number,
  boolean, Fields, end, field, pos, ◌↔◌, ◌⊎◌, ◌≤◌, ◌==◌, str_eq, contains_text, text_true, arith,
  inl, inr, Bool-cases,
}
use astra_licensing_graph.Requirements.Conditions.{
  Operator, is_true, gt, any_of, Node, group, comparison, negation, stop, next, counted,
  validate_conditions, validate, check_comparison, is_fact_path, max_depth, max_nodes, needs_value,
  needs_list, split_path,
}
use astra_licensing_graph.Requirements.Comparisons.{Truth, holds, Python}
use astra_licensing_graph.Requirements.Evaluation.{
  known, resolve_fact, resolve_from, present_value, asks_presence, EvaluationTrace, evaluate,
  truth_of, compare_fact, test_fact, test_value, is_boolean, combine,
}
use astra_licensing_graph.Requirements.Validity.{IsWellFormed, size, height}
use astra_licensing_graph.Requirements.Validated.{validate_conditions_iff}
use astra_licensing_graph.Requirements.Information.{Learns, evaluate-Learns, no_presence}
use astra_licensing_graph.Requirements.Raising.{cannot_raise, may_raise, evaluate_total}

abbrev asks : Operator → String → Option Value → Node
asks o path v = comparison (record {
  other_keys = false;
  fact = some path;
  op = some o;
  value = v;
  case_sensitive = false;
})

-- The company lends, or has more than five employees.
abbrev lends_or_employs : Node
lends_or_employs = group any_of (
    next (asks is_true "lends" none)
      (next (negation (asks gt "staff.count" (some (number (pos 5))))) stop))

abbrev python : Python
python = record {
  casefold = λ s. s;
  fromisoformat = λ s. none;
  search = λ p s case. contains_text p s;
  str = λ v. "";
}

abbrev lends : Fields
lends = field "lends" (boolean true) end

abbrev lends_with_staff : Fields
lends_with_staff =
    field "lends" (boolean true)
      (field "staff" (Value.object (field "count" (number (pos 12)) end)) end)

abbrev untraced : EvaluationTrace
untraced = record { facts_used = end; missing_facts = [] }

split_text_cons :
    (sep : ℕ) (s : String) → (x : String) × (xs : List String) × (split_text sep s ≡ x ∷ xs)
split_text_cons sep String.[] = (_, _, refl)
split_text_cons sep (String.◌∷◌ c s) = elim (Bool-cases (code c == sep)) [
  | inl found ↦ (String.[], split_text sep s, rw found refl)
  | inr other ↦ let (x, xs, e) = split_text_cons sep s in (String.◌∷◌ c x, xs, rw (other, e) refl)
]

lends-Learns : Learns lends lends_with_staff
unfolding known resolve_fact resolve_from present_value split_path
lends-Learns path v h =
    let (x, xs, e) = split_text_cons b'.' path in
    elim (Bool-cases (str_eq "lends" x)) [
      | inl same ↦ ground (arith, e, same)
      | inr other ↦ ground (arith, e, other)
    ]

validate_conditions_iff_example :
    ((n : ℕ) × (validate_conditions text_true lends_or_employs ≡ counted n)) ↔ (
      IsWellFormed text_true lends_or_employs
      × (size lends_or_employs ≤ max_nodes)
      × (height lends_or_employs ≤ max_depth))
validate_conditions_iff_example = validate_conditions_iff text_true lends_or_employs

evaluate-Learns_example :
    ((evaluate python lends_or_employs lends_with_staff untraced).0 ≡ none)
    ⊎ ((evaluate python lends_or_employs lends_with_staff untraced).0 ≡ some holds)
unfolding evaluate no_presence asks_presence truth_of compare_fact test_fact test_value known
    resolve_fact resolve_from is_boolean combine
evaluate-Learns_example =
    evaluate-Learns python lends_or_employs lends lends_with_staff holds untraced untraced refl
      lends-Learns refl (λ e. cc)

evaluate_total_example :
    (t : Truth) × ((evaluate python lends_or_employs lends untraced).0 ≡ some t)
unfolding validate_conditions validate check_comparison is_fact_path needs_value needs_list
    cannot_raise may_raise
evaluate_total_example = evaluate_total python text_true lends_or_employs 4 lends untraced refl refl
