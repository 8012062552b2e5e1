-- ===== src/Requirements/Validity.antt =====
-- `validate_conditions` of app/requirements/conditions.py against the shape and the two bounds.
use Prim.Native.Nat.{max}
use astra_licensing_graph.Prelude.{
  ℕ, ◌+◌, ◌-◌, ◌≤◌, ◌≡◌, refl, inl, inr, Bool, true, false, Option, none, some, String, Value, text,
  is_some, text_length, arith, Option-cases, Bool-cases,
}
use astra_licensing_graph.Requirements.Conditions.{
  Operator, needs_value, needs_list, Comparison, Group, Node, negation, group, comparison, Nodes,
  stop, next, RuleValidationError, Checked, counted, check_bounds, guarded, leaf, check_comparison,
  check_operator, check_pattern, is_list, is_matches, is_fact_path, max_depth, max_nodes,
}

unfoldable mutual
  pub size : Node → ℕ
  size (negation n) = size n + 1
  size (group g ns) = size_all ns + 1
  size _ = 1

  pub size_all : Nodes → ℕ
  size_all stop = 0
  size_all (next n ns) = size n + size_all ns

-- The levels below a node.
unfoldable mutual
  pub height : Node → ℕ
  height (negation n) = height n + 1
  height (group g ns) = height_all ns + 1
  height _ = 0

  pub height_all : Nodes → ℕ
  height_all stop = 0
  height_all (next n ns) = max (height n) (height_all ns)

-- A value where the operator takes one and none where it does not, a list for the list operators,
-- and for `matches` a pattern of at most 200 characters that compiles.
abbrev pub HasValue : (String → Bool) → Operator → Option Value → Type 0
HasValue re op value =
    (is_some value ≡ needs_value op)
    × (needs_list op ≡ true → is_list value ≡ true)
    × (is_matches op ≡ true
        → (p : String) × (value ≡ some (text p)) × (text_length p ≤ 200) × (re p ≡ true))

pub record IsComparison (re : String → Bool) (k : Comparison) : Type 0 where
  pub keys : k.other_keys ≡ false
  pub path : String
  pub fact : k.fact ≡ some path
  pub is_path : is_fact_path path ≡ true
  pub op : Operator
  pub operator : k.op ≡ some op
  pub operand : HasValue re op k.value

mutual
  pub data IsWellFormed (re : String → Bool) : Node → Type 0 where
    denied : {n : Node} → IsWellFormed re n → IsWellFormed re (negation n)
    grouped :
        {g : Group} {n : Node} {ns : Nodes}
        → AllWellFormed re (next n ns)
        → IsWellFormed re (group g (next n ns))
    compared : {k : Comparison} → IsComparison re k → IsWellFormed re (comparison k)

  pub data AllWellFormed (re : String → Bool) : Nodes → Type 0 where
    none_left : AllWellFormed re stop
    both :
        {n : Node} {ns : Nodes}
        → IsWellFormed re n
        → AllWellFormed re ns
        → AllWellFormed re (next n ns)

module _ (re : String → Bool) where
  check_pattern-none :
      (v : Option Value)
      → check_pattern re v ≡ none
      → (p : String) × (v ≡ some (text p)) × (text_length p ≤ 200) × (re p ≡ true)
  unfolding check_pattern
  check_pattern-none none h = cc
  check_pattern-none (some (text p)) h = (p, refl, ground arith, ground arith)
  check_pattern-none (some _) h = cc

  check_operator-HasValue :
      (op : Operator) (v : Option Value) → check_operator re op v ≡ none → HasValue re op v
  unfolding check_operator
  check_operator-HasValue op v h =
      (ground arith, ground arith, λ m. check_pattern-none v (ground arith))

  pub check_comparison-IsComparison :
      (k : Comparison) → check_comparison re k ≡ none → IsComparison re k
  unfolding check_comparison
  check_comparison-IsComparison k h = elim (Option-cases k.fact) [
    | inl nothing ↦ absurd (ground (arith, nothing))
    | inr (path, fact) ↦ elim (Option-cases k.op) [
      | inl nothing ↦ absurd (ground (arith, fact, nothing))
      | inr (op, operator) ↦ record {
        keys = ground (arith, fact, operator);
        path = path;
        fact = fact;
        is_path = ground (arith, fact, operator);
        op = op;
        operator = operator;
        operand = check_operator-HasValue op k.value (ground (arith, fact, operator));
      }
    ]
  ]

  pub IsComparison-check_comparison :
      (k : Comparison) → IsComparison re k → check_comparison re k ≡ none
  unfolding check_comparison check_operator check_pattern
  IsComparison-check_comparison k v =
      let (present, listed, pattern) = v.operand in
      elim (Bool-cases (is_matches v.op)) [
        | inl m ↦
            let (p, is_text, short, compiles) = pattern m in
            ground
              (arith, v.keys, v.fact, v.is_path, v.operator, present, listed, m, is_text, compiles)
        | inr other ↦ ground (arith, v.keys, v.fact, v.is_path, v.operator, present, listed, other)
      ]

  check_bounds-none : (d c : ℕ) → check_bounds d c ≡ none → (c ≤ max_nodes) × (d ≤ max_depth)
  unfolding check_bounds max_nodes max_depth
  check_bounds-none d c h = ground arith

  pub bounds-check : (d c : ℕ) → c ≤ max_nodes → d ≤ max_depth → check_bounds d c ≡ none
  unfolding check_bounds max_nodes max_depth
  bounds-check d c h k = ground arith

  pub guarded-counted :
      (d c : ℕ) (r : Checked) {n : ℕ}
      → guarded (check_bounds d c) r ≡ counted n
      → (c ≤ max_nodes) × (d ≤ max_depth) × (r ≡ counted n)
  guarded-counted d c r h = elim (Option-cases (check_bounds d c)) [
    | inl fine ↦ let (lo, hi) = check_bounds-none d c fine in (lo, hi, ground (arith, fine))
    | inr (e, bad) ↦ absurd (ground (arith, bad))
  ]

  pub leaf-counted :
      (o : Option RuleValidationError) (c : ℕ) {n : ℕ} → leaf o c ≡ counted n → (o ≡ none) × (n ≡ c)
  leaf-counted none c h = ground arith
  leaf-counted (some e) c h = cc

  -- What a valid node at depth `d`, after `c` nodes, comes to.
  pub record Accepted (d c : ℕ) (node : Node) (n : ℕ) : Type 0 where
    pub counter : n ≡ c + size node
    pub count : n ≤ max_nodes
    pub shallow : d ≤ max_depth
    pub depth : height node ≤ max_depth - d
    pub shape : IsWellFormed re node

  pub record AllAccepted (d c : ℕ) (ns : Nodes) (n : ℕ) : Type 0 where
    pub counter : n ≡ c + size_all ns
    pub count : n ≤ max_nodes
    pub depth : height_all ns ≤ max_depth - d
    pub shape : AllWellFormed re ns
