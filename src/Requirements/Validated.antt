-- ===== src/Requirements/Validated.antt =====
-- The recursion of `validate_conditions`: its counter, its depth and the shape it accepts.
use astra_licensing_graph.Prelude.{ℕ, ◌+◌, ◌≤◌, ◌≡◌, refl, ap, ◌∙◌, ◌↔◌, Bool, String, arith}
use astra_licensing_graph.Requirements.Conditions.{
  Node, not_object, empty_object, crowded, no_list, negation, group, comparison, Nodes, stop, next,
  Checked, counted, refused, check_comparison, validate, validate_all, validate_conditions,
  max_depth, max_nodes,
}
use astra_licensing_graph.Requirements.Validity.{
  size, size_all, height, height_all, IsWellFormed, denied, grouped, compared, AllWellFormed,
  none_left, both, check_comparison-IsComparison, IsComparison-check_comparison, bounds-check,
  guarded-counted, leaf-counted, Accepted, AllAccepted,
}

module _ (re : String → Bool) where
  next-counted :
      (d c : ℕ) (m : Node) (ns : Nodes) (n : ℕ)
      → validate_all re d c (next m ns) ≡ counted n
      → (k : ℕ) × (validate re d c m ≡ counted k) × (validate_all re d k ns ≡ counted n)
  unfolding validate
  next-counted d c m ns n h = next_of (validate re d c m) refl
    where
      next_of :
          (r : Checked)
          → validate re d c m ≡ r
          → (k : ℕ) × (validate re d c m ≡ counted k) × (validate_all re d k ns ≡ counted n)
      next_of (counted k) e = (k, e, ground (arith, e))
      next_of (refused x) e = absurd (ground (arith, e))

  mutual
    unfolding validate size height max_depth max_nodes

    validate-Accepted :
        (d c : ℕ) (node : Node) (n : ℕ) → validate re d c node ≡ counted n → Accepted re d c node n
    validate-Accepted d c not_object n h =
        let (lo, hi, r) = guarded-counted re d (c + 1) _ h in absurd (cc)
    validate-Accepted d c empty_object n h =
        let (lo, hi, r) = guarded-counted re d (c + 1) _ h in absurd (cc)
    validate-Accepted d c crowded n h =
        let (lo, hi, r) = guarded-counted re d (c + 1) _ h in absurd (cc)
    validate-Accepted d c (no_list g) n h =
        let (lo, hi, r) = guarded-counted re d (c + 1) _ h in absurd (cc)
    validate-Accepted d c (negation m) n h =
        let (lo, hi, r) = guarded-counted re d (c + 1) _ h in
        let v = validate-Accepted (d + 1) (c + 1) m n r in
        record {
          counter = omega (arith, v.counter);
          count = v.count;
          shallow = hi;
          depth = omega (arith, v.depth, v.shallow);
          shape = denied v.shape;
        }
    validate-Accepted d c (group g stop) n h =
        let (lo, hi, r) = guarded-counted re d (c + 1) _ h in absurd (cc)
    validate-Accepted d c (group g (next m ns)) n h =
        let (lo, hi, r) = guarded-counted re d (c + 1) _ h in
        let (k, first, rest) = next-counted (d + 1) (c + 1) m ns n r in
        let v = validate-Accepted (d + 1) (c + 1) m k first in
        let w = validate_all-AllAccepted (d + 1) k ns n v.count rest in
        record {
          counter = omega (arith, v.counter, w.counter);
          count = w.count;
          shallow = hi;
          depth = omega (arith, v.depth, v.shallow, w.depth);
          shape = grouped (both v.shape w.shape);
        }
    validate-Accepted d c (comparison k) n h =
        let (lo, hi, r) = guarded-counted re d (c + 1) _ h in
        let (none_wrong, same) = leaf-counted re (check_comparison re k) (c + 1) r in
        record {
          counter = omega (arith, same);
          count = omega (arith, lo, same);
          shallow = hi;
          depth = omega arith;
          shape = compared (check_comparison-IsComparison re k none_wrong);
        }

    validate_all-AllAccepted :
        (d c : ℕ) (ns : Nodes) (n : ℕ)
        → c ≤ max_nodes
        → validate_all re d c ns ≡ counted n
        → AllAccepted re d c ns n
    validate_all-AllAccepted d c stop n lo h =
        let same : n ≡ c = ground arith in
        record {
          counter = omega (arith, same);
          count = omega (arith, lo, same);
          depth = omega arith;
          shape = none_left;
        }
    validate_all-AllAccepted d c (next m ns) n lo h =
        let (k, first, rest) = next-counted d c m ns n h in
        let v = validate-Accepted d c m k first in
        let w = validate_all-AllAccepted d k ns n v.count rest in
        record {
          counter = omega (arith, v.counter, w.counter);
          count = w.count;
          depth = omega (arith, v.depth, w.depth);
          shape = both v.shape w.shape;
        }

  all-next :
      (d c k n : ℕ) (m : Node) (ns : Nodes)
      → validate re d c m ≡ counted k
      → validate_all re d k ns ≡ counted n
      → validate_all re d c (next m ns) ≡ counted n
  unfolding validate
  all-next d c k n m ns h r = ground (arith, h, r)

  mutual
    unfolding validate size height max_depth max_nodes

    accept :
        (d c : ℕ) (node : Node)
        → IsWellFormed re node
        → c + size node ≤ max_nodes
        → d + height node ≤ max_depth
        → validate re d c node ≡ counted (c + size node)
    accept d c not_object v hc hd = elim v [ ]
    accept d c empty_object v hc hd = elim v [ ]
    accept d c crowded v hc hd = elim v [ ]
    accept d c (no_list g) v hc hd = elim v [ ]
    accept d c (group g stop) v hc hd = elim v [ ]
    accept d c (negation m) (denied v) hc hd =
        let inner = accept (d + 1) (c + 1) m v (omega arith) (omega arith) in
        let free = bounds-check re d (c + 1) (omega arith) (omega arith) in
        rw (free, inner) (ap counted (omega arith))
    accept d c (group g (next m ns)) (grouped v) hc hd =
        let inner : validate_all re (d + 1) (c + 1) (next m ns)
            ≡ counted (c + 1 + size_all (next m ns)) =
          accept_all (d + 1) (c + 1) (next m ns) v (omega arith) (omega arith) in
        let free = bounds-check re d (c + 1) (omega arith) (omega arith) in
        rw (free, inner) (ap counted (omega arith))
    accept d c (comparison k) (compared v) hc hd =
        let inner = IsComparison-check_comparison re k v in
        let free = bounds-check re d (c + 1) (omega arith) (omega arith) in
        rw (free, inner) (ap counted (omega arith))

    accept_all :
        (d c : ℕ) (ns : Nodes)
        → AllWellFormed re ns
        → c + size_all ns ≤ max_nodes
        → d + height_all ns ≤ max_depth
        → validate_all re d c ns ≡ counted (c + size_all ns)
    accept_all d c stop none_left hc hd = ap counted (omega arith)
    accept_all d c (next m ns) (both v vs) hc hd =
        let first = accept d c m v (omega arith) (omega arith) in
        let rest = accept_all d (c + size m) ns vs (omega arith) (omega arith) in
        all-next d c (c + size m) _ m ns first (rest ∙ ap counted (omega arith))

-- A rule is valid exactly when every node of it is well formed, it has at most 400 nodes, and it
-- nests at most 12 levels below its root.
pub validate_conditions_iff :
    (re : String → Bool) (node : Node)
    → ((n : ℕ) × (validate_conditions re node ≡ counted n))
      ↔ (IsWellFormed re node × (size node ≤ max_nodes) × (height node ≤ max_depth))
unfolding validate_conditions
validate_conditions_iff re node = (
  λ (n, h).
      (let v = validate-Accepted re 0 0 node n h in
        (v.shape, omega (arith, v.counter, v.count), omega (arith, v.depth))),
  λ (v, hs, hh). (0 + size node, accept re 0 0 node v (omega arith) (omega arith)),
)
