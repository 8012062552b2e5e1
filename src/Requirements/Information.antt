-- ===== src/Requirements/Information.antt =====
-- What `evaluate` of app/requirements/conditions.py answers on more facts.
use astra_licensing_graph.Prelude.{
  and_both, ◌≡◌, refl, ap, ◌≢◌, ◌⊎◌, inl, inr, Bool, true, false, not, ◌&&◌, Option, none, some,
  List, [], ◌∷◌, String, Value, Fields, arith, any, Bool-cases, Option-cases,
}
use astra_licensing_graph.Requirements.Conditions.{
  Operator, is_present, is_absent, Comparison, Group, all_of, any_of, none_of, Node, negation,
  group, comparison, Nodes, stop, next,
}
use astra_licensing_graph.Requirements.Comparisons.{Truth, holds, fails, unknown, Python}
use astra_licensing_graph.Requirements.Evaluation.{
  known, test_value, test_fact, compare_fact, is_holds, is_fails, is_unknown, negate, combine,
  map_truth, add_truth, truth_of, truths_of, asks_presence, evaluate, EvaluationTrace,
}

-- Every fact that is known stays known with its value.
abbrev pub Learns : Fields → Fields → Type 0
Learns facts facts' =
    (path : String) (v : Value) → known facts path ≡ some v → known facts' path ≡ some v

-- No operator below a node asks whether a fact is there.
unfoldable mutual
  pub no_presence : Node → Bool
  no_presence (negation n) = no_presence n
  no_presence (group g ns) = all_no_presence ns
  no_presence (comparison k) = elim k.op [ none ↦ true | some op ↦ not (asks_presence op) ]
  no_presence _ = true

  pub all_no_presence : Nodes → Bool
  all_no_presence stop = true
  all_no_presence (next n ns) = no_presence n && all_no_presence ns

-- A result was open, or has not changed.
abbrev Settled : Truth → Truth → Type 0
Settled t t' = (t ≡ unknown) ⊎ (t ≡ t')

-- The later evaluation raises, or both give results, and a result that was not open has stayed.
abbrev Below : Option Truth → Option Truth → Type 0
Below r r' =
    (r' ≡ none) ⊎ ((t : Truth) × (t' : Truth) × (r ≡ some t) × (r' ≡ some t') × Settled t t')

abbrev AllSettled : List Truth → List Truth → Type 0
AllSettled [] [] = Unit
AllSettled (t ∷ ts) (t' ∷ ts') = Settled t t' × AllSettled ts ts'
AllSettled _ _ = ⊥

abbrev AllBelow : Option (List Truth) → Option (List Truth) → Type 0
AllBelow r r' =
    (r' ≡ none)
    ⊎ ((ts : List Truth) × (ts' : List Truth) × (r ≡ some ts) × (r' ≡ some ts') × AllSettled ts ts')

holds_stays :
    (ts ts' : List Truth) → AllSettled ts ts' → any is_holds ts ≡ true → any is_holds ts' ≡ true
holds_stays [] [] h e = e
holds_stays [] (t' ∷ ts') h e = elim h [ ]
holds_stays (t ∷ ts) [] h e = elim h [ ]
holds_stays (holds ∷ ts) (t' ∷ ts') h e = ground arith
holds_stays (fails ∷ ts) (t' ∷ ts') h e = ground (arith, holds_stays ts ts' h.1)
holds_stays (unknown ∷ ts) (t' ∷ ts') h e = ground (arith, holds_stays ts ts' h.1)

fails_stays :
    (ts ts' : List Truth) → AllSettled ts ts' → any is_fails ts ≡ true → any is_fails ts' ≡ true
fails_stays [] [] h e = e
fails_stays [] (t' ∷ ts') h e = elim h [ ]
fails_stays (t ∷ ts) [] h e = elim h [ ]
fails_stays (fails ∷ ts) (t' ∷ ts') h e = ground arith
fails_stays (holds ∷ ts) (t' ∷ ts') h e = ground (arith, fails_stays ts ts' h.1)
fails_stays (unknown ∷ ts) (t' ∷ ts') h e = ground (arith, fails_stays ts ts' h.1)

decided_same : (ts ts' : List Truth) → AllSettled ts ts' → any is_unknown ts ≡ false → ts ≡ ts'
decided_same [] [] h e = refl
decided_same [] (t' ∷ ts') h e = elim h [ ]
decided_same (t ∷ ts) [] h e = elim h [ ]
decided_same (unknown ∷ ts) (t' ∷ ts') h e = ground arith
decided_same (holds ∷ ts) (t' ∷ ts') h e = ground (arith, decided_same ts ts' h.1)
decided_same (fails ∷ ts) (t' ∷ ts') h e = ground (arith, decided_same ts ts' h.1)

combine-Settled :
    (g : Group) (ts ts' : List Truth) → AllSettled ts ts' → Settled (combine g ts) (combine g ts')
unfolding combine
combine-Settled g ts ts' h = elim (Bool-cases (any is_unknown ts)) [
  | inr decided ↦ inr (ap (combine g) (decided_same ts ts' h decided))
  | inl open_result ↦ undecided g open_result
]
  where
    undecided : (g' : Group) → any is_unknown ts ≡ true → Settled (combine g' ts) (combine g' ts')
    undecided all_of u = ground (arith, fails_stays ts ts' h)
    undecided any_of u = ground (arith, holds_stays ts ts' h)
    undecided none_of u = ground (arith, holds_stays ts ts' h)

open_Below : (r : Option Truth) → Below (some unknown) r
open_Below none = inl refl
open_Below (some t) = inr (unknown, t, refl, refl, inl refl)

negate-Below : (r r' : Option Truth) → Below r r' → Below (map_truth negate r) (map_truth negate r')
negate-Below r r' (inl raised) = inl (rw raised refl)
negate-Below r r' (inr (t, t', e, e', inl u)) =
    inr (negate t, negate t', rw e refl, rw e' refl, inl (rw u refl))
negate-Below r r' (inr (t, t', e, e', inr same)) =
    inr (negate t, negate t', rw e refl, rw e' refl, inr (rw same refl))

combine-Below :
    (g : Group) (r r' : Option (List Truth))
    → AllBelow r r'
    → Below (map_truth (combine g) r) (map_truth (combine g) r')
combine-Below g r r' (inl raised) = inl (rw raised refl)
combine-Below g r r' (inr (ts, ts', e, e', s)) =
    inr (combine g ts, combine g ts', rw e refl, rw e' refl, combine-Settled g ts ts' s)

add-Below :
    (r r' : Option Truth) (rs rs' : Option (List Truth))
    → Below r r'
    → AllBelow rs rs'
    → AllBelow (add_truth r rs) (add_truth r' rs')
add-Below r r' rs rs' (inl raised) b = inl (rw raised refl)
add-Below r r' rs rs' (inr (t, t', e, e', s)) (inl raised) = inl (rw (e', raised) refl)
add-Below r r' rs rs' (inr (t, t', e, e', s)) (inr (ts, ts', es, es', ss)) =
    inr (t ∷ ts, t' ∷ ts', rw (e, es) refl, rw (e', es') refl, (s, ss))

module _ (py : Python) (facts facts' : Fields) (more : Learns facts facts') where
  Below-refl : (r : Option Truth) → Below r r
  Below-refl none = inl refl
  Below-refl (some t) = inr (t, t, refl, refl, inr refl)

  test_fact-known :
      (op : Operator) (v : Value) (e : Option Value) (cs : Bool)
      → asks_presence op ≡ false
      → test_fact py op (some v) e cs ≡ test_value py op v e cs
  unfolding test_fact asks_presence
  test_fact-known is_present v e cs h = cc
  test_fact-known is_absent v e cs h = cc
  test_fact-known _ v e cs h = refl

  test_fact-unknown :
      (op : Operator) (e : Option Value) (cs : Bool)
      → asks_presence op ≡ false
      → test_fact py op none e cs ≡ some unknown
  unfolding test_fact asks_presence
  test_fact-unknown is_present e cs h = cc
  test_fact-unknown is_absent e cs h = cc
  test_fact-unknown _ e cs h = refl

  compare_fact-Below :
      (k : Comparison)
      → no_presence (comparison k) ≡ true
      → Below (compare_fact py k facts) (compare_fact py k facts')
  unfolding compare_fact no_presence
  compare_fact-Below k h = elim (Option-cases k.fact) [
    | inl nothing ↦ inl (rw nothing refl)
    | inr (path, at) ↦ elim (Option-cases k.op) [
      | inl nothing ↦ inl (rw (at, nothing) refl)
      | inr (op, is_op) ↦
          let asks : asks_presence op ≡ false = ground (arith, is_op) in
          rw (at, is_op) (on_fact op path asks)
    ]
  ]
    where
      on_fact :
          (op : Operator) (path : String)
          → asks_presence op ≡ false
          → Below
              (test_fact py op (known facts path) k.value k.case_sensitive)
              (test_fact py op (known facts' path) k.value k.case_sensitive)
      on_fact op path asks = elim (Option-cases (known facts path)) [
        | inr (v, is_v) ↦ rw (is_v, more path v is_v) (Below-refl _)
        | inl absent ↦ rw absent (
            rw (test_fact-unknown op k.value k.case_sensitive asks)
              (open_Below (test_fact py op (known facts' path) k.value k.case_sensitive)))
      ]

  mutual
    unfolding truth_of no_presence

    truth_of-Below :
        (n : Node) → no_presence n ≡ true → Below (truth_of py n facts) (truth_of py n facts')
    truth_of-Below (negation n) h = negate-Below _ _ (truth_of-Below n h)
    truth_of-Below (group g ns) h = combine-Below g _ _ (truths_of-Below ns h)
    truth_of-Below (comparison k) h = compare_fact-Below k h
    truth_of-Below _ h = inl refl

    truths_of-Below :
        (ns : Nodes)
        → all_no_presence ns ≡ true
        → AllBelow (truths_of py ns facts) (truths_of py ns facts')
    truths_of-Below stop h = inr ([], [], refl, refl, tt)
    truths_of-Below (next n ns) h =
        let (here, later) = and_both (no_presence n) (all_no_presence ns) h in
        add-Below _ _ _ _ (truth_of-Below n here) (truths_of-Below ns later)

-- When facts are only added, and a rule asks of no fact whether it is there, a decided answer stays:
-- a rule that was TRUE or FALSE evaluates to the same on the larger facts, unless that raises.
pub evaluate-Learns :
    (py : Python) (node : Node) (facts facts' : Fields) (t : Truth) (trace trace' : EvaluationTrace)
    → no_presence node ≡ true
    → Learns facts facts'
    → (evaluate py node facts trace).0 ≡ some t
    → t ≢ unknown
    → ((evaluate py node facts' trace').0 ≡ none) ⊎ ((evaluate py node facts' trace').0 ≡ some t)
unfolding evaluate
evaluate-Learns py node facts facts' t trace trace' asks more e decided =
    elim (truth_of-Below py facts facts' more node asks) [
      | inl raised ↦ inl raised
      | inr (a, b, is_a, is_b, settled) ↦ elim settled [
        | inl u ↦ absurd (decided (cc (is_a, e, u)))
        | inr same ↦ inr (cc (is_a, is_b, e, same))
      ]
    ]
