-- ===== src/Requirements/Ordered.antt =====
-- Which rules `resolve_effective_rules` of app/requirements/rules.py gives, and in which order.
use astra_licensing_graph.Prelude.{
  Among-select, ℕ, ◌≡◌, refl, ◌↔◌, inl, inr, true, false, Option, List, [], ◌∷◌, String, select,
  All, Among, arith, Bool-cases,
}
use astra_licensing_graph.Requirements.Ranked.{
  IsApplicable, IsRanked, Outranks, applies-IsApplicable, no_later-Outranks,
}
use astra_licensing_graph.Requirements.Rules.{
  Rule, no_later, insert_rule, sorted_rules, applies, resolve_effective_rules, text_leb,
}

-- Each rule of a list is no later than the rules after it.
abbrev IsOrdered : List Rule → Type 0
IsOrdered [] = Unit
IsOrdered (r ∷ rs) = All (λ s. no_later r s ≡ true) rs × IsOrdered rs

text_leb_total : (s t : String) → text_leb s t ≡ false → text_leb t s ≡ true
unfolding text_leb
text_leb_total String.[] t h = ground arith
text_leb_total (String.◌∷◌ c s) String.[] h = refl
text_leb_total (String.◌∷◌ c s) (String.◌∷◌ d t) h = ground (arith, text_leb_total s t)

text_leb_trans : (s t u : String) → text_leb s t ≡ true → text_leb t u ≡ true → text_leb s u ≡ true
unfolding text_leb
text_leb_trans String.[] t u h k = refl
text_leb_trans (String.◌∷◌ c s) String.[] u h k = ground arith
text_leb_trans (String.◌∷◌ c s) (String.◌∷◌ d t) String.[] h k = ground arith
text_leb_trans (String.◌∷◌ c s) (String.◌∷◌ d t) (String.◌∷◌ e u) h k =
    ground (arith, text_leb_trans s t u)

no_later_total : (r s : Rule) → no_later r s ≡ false → no_later s r ≡ true
unfolding no_later
no_later_total r s h = ground (arith, text_leb_total r.rule_key s.rule_key)

no_later_trans : (r s t : Rule) → no_later r s ≡ true → no_later s t ≡ true → no_later r t ≡ true
unfolding no_later
no_later_trans r s t h k = ground (arith, text_leb_trans r.rule_key s.rule_key t.rule_key)

All-no_later :
    (r s : Rule) (rs : List Rule)
    → no_later r s ≡ true
    → All (λ t. no_later s t ≡ true) rs
    → All (λ t. no_later r t ≡ true) rs
All-no_later r s [] h ps = tt
All-no_later r s (t ∷ ts) h ps = (no_later_trans r s t h ps.0, All-no_later r s ts h ps.1)

All-insert_rule :
    (P : Rule → Type 0) (r : Rule) (rs : List Rule) → P r → All P rs → All P (insert_rule r rs)
unfolding insert_rule
All-insert_rule P r [] p ps = (p, tt)
All-insert_rule P r (s ∷ ss) p ps = elim (Bool-cases (no_later r s)) [
  | inl first ↦ rw first (p, ps)
  | inr later ↦ rw later (ps.0, All-insert_rule P r ss p ps.1)
]

insert_rule-IsOrdered : (r : Rule) (rs : List Rule) → IsOrdered rs → IsOrdered (insert_rule r rs)
unfolding insert_rule
insert_rule-IsOrdered r [] o = (tt, tt)
insert_rule-IsOrdered r (s ∷ ss) o = elim (Bool-cases (no_later r s)) [
  | inl first ↦ rw first ((first, All-no_later r s ss first o.0), o)
  | inr later ↦ rw later (
    All-insert_rule (λ t. no_later s t ≡ true) r ss (no_later_total r s later) o.0,
    insert_rule-IsOrdered r ss o.1,
  )
]

sorted_rules-IsOrdered : (rs : List Rule) → IsOrdered (sorted_rules rs)
unfolding sorted_rules
sorted_rules-IsOrdered [] = tt
sorted_rules-IsOrdered (r ∷ rs) =
    insert_rule-IsOrdered r (sorted_rules rs) (sorted_rules-IsOrdered rs)

Among-insert_rule : (x r : Rule) (rs : List Rule) → Among x (insert_rule r rs) ↔ Among x (r ∷ rs)
unfolding insert_rule
Among-insert_rule x r [] = (λ m. m, λ m. m)
Among-insert_rule x r (s ∷ ss) = elim (Bool-cases (no_later r s)) [
  | inl first ↦ rw first (λ m. m, λ m. m)
  | inr later ↦ let ih = Among-insert_rule x r ss in rw later (ground (arith, ih))
]

Among-sorted_rules : (x : Rule) (rs : List Rule) → Among x (sorted_rules rs) ↔ Among x rs
unfolding sorted_rules
Among-sorted_rules x [] = (λ m. m, λ m. m)
Among-sorted_rules x (r ∷ rs) =
    ground (arith, Among-insert_rule x r (sorted_rules rs), Among-sorted_rules x rs)

All-Outranks : (r : Rule) (rs : List Rule) → All (λ s. no_later r s ≡ true) rs → All (Outranks r) rs
All-Outranks r [] h = tt
All-Outranks r (s ∷ ss) h = (no_later-Outranks r s h.0, All-Outranks r ss h.1)

IsOrdered-IsRanked : (rs : List Rule) → IsOrdered rs → IsRanked rs
IsOrdered-IsRanked [] h = tt
IsOrdered-IsRanked (r ∷ rs) h = (All-Outranks r rs h.0, IsOrdered-IsRanked rs h.1)

-- The rules that apply are those of the list that are enabled, have started by the day and not ended
-- before it, and name no jurisdiction and no license but the given ones. Of two of them the earlier
-- names more of the two, or as many with a smaller priority, or the same priority with a key that
-- comes no later by code points.
pub resolve_effective_rules-IsRanked :
    (rules : List Rule) (when : ℕ) (jurisdiction license : Option ℕ)
    → IsRanked (resolve_effective_rules rules when jurisdiction license)
      × ((r : Rule)
          → Among r (resolve_effective_rules rules when jurisdiction license)
            ↔ (Among r rules × IsApplicable when jurisdiction license r))
unfolding resolve_effective_rules
resolve_effective_rules-IsRanked rules when jurisdiction license =
    let p = applies when jurisdiction license in
    (
      IsOrdered-IsRanked _ (sorted_rules-IsOrdered (select p rules)),
      λ r. ground (
        arith,
        Among-sorted_rules r (select p rules),
        Among-select p r rules,
        applies-IsApplicable when jurisdiction license r,
      ),
    )
