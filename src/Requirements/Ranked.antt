-- ===== src/Requirements/Ranked.antt =====
-- The test and the order of `resolve_effective_rules` of app/requirements/rules.py, as facts about
-- rules.
use Prim.Native.Char.{code}
use astra_licensing_graph.Prelude.{
  ℕ, ◌≤◌, ◌<◌, ◌≡◌, refl, ◌↔◌, ◌⊎◌, inl, inr, true, Option, none, some, List, [], ◌∷◌, String, All,
  arith, Option-cases, some-inj,
}
use astra_licensing_graph.Requirements.Rules.{
  Rule, applies, in_scope_of, is_effective_on, no_later, specificity, text_leb,
}

-- A text that comes no later: it is a prefix, or has the smaller code point where they differ.
abbrev pub TextLe : String → String → Type 0
TextLe String.[] t = Unit
TextLe (String.◌∷◌ c s) String.[] = ⊥
TextLe (String.◌∷◌ c s) (String.◌∷◌ d t) = (code c < code d) ⊎ ((code c ≡ code d) × TextLe s t)

-- How many of its two ids a rule sets.
abbrev pub ids_set : Option ℕ → Option ℕ → ℕ
ids_set none none = 0
ids_set (some i) none = 1
ids_set none (some j) = 1
ids_set (some i) (some j) = 2

abbrev pub narrowness : Rule → ℕ
narrowness r = ids_set r.jurisdiction_id r.license_type_id

-- The rule with more ids first, then the one with the smaller priority, then by key.
abbrev pub Outranks : Rule → Rule → Type 0
Outranks r s =
    (narrowness s < narrowness r)
    ⊎ ((narrowness r ≡ narrowness s)
        × ((r.priority < s.priority) ⊎ ((r.priority ≡ s.priority) × TextLe r.rule_key s.rule_key)))

-- Each rule of a list outranks those after it.
abbrev pub IsRanked : List Rule → Type 0
IsRanked [] = Unit
IsRanked (r ∷ rs) = All (Outranks r) rs × IsRanked rs

-- The rule asks for no id, or for the one that is given.
abbrev pub IsFor : Option ℕ → Option ℕ → Type 0
IsFor own given = (own ≡ none) ⊎ ((i : ℕ) × (own ≡ some i) × (given ≡ some i))

-- The rule is enabled, in force on the day, and for the jurisdiction and the license.
pub record IsApplicable (when : ℕ) (jurisdiction license : Option ℕ) (r : Rule) : Type 0 where
  pub enabled : r.enabled ≡ true
  pub started : (r.effective_from ≡ none) ⊎ ((d : ℕ) × (r.effective_from ≡ some d) × (d ≤ when))
  pub unended : (r.effective_to ≡ none) ⊎ ((d : ℕ) × (r.effective_to ≡ some d) × (when ≤ d))
  pub of_jurisdiction : IsFor r.jurisdiction_id jurisdiction
  pub of_license : IsFor r.license_type_id license

text_leb-TextLe : (s t : String) → text_leb s t ≡ true → TextLe s t
unfolding text_leb
text_leb-TextLe String.[] t h = tt
text_leb-TextLe (String.◌∷◌ c s) String.[] h = cc
text_leb-TextLe (String.◌∷◌ c s) (String.◌∷◌ d t) h = ground (arith, text_leb-TextLe s t)

narrowness-specificity : (r : Rule) → narrowness r ≡ specificity r
unfolding specificity
narrowness-specificity r = ground arith

pub no_later-Outranks : (r s : Rule) → no_later r s ≡ true → Outranks r s
unfolding no_later
no_later-Outranks r s h = ground (
  arith,
  text_leb-TextLe r.rule_key s.rule_key,
  narrowness-specificity r,
  narrowness-specificity s,
)

in_scope_of-IsFor : (own given : Option ℕ) → (in_scope_of own given ≡ true) ↔ IsFor own given
unfolding in_scope_of
in_scope_of-IsFor none given = (λ h. inl refl, λ v. refl)
in_scope_of-IsFor (some i) none =
    (λ h. absurd (cc), λ v. elim v [ inl e ↦ absurd (cc) | inr (j, e, e') ↦ absurd (cc) ])
in_scope_of-IsFor (some i) (some j) = (
  λ h. inr (i, refl, ground arith),
  λ v. elim v [ inl e ↦ absurd (cc) | inr (k, e, e') ↦ ground (arith, some-inj e, some-inj e') ],
)

IsInForce : ℕ → Rule → Type 0
IsInForce when r =
    ((r.effective_from ≡ none) ⊎ ((d : ℕ) × (r.effective_from ≡ some d) × (d ≤ when)))
    × ((r.effective_to ≡ none) ⊎ ((d : ℕ) × (r.effective_to ≡ some d) × (when ≤ d)))

effective-IsInForce : (r : Rule) (when : ℕ) → is_effective_on r when ≡ true → IsInForce when r
unfolding is_effective_on IsInForce
effective-IsInForce r when h = (
  elim (Option-cases r.effective_from) [
    | inl e ↦ inl e
    | inr (d, e) ↦ inr (d, e, ground (arith, e))
  ],
  elim (Option-cases r.effective_to) [ inl e ↦ inl e | inr (d, e) ↦ inr (d, e, ground (arith, e)) ],
)

IsInForce-effective : (r : Rule) (when : ℕ) → IsInForce when r → is_effective_on r when ≡ true
unfolding is_effective_on IsInForce
IsInForce-effective r when (inl e, inl e') = ground (arith, e, e')
IsInForce-effective r when (inl e, inr (d, e', h)) = ground (arith, e, e', h)
IsInForce-effective r when (inr (d, e, h), inl e') = ground (arith, e, e', h)
IsInForce-effective r when (inr (d, e, h), inr (d', e', h')) = ground (arith, e, e', h, h')

pub applies-IsApplicable :
    (when : ℕ) (jurisdiction license : Option ℕ) (r : Rule)
    → (applies when jurisdiction license r ≡ true) ↔ IsApplicable when jurisdiction license r
unfolding applies IsInForce
applies-IsApplicable when jurisdiction license r = (
  λ h.
      let force = effective-IsInForce r when (ground arith) in
      record {
        enabled = ground arith;
        started = force.0;
        unended = force.1;
        of_jurisdiction = (in_scope_of-IsFor r.jurisdiction_id jurisdiction).0 (ground arith);
        of_license = (in_scope_of-IsFor r.license_type_id license).0 (ground arith);
      },
  λ v. ground (
    arith,
    v.enabled,
    IsInForce-effective r when (v.started, v.unended),
    (in_scope_of-IsFor r.jurisdiction_id jurisdiction).1 v.of_jurisdiction,
    (in_scope_of-IsFor r.license_type_id license).1 v.of_license,
  ),
)
