-- ===== src/Portals/Governed.antt =====
-- What the governance of a run comes to: `revalidate_governance` of
-- app/services/portal_run_service.py with `approval_is_current` of app/portals/policies.py.
use astra_licensing_graph.Prelude.{
  ◌≡◌, refl, ◌⊎◌, inl, inr, ℕ, ◌≤◌, ◌<◌, true, false, not, ◌&&◌, Option, none, some, List, [], ◌∷◌,
  String, arith, Among, Bool-cases, str_eq, str_eq_iff, ◌==◌,
}
use astra_licensing_graph.Portals.Vocabulary.{
  AdapterStatus, PortalApprovalStatus, PortalReviewStatus, in_approved_statuses, is_review_approved,
}
use astra_licensing_graph.Portals.Policies.{
  adapter_is_active, after_moment, approval_is_current, filled, lapsed, mem_id, mem_text,
}
use astra_licensing_graph.Portals.Rows.{
  PortalAdapterVersion, PortalDefinition, PortalReviewVersion, Store,
}
use astra_licensing_graph.Portals.Results.{ok}
use astra_licensing_graph.Portals.Governance.{adapter_current, revalidate_governance}
use astra_licensing_graph.Portals.Bound.{found-ok, require-ok}

-- A bound that is not set, or has not been reached.
abbrev pub IsAhead : ℕ → Option ℕ → Type 0
IsAhead now end = (end ≡ none) ⊎ ((t : ℕ) × (end ≡ some t) × (now < t))

-- The portal and its review, approved and in force, allow what the run files for its entity, and
-- the adapter that it pins is active.
pub record IsGoverned (s : Store) (now : ℕ) : Type 0 where
  pub portal : PortalDefinition
  pub review : PortalReviewVersion
  pub of_portal : s.portal ≡ some portal
  pub of_review : s.review ≡ some review
  pub approved :
      (portal.status ≡ PortalApprovalStatus.approved_prepare_only)
      ⊎ ((portal.status ≡ PortalApprovalStatus.approved_assisted)
          ⊎ (portal.status ≡ PortalApprovalStatus.approved_api))
  pub reviewed : review.status ≡ PortalReviewStatus.approved
  pub begun : (review.valid_from ≡ none) ⊎ ((t : ℕ) × (review.valid_from ≡ some t) × (t ≤ now))
  pub unexpired : IsAhead now review.valid_to
  pub terms : IsAhead now portal.terms_review_expires_at
  pub filing : Among s.run.filing_type review.approved_filing_types
  pub entity :
      (review.approved_entity_ids ≡ []) ⊎ Among s.run.legal_entity_id review.approved_entity_ids
  pub adapter :
      (s.run.portal_adapter_version_id ≡ none)
      ⊎ ((a : PortalAdapterVersion) × (s.adapter ≡ some a) × (a.status ≡ AdapterStatus.active))

after_moment_lem :
    (now : ℕ) (start : Option ℕ)
    → after_moment now start ≡ false
    → (start ≡ none) ⊎ ((t : ℕ) × (start ≡ some t) × (t ≤ now))
unfolding after_moment
after_moment_lem now none h = inl refl
after_moment_lem now (some t) h = inr (t, refl, ground arith)

lapsed_lem : (now : ℕ) (end : Option ℕ) → lapsed now end ≡ false → IsAhead now end
unfolding lapsed
lapsed_lem now none h = inl refl
lapsed_lem now (some t) h = inr (t, refl, ground arith)

mem_text-Among : (t : String) (ts : List String) → mem_text t ts ≡ true → Among t ts
mem_text-Among t [] h = absurd (cc)
mem_text-Among t (u ∷ us) h = elim (Bool-cases (str_eq t u)) [
  | inl same ↦ inl ((str_eq_iff t u).0 same)
  | inr other ↦ inr (mem_text-Among t us (ground (arith, other)))
]

mem_id-Among : (i : ℕ) (is : List ℕ) → mem_id i is ≡ true → Among i is
mem_id-Among i [] h = absurd (cc)
mem_id-Among i (j ∷ js) h = elim (Bool-cases (i == j)) [
  | inl same ↦ inl (ground arith)
  | inr other ↦ inr (mem_id-Among i js (ground (arith, other)))
]

allowed_entity :
    (i : ℕ) (is : List ℕ) → not (filled is && not (mem_id i is)) ≡ true → (is ≡ []) ⊎ Among i is
allowed_entity i [] h = inl refl
allowed_entity i (j ∷ js) h = inr (mem_id-Among i (j ∷ js) (ground arith))

adapter_current_lem :
    (pinned : Option ℕ) (adapter : Option PortalAdapterVersion)
    → adapter_current pinned adapter ≡ true
    → (pinned ≡ none)
      ⊎ ((a : PortalAdapterVersion) × (adapter ≡ some a) × (a.status ≡ AdapterStatus.active))
unfolding adapter_current adapter_is_active
adapter_current_lem none adapter h = inl refl
adapter_current_lem (some i) none h = absurd (cc)
adapter_current_lem (some i) (some a) h = inr (a, refl, ground arith)

approved_status_lem :
    (st : PortalApprovalStatus)
    → in_approved_statuses st ≡ true
    → (st ≡ PortalApprovalStatus.approved_prepare_only)
      ⊎ ((st ≡ PortalApprovalStatus.approved_assisted) ⊎ (st ≡ PortalApprovalStatus.approved_api))
unfolding in_approved_statuses
approved_status_lem PortalApprovalStatus.approved_prepare_only h = inl refl
approved_status_lem PortalApprovalStatus.approved_assisted h = inr (inl refl)
approved_status_lem PortalApprovalStatus.approved_api h = inr (inr refl)
approved_status_lem _ h = absurd (cc)

review_approved_lem :
    (st : PortalReviewStatus) → is_review_approved st ≡ true → st ≡ PortalReviewStatus.approved
unfolding is_review_approved
review_approved_lem PortalReviewStatus.approved h = refl
review_approved_lem _ h = absurd (cc)

-- The tests that a granted approval has passed.
approval_parts :
    (p : PortalApprovalStatus) (r : PortalReviewStatus) (begin end terms : Option ℕ) (now : ℕ)
    → (approval_is_current p r begin end terms now).allowed ≡ true
    → (in_approved_statuses p ≡ true)
      × (is_review_approved r ≡ true)
      × (after_moment now begin ≡ false)
      × (lapsed now end ≡ false)
      × (lapsed now terms ≡ false)
unfolding approval_is_current
approval_parts p r begin end terms now h =
    (ground arith, ground arith, ground arith, ground arith, ground arith)

pub revalidate_governance-IsGoverned :
    (s : Store) (now : ℕ) (g : PortalDefinition × PortalReviewVersion)
    → revalidate_governance s now ≡ ok g
    → IsGoverned s now
unfolding revalidate_governance
revalidate_governance-IsGoverned s now g e =
    let (portal, of_portal, e₁) = found-ok s.portal _ _ e in
    let (review, of_review, e₂) = found-ok s.review _ _ e₁ in
    let (current, e₃) = require-ok _ _ _ e₂ in
    let (filing, e₄) = require-ok _ _ _ e₃ in
    let (entity, e₅) = require-ok _ _ _ e₄ in
    let (adapter, e₆) = require-ok _ _ _ e₅ in
    let (a, r, begun, valid, terms) = approval_parts _ _ _ _ _ _ current in
    record {
      portal = portal;
      review = review;
      of_portal = of_portal;
      of_review = of_review;
      approved = approved_status_lem _ a;
      reviewed = review_approved_lem _ r;
      begun = after_moment_lem now _ begun;
      unexpired = lapsed_lem now _ valid;
      terms = lapsed_lem now _ terms;
      filing = mem_text-Among _ _ filing;
      entity = allowed_entity _ _ entity;
      adapter = adapter_current_lem _ _ adapter;
    }
