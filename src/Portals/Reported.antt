-- ===== src/Portals/Reported.antt =====
-- The handoff that `capture_submission_result` finds, and its owner, in
-- app/services/submission_evidence_service.py.
use astra_licensing_graph.Prelude.{
  find_first-Among, ℕ, ◌⊎◌, ◌≢◌, sym, none, find_first, Option-cases, Among, str_eq_iff, ◌&&◌, ◌≡◌,
  refl, ap, inl, inr, true, false, Option, some, arith, Bool-cases, str_eq,
}
use astra_licensing_graph.Portals.Vocabulary.{
  HandoffStatus, HandoffType, PortalRunStatus, is_active, is_completed_handoff, is_submitted,
}
use astra_licensing_graph.Portals.Rows.{Caller, HumanHandoff, Store, UserPrincipal}
use astra_licensing_graph.Portals.Results.{ok}
use astra_licensing_graph.Portals.Governance.{acts_as, is_user, principal_of}
use astra_licensing_graph.Portals.Handoffs.{same_type}
use astra_licensing_graph.Portals.Submission.{check_final_actor, final_handoff, is_reported}
use astra_licensing_graph.Portals.Sound.{find_first-test}
use astra_licensing_graph.Portals.Settled.{same_final}

-- The handoff names nobody, or a user whose principal has the tenant and the object of the caller.
abbrev pub IsOwner : Store → Caller → Option ℕ → Type 0
IsOwner s c user =
    (user ≡ none)
    ⊎ ((p : UserPrincipal) × (user ≡ some p.id)
        × Among p s.principals
        × (p.tenant_id ≡ c.tenant_id)
        × (p.object_id ≡ c.object_id))

acts_as-IsOwner : (s : Store) (c : Caller) (u : ℕ) → acts_as s c u ≡ true → IsOwner s c (some u)
unfolding acts_as principal_of is_user
acts_as-IsOwner s c u h =
    elim (Option-cases (
      find_first (λ p. str_eq p.tenant_id c.tenant_id && str_eq p.object_id c.object_id)
        s.principals)) [
          | inl none_there ↦ absurd (cc (rw none_there at h))
          | inr (p, e) ↦
              let same : p.id ≡ u = ground (arith, rw e at h) in
              let passed =
                find_first-test
                  (λ p. str_eq p.tenant_id c.tenant_id && str_eq p.object_id c.object_id)
                  s.principals e in
              inr (
                p,
                ap some (sym same),
                find_first-Among _ s.principals e,
                (str_eq_iff _ _).0 (ground arith),
                (str_eq_iff _ _).0 (ground arith),
              )
        ]

pub check_final_actor-IsOwner :
    (s : Store) (c : Caller) (user : Option ℕ)
    → check_final_actor s c user ≡ ok tt
    → IsOwner s c user
unfolding check_final_actor
check_final_actor-IsOwner s c none h = inl refl
check_final_actor-IsOwner s c (some u) h = elim (Bool-cases (acts_as s c u)) [
  | inl own ↦ acts_as-IsOwner s c u own
  | inr other ↦ absurd (cc (rw other at h))
]

pub is_reported_lem :
    (st : HandoffStatus)
    → is_reported st ≡ true
    → (st ≡ HandoffStatus.active) ⊎ (st ≡ HandoffStatus.completed)
unfolding is_reported is_active is_completed_handoff
is_reported_lem st h = ground arith

pub final_handoff_lem :
    (s : Store) {h : HumanHandoff}
    → final_handoff s ≡ some h
    → Among h s.handoffs × (h.handoff_type ≡ HandoffType.final_submit)
unfolding final_handoff
final_handoff_lem s {h} e = (
  find_first-Among _ s.handoffs e,
  same_final h.handoff_type
      (find_first-test (λ h. same_type h.handoff_type HandoffType.final_submit) s.handoffs e),
)

pub unsubmitted : (st : PortalRunStatus) → is_submitted st ≡ false → st ≢ PortalRunStatus.submitted
unfolding is_submitted
unsubmitted st h e = cc (rw e at h)
