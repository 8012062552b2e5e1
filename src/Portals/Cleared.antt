-- ===== src/Portals/Cleared.antt =====
-- What stands when the final submission is handed to a human, by
-- `request_final_submit_handoff` of app/services/submission_evidence_service.py.
use astra_licensing_graph.Prelude.{
  find_first-Among, ◌≡◌, refl, ◌⊎◌, inl, inr, ◌≢◌, ℕ, true, ◌==◌, Option, none, some, [], ◌∷◌,
  String, arith, All, Among, Bool-cases, find_first, leb,
}
use mathlib.Core.Path.{subst}
use astra_licensing_graph.Portals.Vocabulary.{
  HandoffStatus, HandoffType, PortalRunStatus, SnapshotStatus, is_approved, is_open_handoff,
}
use astra_licensing_graph.Portals.Rows.{
  BrowserSession, Caller, HumanHandoff, PreSubmissionSnapshot, SnapshotPayload, Store,
}
use astra_licensing_graph.Portals.Results.{ok}
use astra_licensing_graph.Portals.Governance.{
  approved_snapshot, audited, in_status, operator_session, revalidate_governance,
}
use astra_licensing_graph.Portals.Snapshots.{payload_of}
use astra_licensing_graph.Portals.Sessions.{commit_sessions, live_count}
use astra_licensing_graph.Portals.Handoffs.{
  add_handoff, create_handoff, ensure_handoff, handoff_session, open_handoff, owned_session,
  run_status_for_handoff,
}
use astra_licensing_graph.Portals.Submission.{all_attested, request_final_submit_handoff}
use astra_licensing_graph.Portals.Sound.{All-find_first, IsSound, find_first-test}
use astra_licensing_graph.Portals.Bound.{bind-ok, found-ok, ok-injective, require-ok}
use astra_licensing_graph.Portals.Governed.{IsGoverned, revalidate_governance-IsGoverned}
use astra_licensing_graph.Portals.Settled.{
  same_final, IsAttested, IsKeyed, IsOwnSession, IsPaid, IsSigned, all_attested_lem,
  form_settled-IsSigned, operator_session-IsOwnSession, payment_settled-IsPaid, session_by_id-own,
}

-- The handoff of the final submission: a new one for the operator, in the operator's session, with
-- the run waiting for it; or one that is open already, with nothing changed.
abbrev pub IsHanded : Store → Store → (operator session : ℕ) → Type 0
IsHanded s s' operator session =
    ((h : HumanHandoff) × Among h s.handoffs
      × (h.handoff_type ≡ HandoffType.final_submit)
      × ((h.status ≡ HandoffStatus.requested)
          ⊎ ((h.status ≡ HandoffStatus.accepted) ⊎ (h.status ≡ HandoffStatus.active)))
      × (s' ≡ s))
    ⊎ ((h : HumanHandoff) × (s'.handoffs ≡ h ∷ s.handoffs)
        × (h.handoff_type ≡ HandoffType.final_submit)
        × (h.status ≡ HandoffStatus.requested)
        × (h.requested_from_user_id ≡ some operator)
        × (h.browser_session_id ≡ some session)
        × (s'.run.status ≡ PortalRunStatus.waiting_final_submit))

open_status :
    (st : HandoffStatus)
    → is_open_handoff st ≡ true
    → (st ≡ HandoffStatus.requested) ⊎ ((st ≡ HandoffStatus.accepted) ⊎ (st ≡ HandoffStatus.active))
unfolding is_open_handoff
open_status st h = ground arith

commit_sessions-ok : (t s' : Store) → commit_sessions t ≡ ok s' → t ≡ s'
unfolding commit_sessions
commit_sessions-ok t s' e = elim (Bool-cases (leb (live_count t.sessions) 1)) [
  | inl fits ↦ ok-injective (rw fits at e)
  | inr full ↦ absurd (cc (rw full at e))
]

handoff_session-own :
    (s : Store) (b : BrowserSession) (operator : ℕ)
    → IsKeyed s.sessions
    → Among b s.sessions
    → b.operator_user_id ≡ operator
    → handoff_session s operator (some b.id) ≡ ok (some b.id, s)
unfolding handoff_session owned_session
handoff_session-own s b operator keyed m own =
    rw (session_by_id-own s b keyed m, own) (ground arith)

ensured-IsHanded :
    (s : Store) (c : Caller) (operator session : ℕ) (o : Option HumanHandoff)
    → open_handoff s HandoffType.final_submit ≡ o
    → IsHanded s
        (ensure_handoff s HandoffType.final_submit none operator c (some session, s) o)
        operator
        session
unfolding ensure_handoff open_handoff add_handoff in_status audited run_status_for_handoff
ensured-IsHanded s c operator session none e = inr (_, refl, refl, refl, refl, refl, refl)
ensured-IsHanded s c operator session (some h) e =
    let passed = find_first-test _ s.handoffs e in
    inl (
      h,
      find_first-Among _ s.handoffs e,
      same_final h.handoff_type (ground arith),
      open_status h.status (ground arith),
      refl,
    )

create_handoff-IsHanded :
    (s s' : Store) (c : Caller) (operator : ℕ) (b : BrowserSession)
    → IsKeyed s.sessions
    → Among b s.sessions
    → b.operator_user_id ≡ operator
    → create_handoff s c HandoffType.final_submit (some operator) none (some b.id) ≡ ok s'
    → IsHanded s s' operator b.id
unfolding create_handoff
create_handoff-IsHanded s s' c operator b keyed m own e =
    let (_, _, e₁) = bind-ok (revalidate_governance s c.now) _ e in
    let (_, _, e₂) = found-ok (find_first (λ p. p.id == operator) s.principals) _ _ e₁ in
    subst (λ t. IsHanded s t operator b.id)
      (commit_sessions-ok _ s' (rw (handoff_session-own s b operator keyed m own) at e₂))
      (ensured-IsHanded s c operator b.id _ refl)

approved_snapshot-found :
    (s : Store) (r : PreSubmissionSnapshot)
    → approved_snapshot s ≡ some r
    → Among r s.snapshots × (r.status ≡ SnapshotStatus.approved)
unfolding approved_snapshot is_approved
approved_snapshot-found s r e =
    let approved = find_first-test (λ x. is_approved x.status) s.snapshots e in
    (find_first-Among _ s.snapshots e, ground arith)

module _ (canonical_snapshot_hash : SnapshotPayload → String) where
  -- The snapshot that a human may submit by.
  pub record IsCleared (s : Store) (r : PreSubmissionSnapshot) : Type 0 where
    pub clean : r.manifest.discrepancy_report ≡ []
    pub hashed : r.snapshot_sha256 ≡ canonical_snapshot_hash (payload_of s.run r.manifest)
    pub four_eyes : (a : String) × (r.reviewed_by_actor ≡ some a) × (a ≢ r.created_by_actor)

  approved-IsCleared :
      (s : Store) (r : PreSubmissionSnapshot)
      → IsSound canonical_snapshot_hash s
      → approved_snapshot s ≡ some r
      → IsCleared s r
  unfolding approved_snapshot
  approved-IsCleared s r v e =
      let sound = All-find_first _ (λ x. is_approved x.status) s.snapshots v.snapshots e in
      let approved = find_first-test (λ x. is_approved x.status) s.snapshots e in
      record {
        clean = sound.clean (inr approved);
        hashed = sound.hashed;
        four_eyes = sound.four_eyes approved;
      }

  -- In sound rows, with one row for each session id, a final submission is handed over only when
  -- the portal and its review are approved and in force, the review allows what the run files and
  -- for whom, and the adapter, if the run pins one, is active; with an approved snapshot that is
  -- free of discrepancies, hashes to what it recorded and was reviewed by another than its
  -- creator, when every attestation is completed or not required, the form of the run, if there is
  -- one, is signed or needs no signature, and the payment, if there is one, is made or not
  -- required. It is handed to the run's operator, in a session of that operator that is in use,
  -- and the run waits for it; only a final-submit handoff that is open already is left as it is,
  -- with nothing changed.
  pub final_submit-IsCleared :
      (s s' : Store) (c : Caller)
      → IsSound canonical_snapshot_hash s
      → IsKeyed s.sessions
      → request_final_submit_handoff s c ≡ ok s'
      → (r : PreSubmissionSnapshot) × (operator : ℕ) × (b : BrowserSession) × IsGoverned s c.now
        × Among r s.snapshots
        × (r.status ≡ SnapshotStatus.approved)
        × IsCleared s r
        × All IsAttested s.attestations
        × IsSigned s
        × IsPaid s.payment
        × (s.run.assigned_operator_id ≡ some operator)
        × IsOwnSession s operator b
        × IsHanded s s' operator b.id
  unfolding request_final_submit_handoff all_attested
  final_submit-IsCleared s s' c v keyed e =
      let (g, governed, e₁) = bind-ok (revalidate_governance s c.now) _ e in
      let (r, approved, e₂) = found-ok (approved_snapshot s) _ _ e₁ in
      let (attested, e₃) = require-ok _ _ _ e₂ in
      let (signed, e₄) = require-ok _ _ _ e₃ in
      let (paid, e₅) = require-ok _ _ _ e₄ in
      let (operator, assigned, e₆) = found-ok s.run.assigned_operator_id _ _ e₅ in
      let (b, session, e₇) = found-ok (operator_session s operator) _ _ e₆ in
      let own = operator_session-IsOwnSession s operator session in
      (
        r,
        operator,
        b,
        revalidate_governance-IsGoverned s c.now g governed,
        (approved_snapshot-found s r approved).0,
        (approved_snapshot-found s r approved).1,
        approved-IsCleared s r v approved,
        all_attested_lem s.attestations attested,
        form_settled-IsSigned s signed,
        payment_settled-IsPaid s.payment paid,
        assigned,
        own,
        create_handoff-IsHanded s s' c operator b keyed own.there own.own e₇,
      )
