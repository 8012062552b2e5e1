-- ===== src/Portals/Approved.antt =====
-- When a snapshot may be approved: `approve_snapshot` of app/services/portal_run_service.py.
use astra_licensing_graph.Prelude.{
  ◌≡◌, refl, sym, ap, inl, inr, ◌≢◌, ℕ, ◌≤◌, true, false, not, some, [], String, ◌==◌, arith, All,
  Bool-cases, leb, str_eq,
}
use astra_licensing_graph.Portals.Vocabulary.{
  PortalRunStatus, SnapshotStatus, is_approved, is_ready_for_review,
}
use astra_licensing_graph.Portals.Rows.{
  Caller, PortalDefinition, PortalReviewVersion, PreSubmissionSnapshot, SnapshotPayload, Store,
}
use astra_licensing_graph.Portals.Results.{ok}
use astra_licensing_graph.Portals.Governance.{
  approved_snapshot, audited, in_status, revalidate_governance,
}
use astra_licensing_graph.Portals.Snapshots.{
  approve_snapshot, approved_count, commit_approval, is_latest, latest_snapshot, payload_of,
  reviewed, snapshot_by_id, with_approval,
}
use astra_licensing_graph.Portals.Sound.{All-find_first, IsSound, find_first-test}
use astra_licensing_graph.Portals.Bound.{not-false, bind-ok, found-ok, require-ok}
use astra_licensing_graph.Portals.Latest.{is_latest-newest, latest_snapshot-newest, put-both}

commit_approval-ok :
    (t s' : Store) → commit_approval t ≡ ok s' → (approved_count t.snapshots ≤ 1) × (t ≡ s')
unfolding commit_approval
commit_approval-ok t s' e = elim (Bool-cases (leb (approved_count t.snapshots) 1)) [
  | inl fits ↦ (ground arith, cc (rw fits at e))
  | inr full ↦ absurd (cc (rw full at e))
]

-- What an accepted approval found.
record IsAccepted (s s' : Store) (c : Caller) (i : ℕ) : Type 0 where
  row : PreSubmissionSnapshot
  governance : PortalDefinition × PortalReviewVersion
  here : snapshot_by_id i s ≡ some row
  ready : is_ready_for_review row.status ≡ true
  stranger : not (str_eq row.created_by_actor c.actor_id) ≡ true
  governed : revalidate_governance s c.now ≡ ok governance
  latest : is_latest (latest_snapshot s.snapshots) row ≡ true
  committed : commit_approval (with_approval s row c) ≡ ok s'

module _ (canonical_snapshot_hash : SnapshotPayload → String) where
  approve_snapshot-ok :
      (s s' : Store) (c : Caller) (i : ℕ)
      → approve_snapshot canonical_snapshot_hash s c i ≡ ok s'
      → IsAccepted s s' c i
  unfolding approve_snapshot
  approve_snapshot-ok s s' c i e =
      let (r, here, e₁) = found-ok (snapshot_by_id i s) _ _ e in
      let (ready, e₂) = require-ok (is_ready_for_review r.status) _ _ e₁ in
      let (stranger, e₃) = require-ok (not (str_eq r.created_by_actor c.actor_id)) _ _ e₂ in
      let (g, governed, e₄) = bind-ok (revalidate_governance s c.now) _ e₃ in
      let (latest, e₅) = require-ok (is_latest (latest_snapshot s.snapshots) r) _ _ e₄ in
      let (_, e₆) =
        require-ok
          (str_eq (canonical_snapshot_hash (payload_of s.run r.manifest)) r.snapshot_sha256) _ _
          e₅ in
      record {
        row = r;
        governance = g;
        here = here;
        ready = ready;
        stranger = stranger;
        governed = governed;
        latest = latest;
        committed = e₆;
      }

  -- While another snapshot of the run is approved, no approval is accepted: a snapshot that was
  -- taken after an approval can be approved only once the older approval has been withdrawn.
  pub approve_snapshot-blocked :
      (s s' : Store) (c : Caller) (i : ℕ) (old : PreSubmissionSnapshot)
      → approved_snapshot s ≡ some old
      → (old.id == i) ≡ false
      → approve_snapshot canonical_snapshot_hash s c i ≢ ok s'
  unfolding approved_snapshot snapshot_by_id with_approval in_status audited
  approve_snapshot-blocked s s' c i old older other e =
      let a = approve_snapshot-ok s s' c i e in
      let found_id : (a.row.id == i) ≡ true = find_first-test (λ x. x.id == i) s.snapshots a.here in
      let same : a.row.id ≡ i = ground arith in
      let one = (commit_approval-ok (with_approval s a.row c) s' a.committed).0 in
      let two =
        put-both (reviewed SnapshotStatus.approved c a.row) a.row old s.snapshots
          (unfold is_approved in refl) (rw same a.here) older (rw same other) in
      omega (arith, one, two)

  -- In sound rows an approval is accepted only of a snapshot that waits for review, is free of
  -- discrepancies and has the id of a newest snapshot of the run, by another actor than the one who
  -- took it, under governance that holds at that moment; the run is then
  -- PRE_SUBMISSION_APPROVED.
  pub approve_snapshot-newest :
      (s s' : Store) (c : Caller) (i : ℕ)
      → IsSound canonical_snapshot_hash s
      → approve_snapshot canonical_snapshot_hash s c i ≡ ok s'
      → (r : PreSubmissionSnapshot) × (l : PreSubmissionSnapshot) × (g : PortalDefinition
          × PortalReviewVersion)
        × (snapshot_by_id i s ≡ some r)
        × (is_ready_for_review r.status ≡ true)
        × (r.manifest.discrepancy_report ≡ [])
        × (str_eq r.created_by_actor c.actor_id ≡ false)
        × (revalidate_governance s c.now ≡ ok g)
        × (l.id ≡ r.id)
        × All (λ x. x.version ≤ l.version) s.snapshots
        × (s'.run.status ≡ PortalRunStatus.pre_submission_approved)
  unfolding snapshot_by_id with_approval in_status audited
  approve_snapshot-newest s s' c i v e =
      let a = approve_snapshot-ok s s' c i e in
      let (l, last, same) = is_latest-newest (latest_snapshot s.snapshots) a.row a.latest in
      let sound = All-find_first _ (λ x. x.id == i) s.snapshots v.snapshots a.here in
      (
        a.row,
        l,
        a.governance,
        a.here,
        a.ready,
        sound.clean (inl a.ready),
        not-false (str_eq a.row.created_by_actor c.actor_id) a.stranger,
        a.governed,
        same,
        latest_snapshot-newest s.snapshots l last,
        ap (λ x. x.run.status)
            (sym (commit_approval-ok (with_approval s a.row c) s' a.committed).1),
      )
