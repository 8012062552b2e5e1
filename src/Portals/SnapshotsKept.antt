-- ===== src/Portals/SnapshotsKept.antt =====
-- `create_snapshot`, `approve_snapshot` and `reject_snapshot` of
-- app/services/portal_run_service.py leave sound rows.
use astra_licensing_graph.Prelude.{
  ◌≡◌, refl, sym, ◌≢◌, inl, inr, ℕ, ◌≤◌, true, false, not, some, List, [], ◌∷◌, String, ◌==◌, arith,
  Bool-cases, leb, str_eq, str_eq_iff,
}
use astra_licensing_graph.Portals.Vocabulary.{
  PortalRunStatus, SnapshotStatus, is_approved, is_ready_for_review, is_rejectable, is_submitted,
}
use astra_licensing_graph.Portals.Rows.{
  Caller, Discrepancy, PreSubmissionSnapshot, SnapshotPayload, Store,
}
use astra_licensing_graph.Portals.Results.{Result}
use astra_licensing_graph.Portals.Governance.{audited, in_status, put_snapshot}
use astra_licensing_graph.Portals.Snapshots.{
  approve_snapshot, approved_count, captured_status, commit_approval, create_snapshot, manifest_of,
  new_snapshot, payload_of, reject_snapshot, reviewed, snapshot_by_id, snapshot_status,
  with_approval, with_snapshot,
}
use astra_licensing_graph.Portals.Outcomes.{Leaves, call_rules, failed, returned}
use astra_licensing_graph.Portals.Sound.{All-find_first, All-put, IsSound, IsSoundSnapshot}
use astra_licensing_graph.Portals.Writes.{add_step-IsSound, audited-IsSound, in_status-IsSound}
use astra_licensing_graph.Portals.Withdrawn.{lowered-IsSound, write_rules}

captured_status-is_submitted : (ds : List Discrepancy) → is_submitted (captured_status ds) ≡ false
unfolding captured_status is_submitted
captured_status-is_submitted [] = refl
captured_status-is_submitted (d ∷ ds) = refl

pub snapshot_status-is_approved : (ds : List Discrepancy) → is_approved (snapshot_status ds) ≡ false
unfolding snapshot_status is_approved
snapshot_status-is_approved [] = refl
snapshot_status-is_approved (d ∷ ds) = refl

pub snapshot_status-ready :
    (ds : List Discrepancy) → is_ready_for_review (snapshot_status ds) ≡ true → ds ≡ []
unfolding snapshot_status is_ready_for_review
snapshot_status-ready [] h = refl
snapshot_status-ready (d ∷ ds) h = absurd (cc)

rejectable-lowered : (st : SnapshotStatus) → is_rejectable st ≡ true → is_approved st ≡ false
unfolding is_rejectable is_approved
rejectable-lowered st h = ground arith

module _ (canonical_snapshot_hash : SnapshotPayload → String) where
  abbrev Sound : Store → Type 0
  Sound = IsSound canonical_snapshot_hash

  abbrev Kept : Result Store → Type 0
  Kept = Leaves Sound

  new_snapshot-IsSound :
      (s : Store) (c : Caller)
      → IsSoundSnapshot canonical_snapshot_hash
          (payload_of s.run)
          (new_snapshot canonical_snapshot_hash s c)
  unfolding new_snapshot
  new_snapshot-IsSound s c = record {
    hashed = refl;
    clean = λ h. elim h [
      | inl x ↦ snapshot_status-ready (manifest_of s).discrepancy_report x
      | inr x ↦ absurd (cc (x, snapshot_status-is_approved (manifest_of s).discrepancy_report))
    ];
    four_eyes =
        λ h. absurd (cc (h, snapshot_status-is_approved (manifest_of s).discrepancy_report));
  }

  added-IsSound :
      (s : Store) (r : PreSubmissionSnapshot)
      → IsSoundSnapshot canonical_snapshot_hash (payload_of s.run) r
      → is_approved r.status ≡ false
      → Sound s
      → Sound (record s { snapshots = r ∷ s.snapshots })
  unfolding approved_count
  added-IsSound s r h na v = record {
    mirrored = v.mirrored;
    snapshots = (h, v.snapshots);
    one_approved = ground (arith, v.one_approved);
    attestations = v.attestations;
    payment = v.payment;
    confirmed = v.confirmed;
    submitted = v.submitted;
  }

  with_snapshot-IsSound :
      (s : Store) (c : Caller)
      → Sound s
      → Sound (with_snapshot s (new_snapshot canonical_snapshot_hash s c))
  unfolding with_snapshot
  with_snapshot-IsSound s c v =
      let v' =
        added-IsSound s (new_snapshot canonical_snapshot_hash s c) (new_snapshot-IsSound s c)
          (unfold new_snapshot in snapshot_status-is_approved _) v in
      audited-IsSound canonical_snapshot_hash _ _ (
        add_step-IsSound canonical_snapshot_hash _ _ _ _
          (in_status-IsSound canonical_snapshot_hash _ _ (captured_status-is_submitted _) v'))

  pub create_snapshot-Kept :
      (s : Store) (c : Caller) → Sound s → Kept (create_snapshot canonical_snapshot_hash s c)
  unfolding create_snapshot
  create_snapshot-Kept s c v = search (call_rules, with_snapshot-IsSound)

  approved-IsSound :
      (s : Store) (r : PreSubmissionSnapshot) (c : Caller)
      → IsSoundSnapshot canonical_snapshot_hash (payload_of s.run) r
      → is_ready_for_review r.status ≡ true
      → r.created_by_actor ≢ c.actor_id
      → IsSoundSnapshot canonical_snapshot_hash
          (payload_of s.run)
          (reviewed SnapshotStatus.approved c r)
  approved-IsSound s r c h ready other = record {
    hashed = h.hashed;
    clean = λ _. h.clean (inl ready);
    four_eyes = λ _. (c.actor_id, refl, λ e. other (sym e));
  }

  with_approval-IsSound :
      (s : Store) (r : PreSubmissionSnapshot) (c : Caller)
      → IsSoundSnapshot canonical_snapshot_hash
          (payload_of s.run)
          (reviewed SnapshotStatus.approved c r)
      → approved_count (with_approval s r c).snapshots ≤ 1
      → Sound s
      → Sound (with_approval s r c)
  unfolding with_approval in_status audited is_submitted payload_of
  with_approval-IsSound s r c h one v = record {
    mirrored = refl;
    snapshots =
        All-put (IsSoundSnapshot canonical_snapshot_hash (payload_of s.run)) (λ x. x.id == r.id)
          (reviewed SnapshotStatus.approved c r) s.snapshots v.snapshots h;
    one_approved = one;
    attestations = v.attestations;
    payment = v.payment;
    confirmed = v.confirmed;
    submitted = λ x. absurd (cc);
  }

  commit_approval-Kept :
      (s : Store) (c : Caller) (i : ℕ) (r : PreSubmissionSnapshot)
      → Sound s
      → snapshot_by_id i s ≡ some r
      → is_ready_for_review r.status ≡ true
      → not (str_eq r.created_by_actor c.actor_id) ≡ true
      → Kept (commit_approval (with_approval s r c))
  unfolding commit_approval snapshot_by_id
  commit_approval-Kept s c i r v e ready other =
      elim (Bool-cases (leb (approved_count (with_approval s r c).snapshots) 1)) [
        | inl fits ↦ rw fits (
            returned (
              with_approval-IsSound s r c
                (approved-IsSound s r c
                  (All-find_first _ (λ x. x.id == i) s.snapshots v.snapshots e) ready
                  (λ same. ground (arith, str_eq_iff r.created_by_actor c.actor_id)))
                (ground arith) v))
        | inr full ↦ rw full failed
      ]

  pub approve_snapshot-Kept :
      (s : Store) (c : Caller) (i : ℕ)
      → Sound s
      → Kept (approve_snapshot canonical_snapshot_hash s c i)
  unfolding approve_snapshot
  approve_snapshot-Kept s c i v = search (call_rules, commit_approval-Kept) depth 14

  rejected-IsSound :
      (s : Store) (c : Caller) (i : ℕ) (r : PreSubmissionSnapshot)
      → Sound s
      → snapshot_by_id i s ≡ some r
      → is_rejectable r.status ≡ true
      → Sound (
          in_status PortalRunStatus.discrepancies_found (record s {
            snapshots = put_snapshot (reviewed SnapshotStatus.rejected c r) s.snapshots;
          }))
  unfolding snapshot_by_id in_status
  rejected-IsSound s c i r v e h =
      lowered-IsSound canonical_snapshot_hash s r SnapshotStatus.rejected (some c.actor_id)
        PortalRunStatus.discrepancies_found (unfold is_ready_for_review in refl)
        (unfold is_approved in refl) (unfold is_submitted in refl)
        (All-find_first _ (λ x. x.id == i) s.snapshots v.snapshots e) v

  pub reject_snapshot-Kept :
      (s : Store) (c : Caller) (i : ℕ) → Sound s → Kept (reject_snapshot s c i)
  unfolding reject_snapshot
  reject_snapshot-Kept s c i v = search (write_rules, call_rules, rejected-IsSound) depth 12
