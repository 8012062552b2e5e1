-- ===== src/Portals/Withdrawn.antt =====
-- Snapshots that are written back, and `_invalidate_snapshot` of
-- app/services/portal_run_service.py and app/services/portal_entry_service.py.
use astra_licensing_graph.Prelude.{
  ◌≡◌, refl, inl, inr, ◌≤◌, false, Option, none, List, [], ◌∷◌, String, ◌==◌, arith, Option-cases,
  some, find_first,
}
use astra_licensing_graph.Portals.Vocabulary.{
  PortalRunStatus, SnapshotStatus, is_approved, is_ready_for_review, is_submitted,
}
use astra_licensing_graph.Portals.Rows.{
  Manifest, PreSubmissionSnapshot, SnapshotPayload, Store, snapshot_invalidated,
}
use astra_licensing_graph.Portals.Writes.{
  add_step-IsSound, audited-IsSound, cancel_pending_for_run-IsSound, enqueue-IsSound,
  in_status-IsSound, under-IsSound, with_field-IsSound, with_handoff-IsSound,
}
use astra_licensing_graph.Portals.Governance.{
  approved_snapshot, invalidate_snapshot, put_snapshot, set_status, withdraw_approval,
}
use astra_licensing_graph.Portals.Snapshots.{approved_count, payload_of}
use astra_licensing_graph.Portals.Sound.{All-find_first, All-put, IsSound, IsSoundSnapshot}

pub approved_count-put :
    (row : PreSubmissionSnapshot) (rs : List PreSubmissionSnapshot)
    → is_approved row.status ≡ false
    → approved_count (put_snapshot row rs) ≤ approved_count rs
unfolding approved_count
approved_count-put row [] h = omega arith
approved_count-put row (r ∷ rs) h = ground (arith, approved_count-put row rs h)

-- No approved snapshot is left once one of at most one is withdrawn.
pub approved_count-none :
    (rs : List PreSubmissionSnapshot)
    → find_first (λ r. is_approved r.status) rs ≡ none
    → approved_count rs ≡ 0
unfolding approved_count
approved_count-none [] h = refl
approved_count-none (r ∷ rs) h = ground (arith, approved_count-none rs)

module _ (canonical_snapshot_hash : SnapshotPayload → String) where
  -- A snapshot that is put down to another status than the two that count.
  pub IsSoundSnapshot-lowered :
      (pins : Manifest → SnapshotPayload) (r : PreSubmissionSnapshot) (st : SnapshotStatus)
      → (by : Option String) → is_ready_for_review st ≡ false
      → is_approved st ≡ false
      → IsSoundSnapshot canonical_snapshot_hash pins r
      → IsSoundSnapshot canonical_snapshot_hash pins
          (record r { status = st; reviewed_by_actor = by })
  IsSoundSnapshot-lowered pins r st by nr na v = record {
    hashed = v.hashed;
    clean = λ h. elim h [ inl x ↦ absurd (cc (nr, x)) | inr x ↦ absurd (cc (na, x)) ];
    four_eyes = λ h. absurd (cc (na, h));
  }

  -- A store in which a sound snapshot has been lowered, and the run's status set.
  pub lowered-IsSound :
      (s : Store) (r : PreSubmissionSnapshot) (st : SnapshotStatus) (by : Option String)
      → (run_status : PortalRunStatus) → is_ready_for_review st ≡ false
      → is_approved st ≡ false
      → is_submitted run_status ≡ false
      → IsSoundSnapshot canonical_snapshot_hash (payload_of s.run) r
      → IsSound canonical_snapshot_hash s
      → IsSound canonical_snapshot_hash (record s {
        snapshots = put_snapshot (record r { status = st; reviewed_by_actor = by }) s.snapshots;
        run = set_status run_status s.run;
      })
  unfolding payload_of
  lowered-IsSound s r st by run_status nr na ns h v = record {
    mirrored = refl;
    snapshots =
        All-put (IsSoundSnapshot canonical_snapshot_hash (payload_of s.run)) (λ x. x.id == r.id)
          (record r { status = st; reviewed_by_actor = by }) s.snapshots v.snapshots
          (IsSoundSnapshot-lowered (payload_of s.run) r st by nr na h);
    one_approved = omega (
      arith,
      v.one_approved,
      approved_count-put (record r { status = st; reviewed_by_actor = by }) s.snapshots na,
    );
    attestations = v.attestations;
    payment = v.payment;
    confirmed = v.confirmed;
    submitted = λ x. absurd (cc (ns, x));
  }

  superseded-IsSound :
      (s : Store) (r : PreSubmissionSnapshot)
      → find_first (λ x. is_approved x.status) s.snapshots ≡ some r
      → IsSound canonical_snapshot_hash s
      → IsSound canonical_snapshot_hash (record s {
        snapshots = put_snapshot (record r { status = SnapshotStatus.superseded }) s.snapshots;
        run = set_status PortalRunStatus.discrepancies_found s.run;
      })
  superseded-IsSound s r e v =
      lowered-IsSound s r SnapshotStatus.superseded r.reviewed_by_actor
        PortalRunStatus.discrepancies_found (unfold is_ready_for_review in refl)
        (unfold is_approved in refl) (unfold is_submitted in refl)
        (All-find_first _ (λ x. is_approved x.status) s.snapshots v.snapshots e) v

  pub withdraw_approval-IsSound :
      (s : Store)
      → IsSound canonical_snapshot_hash s
      → IsSound canonical_snapshot_hash (withdraw_approval s)
  unfolding withdraw_approval approved_snapshot
  withdraw_approval-IsSound s v =
      elim (Option-cases (find_first (λ r. is_approved r.status) s.snapshots)) [
        | inl e ↦ rw e v
        | inr (r, e) ↦ rw e (superseded-IsSound s r e v)
      ]

  pub invalidate_snapshot-IsSound :
      (s : Store)
      → IsSound canonical_snapshot_hash s
      → IsSound canonical_snapshot_hash (invalidate_snapshot s)
  unfolding invalidate_snapshot approved_snapshot
  invalidate_snapshot-IsSound s v =
      elim (Option-cases (find_first (λ r. is_approved r.status) s.snapshots)) [
        | inl e ↦ rw e v
        | inr (r, e) ↦ rw e (
            audited-IsSound canonical_snapshot_hash (snapshot_invalidated r.id) _
              (superseded-IsSound s r e v))
      ]

-- What keeps sound rows, write by write.
pub ruleset write_rules = (
  add_step-IsSound, audited-IsSound, cancel_pending_for_run-IsSound, enqueue-IsSound,
  in_status-IsSound, invalidate_snapshot-IsSound, under-IsSound, with_field-IsSound,
  with_handoff-IsSound, withdraw_approval-IsSound,
)
