-- ===== src/Portals/Writes.antt =====
-- The shared writes of the portal services keep sound rows: one rule for each write.
use astra_licensing_graph.Prelude.{◌≡◌, refl, ℕ, false, Option, List, String}
use astra_licensing_graph.Portals.Vocabulary.{
  BrowserSessionStatus, PortalRunStatus, PortalStepType, is_submitted,
}
use astra_licensing_graph.Portals.Rows.{
  AuditRow, BrowserSession, HumanHandoff, JobKey, PortalMessage, PortalRunField, SnapshotPayload,
  Store,
}
use astra_licensing_graph.Portals.Governance.{
  add_step, audited, cancel_pending_for_run, enqueue, in_status,
}
use astra_licensing_graph.Portals.Sessions.{under}
use astra_licensing_graph.Portals.Handoffs.{with_handoff}
use astra_licensing_graph.Portals.Entry.{with_field}
use astra_licensing_graph.Portals.Snapshots.{payload_of}
use astra_licensing_graph.Portals.Sound.{IsSound, IsSound-moves, IsSound-stays}

module _ (canonical_snapshot_hash : SnapshotPayload → String) where
  abbrev Sound : Store → Type 0
  Sound = IsSound canonical_snapshot_hash

  pub audited-IsSound : (a : AuditRow) (s : Store) → Sound s → Sound (audited a s)
  unfolding audited payload_of
  audited-IsSound a s v =
      IsSound-stays canonical_snapshot_hash s (audited a s) v
        (record {
          pins = refl;
          snapshots = refl;
          attestations = refl;
          payment = refl;
          evidence = refl;
        })
        refl refl

  pub in_status-IsSound :
      (st : PortalRunStatus) (s : Store)
      → is_submitted st ≡ false
      → Sound s
      → Sound (in_status st s)
  unfolding in_status payload_of
  in_status-IsSound st s other v =
      IsSound-moves canonical_snapshot_hash s (in_status st s) v
        (record {
          pins = refl;
          snapshots = refl;
          attestations = refl;
          payment = refl;
          evidence = refl;
        })
        refl other

  pub enqueue-IsSound :
      (key : JobKey) (session attempts : ℕ) (s : Store)
      → Sound s
      → Sound (enqueue key session attempts s)
  unfolding enqueue payload_of
  enqueue-IsSound key session attempts s v =
      IsSound-stays canonical_snapshot_hash s (enqueue key session attempts s) v
        (record {
          pins = refl;
          snapshots = refl;
          attestations = refl;
          payment = refl;
          evidence = refl;
        })
        refl refl

  pub cancel_pending_for_run-IsSound : (s : Store) → Sound s → Sound (cancel_pending_for_run s)
  unfolding cancel_pending_for_run payload_of
  cancel_pending_for_run-IsSound s v =
      IsSound-stays canonical_snapshot_hash s (cancel_pending_for_run s) v
        (record {
          pins = refl;
          snapshots = refl;
          attestations = refl;
          payment = refl;
          evidence = refl;
        })
        refl refl

  pub add_step-IsSound :
      (t : PortalStepType) (page : Option String) (messages : List PortalMessage) (s : Store)
      → Sound s
      → Sound (add_step t page messages s)
  unfolding add_step payload_of
  add_step-IsSound t page messages s v =
      IsSound-stays canonical_snapshot_hash s (add_step t page messages s) v
        (record {
          pins = refl;
          snapshots = refl;
          attestations = refl;
          payment = refl;
          evidence = refl;
        })
        refl refl

  pub under-IsSound :
      (st : BrowserSessionStatus) (b : BrowserSession) (s : Store) → Sound s → Sound (under st b s)
  unfolding under payload_of
  under-IsSound st b s v =
      IsSound-stays canonical_snapshot_hash s (under st b s) v
        (record {
          pins = refl;
          snapshots = refl;
          attestations = refl;
          payment = refl;
          evidence = refl;
        })
        refl refl

  pub with_handoff-IsSound : (h : HumanHandoff) (s : Store) → Sound s → Sound (with_handoff h s)
  unfolding with_handoff payload_of
  with_handoff-IsSound h s v =
      IsSound-stays canonical_snapshot_hash s (with_handoff h s) v
        (record {
          pins = refl;
          snapshots = refl;
          attestations = refl;
          payment = refl;
          evidence = refl;
        })
        refl refl

  pub with_field-IsSound : (f : PortalRunField) (s : Store) → Sound s → Sound (with_field f s)
  unfolding with_field payload_of
  with_field-IsSound f s v =
      IsSound-stays canonical_snapshot_hash s (with_field f s) v
        (record {
          pins = refl;
          snapshots = refl;
          attestations = refl;
          payment = refl;
          evidence = refl;
        })
        refl refl
