-- ===== src/Portals/EntryKept.antt =====
-- The calls of app/services/portal_entry_service.py leave sound rows.
use astra_licensing_graph.Prelude.{refl, ℕ, List, [], ◌∷◌, String, arith}
use astra_licensing_graph.Portals.Vocabulary.{is_submitted}
use astra_licensing_graph.Portals.Rows.{
  Caller, DocumentVersion, PortalRunDocument, Settings, SnapshotPayload, Store,
}
use astra_licensing_graph.Portals.Results.{Result, ◌>>=◌}
use astra_licensing_graph.Portals.Entry.{
  queue_document_upload, queue_field_entry, record_document_observation,
  record_human_field_observation, record_worker_field_result, total_size, validate_document,
}
use astra_licensing_graph.Portals.Snapshots.{payload_of}
use astra_licensing_graph.Portals.Outcomes.{IsPlain, Leaves, Leaves-bind, call_rules}
use astra_licensing_graph.Portals.Sound.{IsSound, IsSound-stays}
use astra_licensing_graph.Portals.Withdrawn.{write_rules}

validate_document-IsPlain :
    (s : Store) (today : ℕ) (d : PortalRunDocument) → IsPlain (validate_document s today d)
unfolding validate_document
validate_document-IsPlain s today d e s' h = ground arith

total_size-IsPlain :
    (settings : Settings) (s : Store) (today : ℕ) (ds : List PortalRunDocument)
    → IsPlain (total_size settings s today ds)
unfolding total_size
total_size-IsPlain settings s today [] e s' h = ground arith
total_size-IsPlain settings s today (d ∷ ds) e s' h =
    ground
      (arith, validate_document-IsPlain s today d e s', total_size-IsPlain settings s today ds e s')

module _ {P : Store → Type 0} where
  Leaves-valid :
      (s : Store) (today : ℕ) (d : PortalRunDocument) (f : DocumentVersion → Result Store)
      → ((v : DocumentVersion) → Leaves P (f v))
      → Leaves P (validate_document s today d >>= f)
  Leaves-valid s today d f h =
      Leaves-bind (validate_document s today d) f (validate_document-IsPlain s today d) (λ a _. h a)

  Leaves-total :
      (settings : Settings) (s : Store) (today : ℕ) (ds : List PortalRunDocument)
      → (f : ℕ → Result Store) → ((n : ℕ) → Leaves P (f n))
      → Leaves P (total_size settings s today ds >>= f)
  Leaves-total settings s today ds f h =
      Leaves-bind (total_size settings s today ds) f (total_size-IsPlain settings s today ds)
        (λ a _. h a)

module _ (canonical_snapshot_hash : SnapshotPayload → String) where
  abbrev Sound : Store → Type 0
  Sound = IsSound canonical_snapshot_hash

  abbrev Kept : Result Store → Type 0
  Kept = Leaves Sound

  with_documents-IsSound :
      (s : Store) (ds : List PortalRunDocument) → Sound s → Sound (record s { documents = ds })
  unfolding payload_of
  with_documents-IsSound s ds v =
      IsSound-stays canonical_snapshot_hash s _ v
        (record {
          pins = refl;
          snapshots = refl;
          attestations = refl;
          payment = refl;
          evidence = refl;
        })
        refl refl

  module _ (s : Store) (v : Sound s) where
    pub record_worker_field_result-Kept :
        (fingerprint : String → String) (i : ℕ) (entered displayed : String)
        → Kept (record_worker_field_result fingerprint s i entered displayed)
    unfolding record_worker_field_result
    record_worker_field_result-Kept fingerprint i entered displayed =
        search (write_rules, call_rules) depth 12

    pub record_human_field_observation-Kept :
        (fingerprint : String → String) (i : ℕ) (displayed expected : String)
        → Kept (record_human_field_observation fingerprint s i displayed expected)
    unfolding record_human_field_observation
    record_human_field_observation-Kept fingerprint i displayed expected =
        search (write_rules, call_rules) depth 12

    pub queue_field_entry-Kept :
        (upper : String → String) (c : Caller) → Kept (queue_field_entry upper s c)
    unfolding queue_field_entry is_submitted
    queue_field_entry-Kept upper c = search (write_rules, call_rules) depth 14

    pub queue_document_upload-Kept :
        (upper : String → String) (settings : Settings) (c : Caller) (today : ℕ)
        → Kept (queue_document_upload upper settings s c today)
    unfolding queue_document_upload is_submitted
    queue_document_upload-Kept upper settings c today =
        search (write_rules, call_rules, Leaves-total, with_documents-IsSound) depth 18

    pub record_document_observation-Kept :
        (today i : ℕ) (name : String) (size : ℕ)
        → Kept (record_document_observation s today i name size)
    unfolding record_document_observation
    record_document_observation-Kept today i name size =
        search (write_rules, call_rules, Leaves-valid, with_documents-IsSound) depth 14
