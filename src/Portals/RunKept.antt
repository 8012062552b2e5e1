-- ===== src/Portals/RunKept.antt =====
-- The calls of app/services/portal_run_service.py on the run leave sound rows.
use astra_licensing_graph.Prelude.{
  ◌≡◌, refl, ℕ, Bool, true, false, Option, none, some, List, String, if◌then◌else◌, arith,
}
use astra_licensing_graph.Portals.Vocabulary.{PortalRunStatus, is_submitted}
use astra_licensing_graph.Portals.Rows.{
  BrowserSession, Caller, RawMessage, Settings, SnapshotPayload, Store,
}
use astra_licensing_graph.Portals.Results.{Result, ◌>>◌}
use astra_licensing_graph.Portals.RunService.{
  RunUpdate, assign, cancel, capture_validation, check_operator, check_resumer, close_sessions,
  mark_completed, mark_started, resume_with, start_assisted, start_governed, start_owned, pause,
  queue_navigation, queue_validation, resume, start, update_run,
}
use astra_licensing_graph.Portals.Snapshots.{payload_of}
use astra_licensing_graph.Portals.Outcomes.{
  IsPlain, Leaves, Leaves-check, Leaves-require, assert_user_authorized-IsPlain, call_rules,
}
use astra_licensing_graph.Portals.Sound.{IsSound, IsSound-stays}
use astra_licensing_graph.Portals.Withdrawn.{write_rules}

pub captured-is_submitted :
    (b : Bool)
    → is_submitted (
        if b
        then PortalRunStatus.discrepancies_found
        else PortalRunStatus.ready_for_pre_submission_review)
      ≡ false
unfolding is_submitted
captured-is_submitted true = refl
captured-is_submitted false = refl

check_operator-IsPlain :
    (s : Store) (now : ℕ) (user : Option ℕ) → IsPlain (check_operator s now user)
unfolding check_operator
check_operator-IsPlain s now none e s' h = ground arith
check_operator-IsPlain s now (some u) e s' h =
    ground (arith, assert_user_authorized-IsPlain s u now e s')

module _ {P : Store → Type 0} where
  Leaves-resumer :
      (s : Store) (c : Caller) (user : Option ℕ) (k : Result Store)
      → Leaves P k
      → Leaves P (check_resumer s c user >> k)
  unfolding check_resumer
  Leaves-resumer s c none k h = h
  Leaves-resumer s c (some user) k h = Leaves-require _ _ _ (λ _. h)

  Leaves-operator :
      (s : Store) (now : ℕ) (user : Option ℕ) (k : Result Store)
      → Leaves P k
      → Leaves P (check_operator s now user >> k)
  Leaves-operator s now user k h =
      Leaves-check (check_operator s now user) k (check_operator-IsPlain s now user) h

module _ (canonical_snapshot_hash : SnapshotPayload → String) where
  abbrev Sound : Store → Type 0
  Sound = IsSound canonical_snapshot_hash

  abbrev Kept : Result Store → Type 0
  Kept = Leaves Sound

  pub pause-Kept : (s : Store) → Sound s → Kept (pause s)
  unfolding pause is_submitted
  pause-Kept s v = search (write_rules, call_rules) depth 12

  resume_with-IsSound :
      (s : Store) (c : Caller) (b : Option BrowserSession) → Sound s → Sound (resume_with s c b)
  unfolding resume_with is_submitted
  resume_with-IsSound s c none v = search write_rules
  resume_with-IsSound s c (some b) v = search write_rules

  mark_completed-IsSound : (now : ℕ) (s : Store) → Sound s → Sound (mark_completed now s)
  unfolding mark_completed payload_of
  mark_completed-IsSound now s v =
      IsSound-stays canonical_snapshot_hash s _ v
        (record {
          pins = refl;
          snapshots = refl;
          attestations = refl;
          payment = refl;
          evidence = refl;
        })
        refl refl

  close_sessions-IsSound : (s : Store) → Sound s → Sound (close_sessions s)
  unfolding close_sessions payload_of
  close_sessions-IsSound s v =
      IsSound-stays canonical_snapshot_hash s _ v
        (record {
          pins = refl;
          snapshots = refl;
          attestations = refl;
          payment = refl;
          evidence = refl;
        })
        refl refl

  started-IsSound :
      (now : ℕ) (s : Store) → Sound s → Sound (record s { run = mark_started now s.run })
  unfolding mark_started payload_of
  started-IsSound now s v =
      IsSound-stays canonical_snapshot_hash s _ v
        (record {
          pins = refl;
          snapshots = refl;
          attestations = refl;
          payment = refl;
          evidence = refl;
        })
        refl refl

  assigned-IsSound :
      (u : RunUpdate) (s : Store) → Sound s → Sound (record s { run = assign u s.run })
  unfolding assign payload_of
  assigned-IsSound u s v =
      IsSound-stays canonical_snapshot_hash s _ v
        (record {
          pins = refl;
          snapshots = refl;
          attestations = refl;
          payment = refl;
          evidence = refl;
        })
        refl refl

  start_owned-Kept :
      (s : Store) (c : Caller) (operator : Option ℕ) → Sound s → Kept (start_owned s c operator)
  unfolding start_owned is_submitted
  start_owned-Kept s c none v = search (write_rules, call_rules)
  start_owned-Kept s c (some operator) v =
      search (write_rules, call_rules, started-IsSound) depth 12

  start_governed-Kept :
      (settings : Settings) (s : Store) (c : Caller) (prepare : Bool)
      → Sound s
      → Kept (start_governed settings s c prepare)
  unfolding start_governed start_assisted is_submitted
  start_governed-Kept settings s c true v = search (write_rules, call_rules)
  start_governed-Kept settings s c false v = search (call_rules, start_owned-Kept)

  module _ (s : Store) (c : Caller) (v : Sound s) where
    pub cancel-Kept : Kept (cancel s c)
    unfolding cancel is_submitted
    cancel-Kept =
        search (write_rules, call_rules, mark_completed-IsSound, close_sessions-IsSound) depth 12

    pub start-Kept : (settings : Settings) → Kept (start settings s c)
    unfolding start
    start-Kept settings = search (call_rules, start_governed-Kept) depth 8

    pub queue_navigation-Kept :
        (upper : String → String) (route : String) (request : ℕ)
        → Kept (queue_navigation upper s c route request)
    unfolding queue_navigation
    queue_navigation-Kept upper route request = search (write_rules, call_rules) depth 14

    pub queue_validation-Kept : (upper : String → String) → Kept (queue_validation upper s c)
    unfolding queue_validation
    queue_validation-Kept upper = search (write_rules, call_rules) depth 14

    pub resume-Kept : Kept (resume s c)
    unfolding resume
    resume-Kept = search (call_rules, Leaves-resumer, resume_with-IsSound) depth 12

    pub update_run-Kept : (u : RunUpdate) → Kept (update_run s c u)
    unfolding update_run
    update_run-Kept u = search (write_rules, call_rules, Leaves-operator, assigned-IsSound) depth 12

  pub capture_validation-Kept :
      (redact_emails redact_numbers : String → String) (s : Store) (messages : List RawMessage)
      → (page : String) → Sound s
      → Kept (capture_validation redact_emails redact_numbers s messages page)
  unfolding capture_validation
  capture_validation-Kept redact_emails redact_numbers s messages page v =
      search (write_rules, call_rules, captured-is_submitted)
