-- ===== src/Portals/SessionsKept.antt =====
-- The calls of app/services/portal_session_service.py leave sound rows.
use astra_licensing_graph.Prelude.{
  ◌≡◌, refl, inl, inr, ℕ, Bool, true, false, Option, none, some, String, if◌then◌else◌, arith, ◌∷◌,
  Option-cases, Bool-cases, leb, ◌==◌,
}
use astra_licensing_graph.Portals.Vocabulary.{
  BrowserSessionStatus, HandoffType, PortalRunStatus, is_submitted,
}
use astra_licensing_graph.Portals.Rows.{
  BrowserSession, Caller, HumanHandoff, Settings, SnapshotPayload, Store,
}
use astra_licensing_graph.Portals.Results.{Result, ◌>>=◌, ◌>>◌}
use astra_licensing_graph.Portals.Sessions.{
  session_by_id, live_count, commit_sessions, add_session, close, ensure_session, request_session,
  return_control, take_control,
}
use astra_licensing_graph.Portals.Governance.{in_status}
use astra_licensing_graph.Portals.Handoffs.{
  is_lapsed, accept_handoff, add_handoff, check_decliner, control_session, create_handoff,
  decline_handoff, ensure_handoff, handoff_session, owned_session, refuse_expired,
  request_handoff_completion, run_status_for_handoff,
}
use astra_licensing_graph.Portals.Snapshots.{payload_of}
use astra_licensing_graph.Portals.Outcomes.{
  IsPlain, Leaves, Leaves-check, call_rules, failed, returned, saved,
}
use astra_licensing_graph.Portals.Sound.{IsSound, IsSound-stays}
use astra_licensing_graph.Portals.Writes.{under-IsSound, with_handoff-IsSound}
use astra_licensing_graph.Portals.Withdrawn.{write_rules}

handoff_status-is_submitted : (t : HandoffType) → is_submitted (run_status_for_handoff t) ≡ false
unfolding run_status_for_handoff is_submitted
handoff_status-is_submitted HandoffType.login = refl
handoff_status-is_submitted _ = refl

check_decliner-IsPlain :
    (s : Store) (c : Caller) (user : Option ℕ) → IsPlain (check_decliner s c user)
unfolding check_decliner
check_decliner-IsPlain s c none e s' h = ground arith
check_decliner-IsPlain s c (some u) e s' h = ground arith

module _ (canonical_snapshot_hash : SnapshotPayload → String) where
  abbrev Sound : Store → Type 0
  Sound = IsSound canonical_snapshot_hash

  abbrev Kept : Result Store → Type 0
  Kept = Leaves Sound

  commit_sessions-Kept : (s : Store) → Sound s → Kept (commit_sessions s)
  unfolding commit_sessions
  commit_sessions-Kept s v = elim (Bool-cases (leb (live_count s.sessions) 1)) [
    | inl fits ↦ rw fits (returned v)
    | inr taken ↦ rw taken failed
  ]

  opened-IsSound :
      (s : Store) (b : BrowserSession) → Sound s → Sound (record s { sessions = b ∷ s.sessions })
  unfolding payload_of
  opened-IsSound s b v =
      IsSound-stays canonical_snapshot_hash s _ v
        (record {
          pins = refl;
          snapshots = refl;
          attestations = refl;
          payment = refl;
          evidence = refl;
        })
        refl refl

  add_session-Kept : (s : Store) (b : BrowserSession) → Sound s → Kept (add_session s b)
  unfolding add_session
  add_session-Kept s b v = search (write_rules, commit_sessions-Kept, opened-IsSound)

  ensure_session-Kept :
      (settings : Settings) (s : Store) (c : Caller) (operator : ℕ) (b : Option BrowserSession)
      → Sound s
      → Kept (ensure_session settings s c operator b)
  unfolding ensure_session
  ensure_session-Kept settings s c operator none v = add_session-Kept s _ v
  ensure_session-Kept settings s c operator (some b) v = returned v

  owned_session-IsSound :
      (s : Store) (target : ℕ) (b : BrowserSession) → Sound s → Sound (owned_session s target b).1
  unfolding owned_session
  owned_session-IsSound s target b v = elim (Bool-cases (b.operator_user_id == target)) [
    | inl same ↦ rw same v
    | inr other ↦ rw other (search write_rules)
  ]

  handed-IsSound :
      (s : Store) (h : HumanHandoff) → Sound s → Sound (record s { handoffs = h ∷ s.handoffs })
  unfolding payload_of
  handed-IsSound s h v =
      IsSound-stays canonical_snapshot_hash s _ v
        (record {
          pins = refl;
          snapshots = refl;
          attestations = refl;
          payment = refl;
          evidence = refl;
        })
        refl refl

  add_handoff-IsSound :
      (t : HandoffType) (expires_at : Option ℕ) (target : ℕ) (c : Caller) (session : Option ℕ)
      → (s : Store) → Sound s
      → Sound (add_handoff t expires_at target c session s)
  unfolding add_handoff
  add_handoff-IsSound t expires_at target c session s v =
      search (write_rules, handed-IsSound, handoff_status-is_submitted)

  ensure_handoff-IsSound :
      (s : Store) (t : HandoffType) (expires_at : Option ℕ) (target : ℕ) (c : Caller)
      → (owned : Option ℕ × Store) (h : Option HumanHandoff) → Sound s
      → Sound owned.1
      → Sound (ensure_handoff s t expires_at target c owned h)
  unfolding ensure_handoff
  ensure_handoff-IsSound s t expires_at target c (session, s') none v v' =
      add_handoff-IsSound t expires_at target c session s' v'
  ensure_handoff-IsSound s t expires_at target c (session, s') (some h) v v' = v

  Leaves-handoff_session :
      (s : Store) (target : ℕ) (session : Option ℕ) (f : Option ℕ × Store → Result Store)
      → Sound s
      → ((a : Option ℕ × Store) → Sound a.1 → Kept (f a))
      → Kept (handoff_session s target session >>= f)
  unfolding handoff_session
  Leaves-handoff_session s target none f v h = h (none, s) v
  Leaves-handoff_session s target (some i) f v h = elim (Option-cases (session_by_id i s)) [
    | inl e ↦ rw e failed
    | inr (b, e) ↦ rw e (h (owned_session s target b) (owned_session-IsSound s target b v))
  ]

  Leaves-control_session :
      (s : Store) (user : ℕ) (session : Option ℕ) (f : Store → Result Store)
      → Sound s
      → ((s' : Store) → Sound s' → Kept (f s'))
      → Kept (control_session s user session >>= f)
  unfolding control_session
  Leaves-control_session s user none f v h = h s v
  Leaves-control_session s user (some i) f v h = elim (Option-cases (session_by_id i s)) [
    | inl e ↦ rw e failed
    | inr (b, e) ↦ elim (Bool-cases (b.operator_user_id == user)) [
      | inl own ↦
          rw (e, own)
            (h _ (
              under-IsSound canonical_snapshot_hash BrowserSessionStatus.active_human_control b s
                v))
      | inr other ↦ rw (e, other) failed
    ]
  ]

  Leaves-refuse_expired :
      (s : Store) (now : ℕ) (h : HumanHandoff) (k : Result Store)
      → Sound s
      → Kept k
      → Kept (refuse_expired s now h >> k)
  unfolding refuse_expired
  Leaves-refuse_expired s now h k v p = elim (Bool-cases (is_lapsed now h.expires_at)) [
    | inl late ↦ rw late (saved (with_handoff-IsSound canonical_snapshot_hash _ s v))
    | inr timely ↦ rw timely p
  ]

  Leaves-decliner :
      (s : Store) (c : Caller) (user : Option ℕ) (k : Result Store)
      → Kept k
      → Kept (check_decliner s c user >> k)
  Leaves-decliner s c user k h =
      Leaves-check (check_decliner s c user) k (check_decliner-IsPlain s c user) h

  closed-IsSound :
      (done : Bool) (s : Store)
      → Sound s
      → Sound (if done then s else in_status PortalRunStatus.waiting_operator s)
  unfolding is_submitted
  closed-IsSound true s v = v
  closed-IsSound false s v = search write_rules

  module _ (s : Store) (c : Caller) (v : Sound s) where
    pub request_session-Kept : (settings : Settings) → Kept (request_session settings s c)
    unfolding request_session
    request_session-Kept settings = search (call_rules, ensure_session-Kept) depth 14

    pub take_control-Kept : (i : ℕ) → Kept (take_control s c i)
    unfolding take_control
    take_control-Kept i = search (write_rules, call_rules) depth 12

    pub return_control-Kept : (i : ℕ) → Kept (return_control s c i)
    unfolding return_control
    return_control-Kept i = search (write_rules, call_rules) depth 12

    pub close-Kept : (i : ℕ) → Kept (close s c i)
    unfolding close
    close-Kept i = search (write_rules, call_rules, commit_sessions-Kept, closed-IsSound) depth 12

    pub create_handoff-Kept :
        (t : HandoffType) (requested_from expires_at session_id : Option ℕ)
        → Kept (create_handoff s c t requested_from expires_at session_id)
    unfolding create_handoff
    create_handoff-Kept t requested_from expires_at session_id =
        search (call_rules, Leaves-handoff_session, commit_sessions-Kept, ensure_handoff-IsSound)
          depth 14

    pub accept_handoff-Kept : (i : ℕ) → Kept (accept_handoff s c i)
    unfolding accept_handoff
    accept_handoff-Kept i =
        search
          (
            write_rules, call_rules, commit_sessions-Kept, Leaves-control_session,
            Leaves-refuse_expired,
          )
          depth 14

    pub request_handoff_completion-Kept :
        (i : ℕ) (result : String) → Kept (request_handoff_completion s c i result)
    unfolding request_handoff_completion
    request_handoff_completion-Kept i result = search (write_rules, call_rules) depth 14

    pub decline_handoff-Kept : (i : ℕ) (reason : String) → Kept (decline_handoff s c i reason)
    unfolding decline_handoff is_submitted
    decline_handoff-Kept i reason = search (write_rules, call_rules, Leaves-decliner) depth 14
