-- ===== src/Deadlines/Climb.antt =====
-- The levels of one deadline's escalations, over any sequence of sweeps and overrides of
-- app/services/deadline_service.py.
use native.Mathlib.Decide.{dec_lt}
use astra_licensing_graph.Prelude.{
  ℕ, ap, any, ◌-◌, ◌≤◌, ◌<◌, ◌≡◌, ◌⊎◌, inl, inr, Bool, true, false, ◌&&◌, Option, none, some, List,
  [], ◌∷◌, String, arith, Bool-cases, Option-cases, length,
}
use astra_licensing_graph.Deadlines.Escalation.{
  or_default, level_at, EscalationLevel, EscalationDecision, evaluate_escalation, evaluate_overdue,
  level_rank, level_order, resolve_recipient, default_escalation_ladder, Ladder,
}
use astra_licensing_graph.Deadlines.Windows.{
  level_of, IsDecision, evaluate_escalation-Entered, evaluate_escalation-Crossed,
}
use astra_licensing_graph.Deadlines.Sweeps.{
  same_key, DeadlineStatus, State, Sweep, contacts, is_open, record_notification, escalate, sweep,
  override_deadline, refresh_status, Action, swept, overridden, refreshed, act, run, reschedule,
}

-- The levels, newest first, each rank above the ones before it, and none ranks above `n`.
abbrev pub IsClimbing : ℕ → List EscalationLevel → Type 0
IsClimbing n [] = Unit
IsClimbing n (l ∷ ls) =
    (level_order l ≤ n) × (0 < level_order l) × IsClimbing (level_order l - 1) ls

IsClimbing-length : (n : ℕ) (ls : List EscalationLevel) → IsClimbing n ls → length ls ≤ n
IsClimbing-length n [] c = omega arith
IsClimbing-length n (l ∷ ls) c =
    omega (arith, c.0, c.1, IsClimbing-length (level_order l - 1) ls c.2)

IsClimbing-weaken :
    (n m : ℕ) (ls : List EscalationLevel) → n ≤ m → IsClimbing n ls → IsClimbing m ls
IsClimbing-weaken n m [] h c = tt
IsClimbing-weaken n m (l ∷ ls) h c = (omega (arith, c.0), c.1, c.2)

level_rank_bound : (l : Option EscalationLevel) → level_rank l ≤ 6
unfolding level_rank level_order
level_rank_bound l = ground arith

IsDecision-rank :
    (ladder : Ladder) (last_level : Option EscalationLevel) (overdue : Bool)
    (d : EscalationDecision) (level : EscalationLevel)
    → IsDecision ladder last_level overdue d
    → d.should_notify ≡ true
    → d.level ≡ some level
    → level_rank last_level < level_order level
unfolding level_rank
IsDecision-rank ladder last_level overdue d level v n e =
    let rank : level_rank d.level ≡ level_order level = ap level_rank e in
    ground (arith, v.notify, rank)

-- A disabled overdue escalation notifies nobody.
disabled-notify :
    (due now : ℕ) (last_level : Option EscalationLevel) (l o : Option Ladder)
    → due < now
    → (evaluate_escalation due now last_level l o false).should_notify ≡ false
unfolding evaluate_escalation evaluate_overdue
disabled-notify due now last_level l o h = ground arith

-- A decision to notify names a level that ranks above the last one.
evaluate-rank :
    (due now : ℕ) (last_level : Option EscalationLevel) (l o : Option Ladder) (enabled : Bool)
    (level : EscalationLevel)
    → (evaluate_escalation due now last_level l o enabled).should_notify ≡ true
    → (evaluate_escalation due now last_level l o enabled).level ≡ some level
    → level_rank last_level < level_order level
evaluate-rank due now last_level l o enabled level n e = elim (dec_lt due now) [
  | no on_time ↦
      let v = evaluate_escalation-Entered due now last_level l o enabled (omega arith) in
      IsDecision-rank _ last_level false _ level v.1 n e
  | yes late ↦ overdue enabled late n e
]
  where
    overdue :
        (en : Bool)
        → due < now
        → (evaluate_escalation due now last_level l o en).should_notify ≡ true
        → (evaluate_escalation due now last_level l o en).level ≡ some level
        → level_rank last_level < level_order level
    overdue true late n' e' =
        IsDecision-rank _ last_level true _ level
          (evaluate_escalation-Crossed due now last_level l o late).1 n' e'
    overdue false late n' e' =
        let silence = disabled-notify due now last_level l o late in
        absurd (ground (arith, silence, n'))

abbrev Climbing : State → Type 0
Climbing st = IsClimbing (level_rank st.deadline.last_escalation_level) st.escalated

escalate-Climbing :
    (st : State) (s : Sweep) (d : EscalationDecision) (level : EscalationLevel)
    → level_rank st.deadline.last_escalation_level < level_order level
    → Climbing st
    → Climbing (escalate st s d level)
unfolding escalate record_notification level_rank
escalate-Climbing st s d level h c =
    elim (Bool-cases (any (same_key (d.is_overdue, d.window_days, level_order level)) st.keys)) [
      | inl known ↦ rw known c
      | inr fresh ↦ rw fresh (
        omega arith,
        omega arith,
        IsClimbing-weaken _ (level_order level - 1) st.escalated (omega arith) c,
      )
    ]

-- A sweep leaves the state as it was, or escalates to the level of its decision.
sweep-cases :
    (st : State) (s : Sweep)
    → (sweep st s ≡ st)
      ⊎ ((level : EscalationLevel) × let d =
              evaluate_escalation st.deadline.due_at s.now st.deadline.last_escalation_level
                s.ladder none s.overdue_enabled in
            (d.should_notify ≡ true)
            × (d.level ≡ some level)
            × (sweep st s ≡ escalate st s d level))
unfolding sweep
sweep-cases st s =
    let d =
      evaluate_escalation st.deadline.due_at s.now st.deadline.last_escalation_level s.ladder none
        s.overdue_enabled in
    elim (Bool-cases (is_open st.deadline.status && d.should_notify)) [
      | inr quiet ↦ inl (ground (arith, quiet))
      | inl due ↦ elim (Option-cases d.level) [
        | inl nothing ↦ inl (ground (arith, due, nothing))
        | inr (level, at) ↦
            elim (Option-cases (resolve_recipient level (contacts st.deadline s.manager_actor))) [
              | inl nobody ↦ inl (ground (arith, due, at, nobody))
              | inr (r, somebody) ↦
                  inr (level, (ground (arith, due), at, ground (arith, due, at, somebody)))
            ]
      ]
    ]

act-Climbing : (st : State) (a : Action) → Climbing st → Climbing (act st a)
unfolding act override_deadline refresh_status reschedule
act-Climbing st (swept s) c = elim (sweep-cases st s) [
  | inl same ↦ rw same c
  | inr (level, (n, e, moved)) ↦
      rw moved (escalate-Climbing st s _ level (evaluate-rank _ _ _ _ _ _ level n e) c)
]
act-Climbing st (overridden none o) c = c
act-Climbing st (overridden (some (due, status)) o) c = c
act-Climbing st (refreshed fresh) c = elim (Bool-cases (is_open st.deadline.status)) [
  | inl is_open_now ↦ rw is_open_now c
  | inr shut ↦ rw shut c
]

run-Climbing : (st : State) (actions : List Action) → Climbing st → Climbing (run st actions)
unfolding run
run-Climbing st [] c = c
run-Climbing st (a ∷ rest) c = run-Climbing (act st a) rest (act-Climbing st a c)

-- A deadline that has never been escalated is escalated, by any sweeps under any ladders and any
-- changes of its date, owner and status in between, to levels that rank higher every time: at most
-- six times in all, however often the sweep runs.
pub run-IsClimbing :
    (st : State) (actions : List Action)
    → st.escalated ≡ []
    → IsClimbing 6 (run st actions).escalated × (length (run st actions).escalated ≤ 6)
run-IsClimbing st actions h =
    let start : Climbing st = rw h tt in
    let c = run-Climbing st actions start in
    let c6 = IsClimbing-weaken _ 6 _ (level_rank_bound _) c in (c6, IsClimbing-length 6 _ c6)

default_ladder_bound :
    (w : ℕ) (level : EscalationLevel)
    → level_at w default_escalation_ladder ≡ some level
    → level_order level ≤ 4
unfolding level_at default_escalation_ladder level_order
default_ladder_bound w level h = ground arith

level_of_bound : (w : Option ℕ) → level_rank (level_of w default_escalation_ladder) ≤ 4
unfolding level_rank
level_of_bound none = omega arith
level_of_bound (some w) = elim (Option-cases (level_at w default_escalation_ladder)) [
  | inl nothing ↦ rw nothing (omega arith)
  | inr (level, at) ↦ rw at (default_ladder_bound w level at)
]

upcoming-notify :
    (due now : ℕ) (last_level : Option EscalationLevel) (enabled : Bool)
    → now ≤ due
    → 4 ≤ level_rank last_level
    → (evaluate_escalation due now last_level none none enabled).should_notify ≡ false
unfolding or_default
upcoming-notify due now last_level enabled h top =
    let v = (evaluate_escalation-Entered due now last_level none none enabled h).1 in
    let d = evaluate_escalation due now last_level none none enabled in
    let rank : level_rank d.level ≡ level_rank (level_of d.window_days default_escalation_ladder) =
      ap level_rank v.level in
    ground (arith, v.notify, rank, level_of_bound d.window_days)

-- A deadline that has been escalated to MANAGER or above is never warned about again on the default
-- ladder, not even after `override_deadline` has moved it: up to its new due day, whichever it is,
-- a sweep changes nothing.
pub rescheduled-sweep :
    (st : State) (due : ℕ) (status : DeadlineStatus) (owner : Option String) (s : Sweep)
    → 4 ≤ level_rank st.deadline.last_escalation_level
    → s.now ≤ due
    → s.ladder ≡ none
    → let st' = override_deadline st (some (due, status)) owner in sweep st' s ≡ st'
unfolding override_deadline reschedule
rescheduled-sweep st due status owner s top h l =
    let quiet =
      upcoming-notify due s.now st.deadline.last_escalation_level s.overdue_enabled h top in
    elim (sweep-cases (override_deadline st (some (due, status)) owner) s) [
      | inl same ↦ same
      | inr (level, (n, e, moved)) ↦ absurd (ground (arith, quiet, rw l at n))
    ]
