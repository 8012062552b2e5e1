-- ===== src/Deadlines/EscalationTests.antt =====
-- Escalations at concrete deadlines.
use astra_licensing_graph.Prelude.{ℕ, ◌≡◌, refl, true, false, none, some, [], ◌∷◌, arith}
use astra_licensing_graph.Prelude.{List, ◌≤◌, length, ◌-◌}
use astra_licensing_graph.Deadlines.Escalation.{
  EscalationLevel, DeadlineSeverity, evaluate_escalation, or_default, default_escalation_ladder,
  default_overdue_ladder, Contacts, level_order, level_rank,
}
use astra_licensing_graph.Deadlines.Windows.{
  Entered, Crossed, IsDecision, evaluate_escalation-Entered, evaluate_escalation-Crossed,
}
use astra_licensing_graph.Deadlines.Sweeps.{
  DeadlineStatus, State, Sweep, swept, overridden, Action, run, sweep, override_deadline,
}
use astra_licensing_graph.Deadlines.Climb.{IsClimbing, run-IsClimbing, rescheduled-sweep}

-- Ten days before the due day the window is the 14-day one.
evaluate_escalation-Entered_example :
    let d = evaluate_escalation 739010 739000 none none none true in
    let l = or_default none default_escalation_ladder in
    Entered (739010 - 739000) l d.window_days × IsDecision l none false d
evaluate_escalation-Entered_example =
    evaluate_escalation-Entered 739010 739000 none none none true (omega arith)

evaluate_escalation-Crossed_example :
    let d = evaluate_escalation 739000 739009 (some EscalationLevel.manager) none none true in
    let l = or_default none default_overdue_ladder in
    Crossed (739009 - 739000) l d.window_days × IsDecision l (some EscalationLevel.manager) true d
evaluate_escalation-Crossed_example =
    evaluate_escalation-Crossed 739000 739009 (some EscalationLevel.manager) none none (omega arith)

abbrev only_manager : Contacts
only_manager = record {
  owner = none;
  backup_owner = none;
  reviewer = none;
  manager = some "mia";
  counsel = none;
  executive = none;
}

abbrev filing : State
filing = record {
  deadline = record {
    due_at = 739100;
    status = DeadlineStatus.scheduled;
    severity = DeadlineSeverity.normal;
    assigned_owner = some "ana";
    backup_owner = none;
    last_escalation_level = none;
    last_escalated_at = none;
    manually_overridden = false;
  };
  keys = [];
  escalated = [];
}

abbrev on_day : ℕ → Sweep
on_day day = record { now = day; ladder = none; overdue_enabled = true; manager_actor = some "mia" }

abbrev season : List Action
season =
    swept (on_day 739000)
    ∷ swept (on_day 739080)
    ∷ overridden (some (739090, DeadlineStatus.approaching)) none
    ∷ swept (on_day 739095)
    ∷ []

run-IsClimbing_example :
    IsClimbing 6 (run filing season).escalated × (length (run filing season).escalated ≤ 6)
run-IsClimbing_example = run-IsClimbing filing season refl

abbrev warned : State
warned = record filing {
  deadline = record filing.deadline { last_escalation_level = some EscalationLevel.manager };
}

rescheduled-sweep_example :
    let st' = override_deadline warned (some (739200, DeadlineStatus.scheduled)) none in
    sweep st' (on_day 739190) ≡ st'
unfolding level_rank level_order
rescheduled-sweep_example =
    rescheduled-sweep warned 739200 DeadlineStatus.scheduled none (on_day 739190) (omega arith)
      (omega arith) refl
