-- ===== src/Deadlines/Escalation.antt =====
-- app/deadlines/escalation.py, and the default ladder of app/deadlines/rules.py. A ladder is the list of its entries, with
-- keys that are not negative. Days are ordinals, and a reason is kept as data.
use astra_licensing_graph.Prelude.{
  ℕ, ◌-◌, Bool, true, false, not, Option, none, some, List, [], ◌∷◌, String, ℤ, pos, negsuc, ◌==◌,
  ltb, leb, if◌then◌else◌, select, text_true, or_else,
}

pub data EscalationLevel : Type 0 where
  owner backup_owner reviewer manager counsel executive : EscalationLevel
  unknown_level : String → EscalationLevel

pub data DeadlineSeverity : Type 0 where
  informational normal important critical regulatory_risk : DeadlineSeverity

abbrev pub Ladder : Type 0
Ladder = List (ℕ × EscalationLevel)

unfoldable pub default_escalation_ladder : Ladder
default_escalation_ladder =
    (120, EscalationLevel.owner)
    ∷ (90, EscalationLevel.owner)
    ∷ (60, EscalationLevel.owner)
    ∷ (30, EscalationLevel.reviewer)
    ∷ (14, EscalationLevel.reviewer)
    ∷ (7, EscalationLevel.manager)
    ∷ (3, EscalationLevel.manager)
    ∷ (0, EscalationLevel.manager)
    ∷ []

unfoldable pub default_overdue_ladder : Ladder
default_overdue_ladder =
    (0, EscalationLevel.manager)
    ∷ (3, EscalationLevel.manager)
    ∷ (7, EscalationLevel.counsel)
    ∷ (14, EscalationLevel.executive)
    ∷ []

unfoldable pub level_order : EscalationLevel → ℕ
level_order EscalationLevel.owner = 1
level_order EscalationLevel.backup_owner = 2
level_order EscalationLevel.reviewer = 3
level_order EscalationLevel.manager = 4
level_order EscalationLevel.counsel = 5
level_order EscalationLevel.executive = 6
level_order (unknown_level s) = 0

unfoldable pub level_rank : Option EscalationLevel → ℕ
level_rank none = 0
level_rank (some l) = level_order l

pub data DecisionReason : Type 0 where
  disabled no_threshold outside : DecisionReason
  overdue_by : ℕ → Option EscalationLevel → DecisionReason
  entered_window : ℕ → ℕ → Option EscalationLevel → DecisionReason
  already : Option EscalationLevel → DecisionReason

pub record EscalationDecision : Type 0 where
  pub should_notify : Bool
  pub level : Option EscalationLevel
  pub window_days : Option ℕ
  pub days_remaining : ℤ
  pub is_overdue : Bool
  pub severity : DeadlineSeverity
  pub reason : DecisionReason

-- `sorted(ladder)` by insertion.
unfoldable pub insert : ℕ → List ℕ → List ℕ
insert k [] = k ∷ []
insert k (x ∷ xs) = let rest = insert k xs in if leb k x then k ∷ x ∷ xs else x ∷ rest

unfoldable pub sorted_keys : Ladder → List ℕ
sorted_keys [] = []
sorted_keys ((k, l) ∷ rest) = insert k (sorted_keys rest)

-- `entered[0]` and `crossed[-1]`
unfoldable pub first : List ℕ → Option ℕ
first [] = none
first (x ∷ xs) = some x

unfoldable pub last : List ℕ → Option ℕ
last [] = none
last (x ∷ xs) = or_else (last xs) (some x)

-- `ladder[window]`
unfoldable pub level_at : ℕ → Ladder → Option EscalationLevel
level_at w [] = none
level_at w ((k, l) ∷ rest) = let later = level_at w rest in if k == w then some l else later

-- `ladder or DEFAULT`: an empty ladder is false.
unfoldable pub or_default : Option Ladder → Ladder → Ladder
or_default none d = d
or_default (some []) d = d
or_default (some (e ∷ es)) d = e ∷ es

unfoldable pub crossed : ℕ → Ladder → Option ℕ
crossed days_past ladder = last (select (λ t. leb t days_past) (sorted_keys ladder))

unfoldable pub entered : ℕ → Ladder → Option ℕ
entered days ladder = first (select (λ w. leb days w) (sorted_keys ladder))

-- A decision that notifies nobody and names no level.
abbrev pub silent : ℤ → Bool → DeadlineSeverity → DecisionReason → EscalationDecision
silent days overdue severity reason = record {
  should_notify = false;
  level = none;
  window_days = none;
  days_remaining = days;
  is_overdue = overdue;
  severity = severity;
  reason = reason;
}

-- `days_past` is not zero.
unfoldable pub evaluate_overdue : ℕ → Option EscalationLevel → Ladder → Bool → EscalationDecision
evaluate_overdue days_past last_level ladder enabled =
    let delta = negsuc (days_past - 1) in
    if not enabled
    then silent delta true regulatory_risk disabled
    else elim (crossed days_past ladder) [
      | none ↦ silent delta true regulatory_risk no_threshold
      | some threshold ↦
          let level = level_at threshold ladder in
          let should = ltb (level_rank last_level) (level_rank level) in
          record {
            should_notify = should;
            level = level;
            window_days = some threshold;
            days_remaining = delta;
            is_overdue = true;
            severity = regulatory_risk;
            reason = if should then overdue_by days_past level else already last_level;
          }
    ]

unfoldable pub evaluate_upcoming : ℕ → Option EscalationLevel → Ladder → EscalationDecision
evaluate_upcoming days last_level ladder = elim (entered days ladder) [
  | none ↦ silent (pos days) false informational outside
  | some window ↦
      let level = level_at window ladder in
      let should = ltb (level_rank last_level) (level_rank level) in
      record {
        should_notify = should;
        level = level;
        window_days = some window;
        days_remaining = pos days;
        is_overdue = false;
        severity = if leb days 3 then critical else if leb days 14 then important else normal;
        reason = if should then entered_window days window level else already last_level;
      }
]

unfoldable pub evaluate_escalation :
    (due now : ℕ)
    → Option EscalationLevel
    → Option Ladder
    → Option Ladder
    → Bool
    → EscalationDecision
evaluate_escalation due now last_level ladder overdue_ladder overdue_enabled =
    if ltb due now
    then evaluate_overdue (now - due) last_level (or_default overdue_ladder default_overdue_ladder)
        overdue_enabled
    else evaluate_upcoming (due - now) last_level (or_default ladder default_escalation_ladder)

pub record Contacts : Type 0 where
  pub owner : Option String
  pub backup_owner : Option String
  pub reviewer : Option String
  pub manager : Option String
  pub counsel : Option String
  pub executive : Option String

unfoldable pub chain : EscalationLevel → Contacts → List (Option String)
chain EscalationLevel.owner c = c.owner ∷ c.backup_owner ∷ c.manager ∷ []
chain EscalationLevel.backup_owner c = c.backup_owner ∷ c.owner ∷ c.manager ∷ []
chain EscalationLevel.reviewer c = c.reviewer ∷ c.manager ∷ c.owner ∷ []
chain EscalationLevel.manager c = c.manager ∷ c.reviewer ∷ c.owner ∷ []
chain EscalationLevel.counsel c = c.counsel ∷ c.manager ∷ []
chain EscalationLevel.executive c = c.executive ∷ c.manager ∷ c.counsel ∷ []
chain (unknown_level s) c = c.owner ∷ []

-- The first candidate that is a text and not empty.
unfoldable pub first_true : List (Option String) → Option String
first_true [] = none
first_true (none ∷ rest) = first_true rest
first_true (some s ∷ rest) = let later = first_true rest in if text_true s then some s else later

unfoldable pub resolve_recipient : EscalationLevel → Contacts → Option String
resolve_recipient level c = first_true (chain level c)
