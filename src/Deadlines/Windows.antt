-- ===== src/Deadlines/Windows.antt =====
-- The window, the level and the recipient that app/deadlines/escalation.py picks.
use mathlib.Core.Path.{subst}
use astra_licensing_graph.Prelude.{
  ℕ, ◌-◌, ◌≤◌, ◌<◌, ◌≡◌, refl, ap, inl, inr, Bool, true, false, Option, none, some, List, [], ◌∷◌,
  String, arith, All, Among, Bool-cases, Option-cases, ltb, leb, select, text_true, optional_true,
}
use astra_licensing_graph.Deadlines.Escalation.{
  EscalationLevel, EscalationDecision, Ladder, sorted_keys, first, last, level_at, or_default,
  crossed, entered, evaluate_overdue, evaluate_upcoming, evaluate_escalation, level_rank, Contacts,
  chain, first_true, resolve_recipient, default_escalation_ladder, default_overdue_ladder,
  level_order,
}
use astra_licensing_graph.Deadlines.Keys.{
  sorted_keys-IsSorted, All-sorted_keys, sorted_keys-level_at, none-All, none_of_last, first-least,
  last-greatest,
}

-- The tightest window of a ladder that contains the days that remain.
pub data Entered (days : ℕ) (ladder : Ladder) : Option ℕ → Type 0 where
  outside_all : All (λ e. e.0 < days) ladder → Entered days ladder none
  tightest :
      (w : ℕ) (level : EscalationLevel)
      → level_at w ladder ≡ some level
      → days ≤ w
      → All (λ e. days ≤ e.0 → w ≤ e.0) ladder
      → Entered days ladder (some w)

-- The last threshold of a ladder that the days past have reached.
pub data Crossed (days : ℕ) (ladder : Ladder) : Option ℕ → Type 0 where
  before_all : All (λ e. days < e.0) ladder → Crossed days ladder none
  latest :
      (w : ℕ) (level : EscalationLevel)
      → level_at w ladder ≡ some level
      → w ≤ days
      → All (λ e. e.0 ≤ days → e.0 ≤ w) ladder
      → Crossed days ladder (some w)

map-All :
    (P Q : ℕ → Type 0) (f : (n : ℕ) → P n → Q n) (l : Ladder)
    → All (λ e. P e.0) l
    → All (λ e. Q e.0) l
map-All P Q f [] ps = tt
map-All P Q f ((k, v) ∷ l) ps = (f k ps.0, map-All P Q f l ps.1)

entered-Entered : (days : ℕ) (l : Ladder) → Entered days l (entered days l)
unfolding entered
entered-Entered days l = elim (Option-cases (first (select (λ w. leb days w) (sorted_keys l)))) [
  | inl nothing ↦ rw nothing (
      outside_all (
        map-All (λ k. leb days k ≡ false) (λ k. k < days) (λ n e. ground arith) l
          (All-sorted_keys (λ k. leb days k ≡ false) l
            (none-All (λ w. leb days w) (sorted_keys l) nothing))))
  | inr (w, found) ↦
      let (q, m, le) =
        first-least (λ x. leb days x) (sorted_keys l) w (sorted_keys-IsSorted l) found in
      let (level, at) = sorted_keys-level_at w l m in
      rw found (
        tightest w level at (ground arith) (
          map-All (λ k. leb days k ≡ true → w ≤ k) (λ k. days ≤ k → w ≤ k)
            (λ n f h. f (ground arith)) l (All-sorted_keys (λ k. leb days k ≡ true → w ≤ k) l le)))
]

crossed-Crossed : (days : ℕ) (l : Ladder) → Crossed days l (crossed days l)
unfolding crossed
crossed-Crossed days l = elim (Option-cases (last (select (λ t. leb t days) (sorted_keys l)))) [
  | inl nothing ↦ rw nothing (
      before_all (
        map-All (λ k. leb k days ≡ false) (λ k. days < k) (λ n e. ground arith) l
          (All-sorted_keys (λ k. leb k days ≡ false) l
            (none_of_last (λ t. leb t days) (sorted_keys l) nothing))))
  | inr (w, found) ↦
      let (q, m, le) =
        last-greatest (λ x. leb x days) (sorted_keys l) w (sorted_keys-IsSorted l) found in
      let (level, at) = sorted_keys-level_at w l m in
      rw found (
        latest w level at (ground arith) (
          map-All (λ k. leb k days ≡ true → k ≤ w) (λ k. k ≤ days → k ≤ w)
            (λ n f h. f (ground arith)) l (All-sorted_keys (λ k. leb k days ≡ true → k ≤ w) l le)))
]

-- `ladder[window]`, where there is a window.
abbrev pub level_of : Option ℕ → Ladder → Option EscalationLevel
level_of none l = none
level_of (some w) l = level_at w l

pub record IsDecision (ladder : Ladder) (last_level : Option EscalationLevel) (overdue : Bool)
    (d : EscalationDecision) : Type 0 where
  pub level : d.level ≡ level_of d.window_days ladder
  pub notify : d.should_notify ≡ ltb (level_rank last_level) (level_rank d.level)
  pub side : d.is_overdue ≡ overdue

upcoming-IsDecision :
    (days : ℕ) (last_level : Option EscalationLevel) (l : Ladder)
    → let d = evaluate_upcoming days last_level l in
      Entered days l d.window_days × IsDecision l last_level false d
unfolding evaluate_upcoming level_rank
upcoming-IsDecision days last_level l =
    let v = entered-Entered days l in
    elim (Option-cases (entered days l)) [
      | inl nothing ↦
          rw (nothing, evaluate_upcoming)
            (rw nothing at v, record { level = refl; notify = ground arith; side = refl })
      | inr (w, found) ↦
          rw (found, evaluate_upcoming)
            (rw found at v, record { level = refl; notify = refl; side = refl })
    ]

-- Up to its due day a deadline is judged by the tightest window of the ladder that contains the days
-- that remain, by the default ladder if none or an empty one is given; it is notified exactly if
-- the level of that window ranks above the last level notified.
pub evaluate_escalation-Entered :
    (due now : ℕ) (last_level : Option EscalationLevel) (ladder overdue_ladder : Option Ladder)
    (enabled : Bool)
    → now ≤ due
    → let d = evaluate_escalation due now last_level ladder overdue_ladder enabled in
      let l = or_default ladder default_escalation_ladder in
      Entered (due - now) l d.window_days × IsDecision l last_level false d
unfolding evaluate_escalation
evaluate_escalation-Entered due now last_level ladder overdue_ladder enabled h =
    let on_time : ltb due now ≡ false = ground arith in
    rw on_time
      (upcoming-IsDecision (due - now) last_level (or_default ladder default_escalation_ladder))

-- Past its due day, with overdue escalation enabled, a deadline is judged by the last threshold of
-- the overdue ladder that the days past have reached, by the default ladder if none or an empty one
-- is given; it is notified exactly if the level of that threshold ranks above the last level
-- notified.
pub evaluate_escalation-Crossed :
    (due now : ℕ) (last_level : Option EscalationLevel) (ladder overdue_ladder : Option Ladder)
    → due < now
    → let d = evaluate_escalation due now last_level ladder overdue_ladder true in
      let l = or_default overdue_ladder default_overdue_ladder in
      Crossed (now - due) l d.window_days × IsDecision l last_level true d
unfolding evaluate_escalation evaluate_overdue level_rank
evaluate_escalation-Crossed due now last_level ladder overdue_ladder h =
    let l = or_default overdue_ladder default_overdue_ladder in
    let late : ltb due now ≡ true = ground arith in
    let v = crossed-Crossed (now - due) l in
    elim (Option-cases (crossed (now - due) l)) [
      | inl nothing ↦
          rw (late, nothing)
            (rw nothing at v, record { level = refl; notify = ground arith; side = refl })
      | inr (w, found) ↦
          rw (late, found) (rw found at v, record { level = refl; notify = refl; side = refl })
    ]

first_true-Among :
    (cs : List (Option String)) (r : String)
    → first_true cs ≡ some r
    → Among (some r) cs × (text_true r ≡ true)
unfolding first_true
first_true-Among [] r h = cc
first_true-Among (none ∷ cs) r h = let (m, t) = first_true-Among cs r h in (inr m, t)
first_true-Among (some s ∷ cs) r h = elim (Bool-cases (text_true s)) [
  | inl here ↦
      let same : s ≡ r = ground arith in
      subst (λ x. Among (some x) (some s ∷ cs) × (text_true x ≡ true)) same (inl refl, here)
  | inr later ↦ let (m, t) = first_true-Among cs r (ground arith) in (inr m, t)
]

nobody-manager :
    (cs : List (Option String)) (a : Option String)
    → Among a cs
    → optional_true a ≡ true
    → first_true cs ≡ none
    → ⊥
unfolding first_true
nobody-manager [] a m t h = m
nobody-manager (none ∷ cs) a (inl e) t h = ground (arith, ap optional_true e)
nobody-manager (none ∷ cs) a (inr m) t h = nobody-manager cs a m t h
nobody-manager (some s ∷ cs) a m t h = elim (Bool-cases (text_true s)) [
  | inl named ↦ ground arith
  | inr empty ↦ elim m [
    | inl e ↦ ground (arith, ap optional_true e)
    | inr later ↦ nobody-manager cs a later t (ground arith)
  ]
]

never_nobody :
    (level : EscalationLevel) (c : Contacts)
    → 0 < level_order level
    → optional_true c.manager ≡ true
    → first_true (chain level c) ≡ none
    → ⊥
unfolding level_order chain
never_nobody (EscalationLevel.unknown_level s) c k m h = omega arith
never_nobody EscalationLevel.owner c k m h =
    nobody-manager (c.owner ∷ c.backup_owner ∷ c.manager ∷ []) c.manager (inr (inr (inl refl))) m h
never_nobody EscalationLevel.backup_owner c k m h =
    nobody-manager (c.backup_owner ∷ c.owner ∷ c.manager ∷ []) c.manager (inr (inr (inl refl))) m h
never_nobody EscalationLevel.reviewer c k m h =
    nobody-manager (c.reviewer ∷ c.manager ∷ c.owner ∷ []) c.manager (inr (inl refl)) m h
never_nobody EscalationLevel.manager c k m h =
    nobody-manager (c.manager ∷ c.reviewer ∷ c.owner ∷ []) c.manager (inl refl) m h
never_nobody EscalationLevel.counsel c k m h =
    nobody-manager (c.counsel ∷ c.manager ∷ []) c.manager (inr (inl refl)) m h
never_nobody EscalationLevel.executive c k m h =
    nobody-manager (c.executive ∷ c.manager ∷ c.counsel ∷ []) c.manager (inr (inl refl)) m h

-- With a manager, an escalation to any level that the code knows reaches somebody of its chain with a
-- name that is not empty.
pub resolve_recipient-reaches :
    (level : EscalationLevel) (c : Contacts)
    → 0 < level_order level
    → optional_true c.manager ≡ true
    → (r : String) × (resolve_recipient level c ≡ some r)
      × Among (some r) (chain level c)
      × (text_true r ≡ true)
unfolding resolve_recipient
resolve_recipient-reaches level c known m = elim (Option-cases (first_true (chain level c))) [
  | inl nobody ↦ absurd (never_nobody level c known m nobody)
  | inr (r, found) ↦
      let (there, named) = first_true-Among (chain level c) r found in (r, found, there, named)
]
