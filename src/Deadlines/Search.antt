-- ===== src/Deadlines/Search.antt =====
-- The searches of app/deadlines/business_days.py against what they look for.
use mathlib.Core.Path.{subst}
use native.Mathlib.Decide.{ℕ_discrete}
use native.Mathlib.Nat.{add-zero}
use astra_licensing_graph.Prelude.{
  some-inj, ℕ, zero, suc, ◌+◌, ◌*◌, ◌≤◌, ◌<◌, ◌≡◌, refl, sym, ◌⊎◌, inl, inr, Bool, true, false,
  Option, some, arith, Bool-cases, if◌then◌else◌,
}
use astra_licensing_graph.Deadlines.Calendar.{
  BusinessCalendar, is_business_day, search_forward, next_business_day, walk, add_business_days,
}

-- `r` is the first business day from `start` on.
pub record IsNext (cal : BusinessCalendar) (start r : ℕ) : Type 0 where
  pub business : is_business_day cal r ≡ true
  pub from_start : start ≤ r
  pub first : (d : ℕ) → start ≤ d → d < r → is_business_day cal d ≡ false

module _ (cal : BusinessCalendar) where
  at_start : (start : ℕ) → is_business_day cal start ≡ true → IsNext cal start start
  at_start start now = record {
    business = now;
    from_start = omega arith;
    first = λ d lo hi. absurd (omega arith);
  }

  -- A start that is no business day leaves the search to the next day.
  past_start :
      (start r : ℕ)
      → is_business_day cal start ≡ false
      → IsNext cal (start + 1) r
      → IsNext cal start r
  past_start start r later v = record {
    business = v.business;
    from_start = omega (arith, v.from_start);
    first = λ d lo hi. elim (ℕ_discrete d start) [
      | yes e ↦ rw e later
      | no e ↦ v.first d (omega arith) hi
    ];
  }

  pub search_forward-IsNext :
      (left start k : ℕ)
      → k < left
      → is_business_day cal (start + k) ≡ true
      → IsNext cal start (search_forward cal left start)
        × (search_forward cal left start ≤ start + k)
  unfolding search_forward
  search_forward-IsNext zero start k h b = absurd (omega arith)
  search_forward-IsNext (suc left) start zero h b =
      let now : is_business_day cal start ≡ true =
        subst (λ x. is_business_day cal x ≡ true) (add-zero start) b in
      rw now (at_start start now, omega arith)
  search_forward-IsNext (suc left) start (suc k) h b =
      elim (Bool-cases (is_business_day cal start)) [
        | inl now ↦ rw now (at_start start now, omega arith)
        | inr later ↦
            let onward : start + suc k ≡ start + 1 + k = omega arith in
            let (v, le) =
              search_forward-IsNext left (start + 1) k (omega arith)
                (subst (λ x. is_business_day cal x ≡ true) onward b) in
            rw later (past_start start _ later v, omega (arith, le))
      ]

  -- If one of the 30 days from the start on is a business day, `next_business_day` is the first such
  -- day; the start is the day itself, or the next one if the day is excluded.
  pub next_business_day-IsNext :
      (day : ℕ) (inclusive : Bool) (k : ℕ)
      → k < 30
      → is_business_day cal ((if inclusive then day else day + 1) + k) ≡ true
      → IsNext cal (if inclusive then day else day + 1) (next_business_day cal day inclusive)
  unfolding next_business_day
  next_business_day-IsNext day inclusive k h b =
      (search_forward-IsNext 30 (if inclusive then day else day + 1) k h b).0

  -- The business days among the `n` days after `day`.
  abbrev pub count_after : ℕ → ℕ → ℕ
  count_after day zero = 0
  count_after day (suc n) =
      (if is_business_day cal (day + 1) then 1 else 0) + count_after (day + 1) n

  -- Every stretch of 30 days has a business day.
  abbrev pub IsOpen : Type 0
  IsOpen = (day : ℕ) → (k : ℕ) × (k < 30) × (is_business_day cal (day + 1 + k) ≡ true)

  -- Where a forward walk ends.
  pub record Arrived (day count : ℕ) (result : Option ℕ) : Type 0 where
    pub end : ℕ
    pub steps : ℕ
    pub found : result ≡ some end
    pub moved : end ≡ day + steps
    pub counted : count_after day steps ≡ count
    pub business : (0 < count) → is_business_day cal end ≡ true

  -- One step on, to a business day or not.
  step_on :
      (c n : ℕ) {r : Option ℕ}
      → is_business_day cal (c + 1) ≡ true
      → ((0 < n) ⊎ (n ≡ 0) × (r ≡ some (c + 1)))
      → Arrived (c + 1) n r
      → Arrived c (suc n) r
  step_on c n {r} b last v = record {
    end = v.end;
    steps = suc v.steps;
    found = v.found;
    moved = omega (arith, v.moved);
    counted = rw b (omega (arith, v.counted));
    business = λ _. elim last [
      | inl more ↦ v.business more
      | inr (none_left, at) ↦
          let here : some v.end ≡ some (c + 1) = cc (v.found, at) in
          subst (λ x. is_business_day cal x ≡ true) (sym (some-inj here)) b
    ];
  }

  step_over :
      (c n : ℕ) {r : Option ℕ}
      → is_business_day cal (c + 1) ≡ false
      → Arrived (c + 1) n r
      → Arrived c n r
  step_over c n {r} b v = record {
    end = v.end;
    steps = suc v.steps;
    found = v.found;
    moved = omega (arith, v.moved);
    counted = rw b (omega (arith, v.counted));
    business = v.business;
  }

  walk-zero : (f c : ℕ) → walk cal true f 0 c ≡ some c
  unfolding walk
  walk-zero zero c = refl
  walk-zero (suc f) c = refl

  Arrived-at : (c : ℕ) → Arrived c 0 (some c)
  Arrived-at c = record {
    end = c;
    steps = 0;
    found = refl;
    moved = omega arith;
    counted = refl;
    business = λ h. absurd (omega arith);
  }

  -- The step onto a business day, with the walk from there on.
  walk-arrive :
      IsOpen
      → (f r c : ℕ) → is_business_day cal (c + 1) ≡ true
      → 30 * r ≤ f
      → ((r' k' : ℕ)
          → is_business_day cal (c + 1 + 1 + k') ≡ true
          → k' + 1 + 30 * r' ≤ f
          → Arrived (c + 1) (suc r') (walk cal true f (suc r') (c + 1)))
      → Arrived c (suc r) (walk cal true f r (c + 1))
  walk-arrive open_cal f zero c now h rec =
      let at : walk cal true f 0 (c + 1) ≡ some (c + 1) = walk-zero f (c + 1) in
      step_on c 0 now (inr (refl, at)) (rw at (Arrived-at (c + 1)))
  walk-arrive open_cal f (suc r) c now h rec =
      let (k', lt, b') = open_cal (c + 1) in
      step_on c (suc r) now (inl (omega arith)) (rec r k' b' (omega arith))

  walk-Arrived :
      IsOpen
      → (fuel r c k : ℕ) → is_business_day cal (c + 1 + k) ≡ true
      → k + 1 + 30 * r ≤ fuel
      → Arrived c (suc r) (walk cal true fuel (suc r) c)
  unfolding walk
  walk-Arrived open_cal zero r c k b h = absurd (omega arith)
  walk-Arrived open_cal (suc f) r c zero b h =
      let now : is_business_day cal (c + 1) ≡ true =
        subst (λ x. is_business_day cal x ≡ true) (add-zero (c + 1)) b in
      rw (now, walk)
        (walk-arrive open_cal f r c now (omega arith)
          (λ r' k' b' h'. walk-Arrived open_cal f r' (c + 1) k' b' h'))
  walk-Arrived open_cal (suc f) r c (suc k) b h = elim (Bool-cases (is_business_day cal (c + 1))) [
    | inl now ↦
        rw (now, walk)
          (walk-arrive open_cal f r c now (omega arith)
            (λ r' k' b' h'. walk-Arrived open_cal f r' (c + 1) k' b' h'))
    | inr later ↦
        let onward : c + 1 + suc k ≡ c + 1 + 1 + k = omega arith in
        rw (later, walk)
          (step_over c (suc r) later (
            walk-Arrived open_cal f r (c + 1) k (subst (λ x. is_business_day cal x ≡ true) onward b)
              (omega arith)))
  ]

  -- On a calendar with a business day in every 30 days, moving `count` business days forward ends, on
  -- a fuel of 30 rounds for each, at a business day with exactly `count` of them on the way.
  pub add_business_days-Arrived :
      IsOpen
      → (day count fuel : ℕ) → 0 < count
      → 30 * count ≤ fuel
      → Arrived day count (add_business_days cal fuel day true count)
  unfolding add_business_days
  add_business_days-Arrived open_cal day zero fuel h f = absurd (omega arith)
  add_business_days-Arrived open_cal day (suc r) fuel h f =
      let (k, lt, b) = open_cal day in walk-Arrived open_cal fuel r day k b (omega arith)
