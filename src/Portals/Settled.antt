-- ===== src/Portals/Settled.antt =====
-- What the checks of `request_final_submit_handoff` come to, in
-- app/services/submission_evidence_service.py.
use astra_licensing_graph.Prelude.{
  find_first-Among, find_first-misses, ◌≡◌, refl, ap, ◌⊎◌, inl, inr, ◌≢◌, ℕ, true, false, not, ◌&&◌,
  ◌==◌, Option, none, some, List, [], ◌∷◌, arith, All, Among, any, Option-cases, find_first,
}
use astra_licensing_graph.Portals.Vocabulary.{
  HandoffType, AttestationStatus, BrowserSessionStatus, PaymentStatus, in_active_session_statuses,
  is_attested, is_settled,
}
use astra_licensing_graph.Portals.Rows.{
  BrowserSession, GovernedForm, PortalAttestationRecord, PortalPaymentRecord, Store,
}
use astra_licensing_graph.Portals.Governance.{is_live, operator_session}
use astra_licensing_graph.Portals.Handoffs.{same_type}
use astra_licensing_graph.Portals.Sessions.{session_by_id}
use astra_licensing_graph.Portals.Submission.{form_settled, payment_settled}
use astra_licensing_graph.Portals.Sound.{find_first-test}

-- An attestation that asks nothing more of anyone.
abbrev pub IsAttested : PortalAttestationRecord → Type 0
IsAttested a =
    (a.status ≡ AttestationStatus.not_required) ⊎ (a.status ≡ AttestationStatus.completed_by_human)

-- Two rows with one id are the same row.
abbrev pub IsKeyed : List BrowserSession → Type 0
IsKeyed bs = (a b : BrowserSession) → Among a bs → Among b bs → a.id ≡ b.id → a ≡ b

is_attested-IsAttested : (a : PortalAttestationRecord) → is_attested a.status ≡ true → IsAttested a
unfolding is_attested
is_attested-IsAttested a h = ground arith

pub all_attested_lem :
    (rows : List PortalAttestationRecord)
    → not (any (λ a. not (is_attested a.status)) rows) ≡ true
    → All IsAttested rows
all_attested_lem [] h = tt
all_attested_lem (a ∷ rows) h =
    (is_attested-IsAttested a (ground arith), all_attested_lem rows (ground arith))

pub session_by_id-own :
    (s : Store) (b : BrowserSession)
    → IsKeyed s.sessions
    → Among b s.sessions
    → session_by_id b.id s ≡ some b
unfolding session_by_id
session_by_id-own s b keyed m = elim (Option-cases (find_first (λ r. r.id == b.id) s.sessions)) [
  | inl e ↦ absurd (missed (find_first-misses (λ r. r.id == b.id) s.sessions b e m))
  | inr (a, e) ↦ rw e (
      ap some (
        keyed a b (find_first-Among _ s.sessions e) m
          (found_id a (find_first-test (λ r. r.id == b.id) s.sessions e))))
]
  where
    missed : (b.id == b.id) ≡ false → ⊥
    missed h = ground arith

    found_id : (a : BrowserSession) → (a.id == b.id) ≡ true → a.id ≡ b.id
    found_id a h = ground arith

-- The operator's own session in use.
pub record IsOwnSession (s : Store) (operator : ℕ) (b : BrowserSession) : Type 0 where
  pub there : Among b s.sessions
  pub own : b.operator_user_id ≡ operator
  pub unexpired : b.session_status ≢ BrowserSessionStatus.expired
  pub unclosed : b.session_status ≢ BrowserSessionStatus.closed
  pub working : b.session_status ≢ BrowserSessionStatus.failed

is_live-in_use :
    (b : BrowserSession) (st : BrowserSessionStatus)
    → is_live b ≡ true
    → in_active_session_statuses st ≡ false
    → b.session_status ≢ st
is_live-in_use b st live out same = cc

pub operator_session-IsOwnSession :
    (s : Store) (operator : ℕ) {b : BrowserSession}
    → operator_session s operator ≡ some b
    → IsOwnSession s operator b
unfolding operator_session in_active_session_statuses
operator_session-IsOwnSession s operator {b} e =
    let h = find_first-test (λ b. (b.operator_user_id == operator) && is_live b) s.sessions e in
    let live : is_live b ≡ true = ground arith in
    record {
      there = find_first-Among _ s.sessions e;
      own = ground arith;
      unexpired = is_live-in_use b BrowserSessionStatus.expired live refl;
      unclosed = is_live-in_use b BrowserSessionStatus.closed live refl;
      working = is_live-in_use b BrowserSessionStatus.failed live refl;
    }

-- The form of the run, if there is one, needs no signature or is signed.
abbrev pub IsSigned : Store → Type 0
IsSigned s =
    (s.run.form_instance_id ≡ none)
    ⊎ ((s.form ≡ none)
        ⊎ ((f : GovernedForm) × (s.form ≡ some f)
            × ((f.signature_required ≡ false) ⊎ (f.is_signed ≡ true))))

pub form_settled-IsSigned :
    (s : Store) → form_settled s.run.form_instance_id s.form ≡ true → IsSigned s
unfolding form_settled
form_settled-IsSigned s h = elim (Option-cases s.run.form_instance_id) [
  | inl no_id ↦ inl no_id
  | inr (i, e) ↦ elim (Option-cases s.form) [
    | inl no_form ↦ inr (inl no_form)
    | inr (f, e') ↦ inr (inr (f, e', ground (arith, rw (e, e') at h)))
  ]
]

abbrev pub IsPaid : Option PortalPaymentRecord → Type 0
IsPaid payment =
    (payment ≡ none)
    ⊎ ((p : PortalPaymentRecord) × (payment ≡ some p)
        × ((p.status ≡ PaymentStatus.not_required) ⊎ (p.status ≡ PaymentStatus.paid_externally)))

pub payment_settled-IsPaid :
    (payment : Option PortalPaymentRecord) → payment_settled payment ≡ true → IsPaid payment
unfolding payment_settled is_settled
payment_settled-IsPaid none h = inl refl
payment_settled-IsPaid (some p) h = inr (p, refl, ground arith)

pub same_final :
    (t : HandoffType) → same_type t HandoffType.final_submit ≡ true → t ≡ HandoffType.final_submit
unfolding same_type
same_final HandoffType.final_submit h = refl
same_final _ h = absurd (cc)
