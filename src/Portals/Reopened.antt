-- ===== src/Portals/Reopened.antt =====
-- Calls that undo what another call of a portal service recorded: `capture_validation` of
-- app/services/portal_run_service.py and `ensure_payment` of
-- app/services/submission_evidence_service.py.
use astra_licensing_graph.Prelude.{
  ◌≡◌, refl, sym, ap, ◌∙◌, inl, inr, ℕ, Bool, true, false, ◌&&◌, Option, none, some, List, String,
  Option-cases,
}
use astra_licensing_graph.Portals.Vocabulary.{
  PaymentStatus, PortalRunStatus, is_payment_approved, is_review_required, is_submitted,
}
use astra_licensing_graph.Portals.Rows.{
  Caller, HumanHandoff, PortalPaymentRecord, RawMessage, Store,
}
use astra_licensing_graph.Portals.Results.{Conflict, Error, err, ok, require, settled}
use astra_licensing_graph.Portals.Governance.{
  principal_of, acts_as, add_step, approved_snapshot, audited, in_status, invalidate_snapshot,
}
use astra_licensing_graph.Portals.RunService.{capture_validation}
use astra_licensing_graph.Portals.HumanActions.{
  approve_payment, ensure_payment, fee_changed, review_payment,
}
use astra_licensing_graph.Portals.Submission.{
  Capture, capture_submission_result, check_final_actor, final_handoff, is_ambiguous, is_reported,
  record_outcome,
}
use astra_licensing_graph.Portals.RunKept.{captured-is_submitted}
use astra_licensing_graph.Portals.Bound.{ok-injective, found-ok, require-ok}

-- What invalidate_snapshot leaves as it is.
invalidate_snapshot-handoffs : (s : Store) → (invalidate_snapshot s).handoffs ≡ s.handoffs
unfolding invalidate_snapshot audited
invalidate_snapshot-handoffs s = elim (Option-cases (approved_snapshot s)) [
  | inl e ↦ rw e refl
  | inr (r, e) ↦ rw e refl
]

invalidate_snapshot-principals : (s : Store) → (invalidate_snapshot s).principals ≡ s.principals
unfolding invalidate_snapshot audited
invalidate_snapshot-principals s = elim (Option-cases (approved_snapshot s)) [
  | inl e ↦ rw e refl
  | inr (r, e) ↦ rw e refl
]

acts_as-principals :
    (s t : Store) (c : Caller) (user : ℕ)
    → t.principals ≡ s.principals
    → acts_as t c user ≡ acts_as s c user
unfolding acts_as principal_of
acts_as-principals s t c user h = rw h refl

check_final_actor-principals :
    (s t : Store) (c : Caller) (user : Option ℕ)
    → t.principals ≡ s.principals
    → check_final_actor t c user ≡ check_final_actor s c user
unfolding check_final_actor
check_final_actor-principals s t c none h = refl
check_final_actor-principals s t c (some user) h =
    ap (λ b. require b Conflict.actor_not_assigned) (acts_as-principals s t c user h)

module _ (redact_emails redact_numbers : String → String) (s : Store) (messages : List RawMessage)
    (page : String) where
  -- The rows after `capture_validation`.
  abbrev validated : Store
  validated = settled s (capture_validation redact_emails redact_numbers s messages page)

  validated-final_handoff : final_handoff validated ≡ final_handoff s
  unfolding capture_validation final_handoff settled in_status add_step
  validated-final_handoff = rw (invalidate_snapshot-handoffs s) refl

  validated-principals : validated.principals ≡ s.principals
  unfolding capture_validation settled in_status add_step
  validated-principals = invalidate_snapshot-principals s

  validated-is_submitted : is_submitted validated.run.status ≡ false
  unfolding capture_validation settled in_status add_step
  validated-is_submitted = captured-is_submitted _

-- A page observed after the submission is recorded takes the run out of SUBMITTED. The refusal to
-- record a submission twice is lost with it: a report of an ambiguous outcome is refused before,
-- and taken after.
pub capture_validation-reopens :
    (upper redact_emails redact_numbers : String → String) (s : Store) (c : Caller) (r : Capture)
    → (h : HumanHandoff) (messages : List RawMessage) (page : String)
    → is_submitted s.run.status ≡ true
    → final_handoff s ≡ some h
    → is_reported h.status ≡ true
    → check_final_actor s c h.requested_from_user_id ≡ ok tt
    → is_ambiguous upper r ≡ true
    → (capture_submission_result upper s c r ≡ err (Error.state_conflict Conflict.already_recorded))
      × (capture_submission_result upper
            (settled s (capture_validation redact_emails redact_numbers s messages page))
            c
            r
          ≡ ok (
              in_status PortalRunStatus.submission_result_pending
                (settled s (capture_validation redact_emails redact_numbers s messages page))))
unfolding capture_submission_result record_outcome
capture_validation-reopens upper emails numbers s c r h messages page submitted final reported own
      unclear =
    (
      rw (final, reported, own, submitted) refl,
      rw
          (
            validated-final_handoff emails numbers s messages page,
            final,
            reported,
            check_final_actor-principals s (validated emails numbers s messages page) c
                h.requested_from_user_id (validated-principals emails numbers s messages page),
            own,
            validated-is_submitted emails numbers s messages page,
            unclear,
          )
          refl,
    )

and-right : (a b : Bool) → a && b ≡ true → b ≡ true
and-right true b h = h
and-right false b h = absurd (cc)

fee_changed-approved_by :
    (fee : Option ℕ) (currency summary : Option String) (p : PortalPaymentRecord) (c : Caller)
    → fee_changed fee currency summary p ≡ true
    → fee_changed fee currency summary
        (record p { status = PaymentStatus.approved; approved_by_actor = some c.actor_id })
      ≡ true
unfolding fee_changed is_payment_approved
fee_changed-approved_by fee currency summary p c h = and-right (is_payment_approved p.status) _ h

abbrev approved_by : Caller → PortalPaymentRecord → PortalPaymentRecord
approved_by c p = record p { status = PaymentStatus.approved; approved_by_actor = some c.actor_id }

approve_payment-payment :
    (s s' : Store) (c : Caller) (p : PortalPaymentRecord)
    → s.payment ≡ some p
    → approve_payment s c ≡ ok s'
    → s'.payment
      ≡ some (record p { status = PaymentStatus.approved; approved_by_actor = some c.actor_id })
unfolding approve_payment
approve_payment-payment s s' c p here e =
    let (q, there, e₁) = found-ok s.payment _ _ e in
    let (approver, _, e₂) = found-ok s.run.assigned_payment_approver_id _ _ e₁ in
    let (_, e₃) = require-ok (acts_as s c approver) _ _ e₂ in
    let (_, e₄) = require-ok (is_review_required q.status) _ _ e₃ in
    let same : q ≡ p = cc (here, there) in
    ap (λ t. t.payment) (sym (ok-injective e₄)) ∙ ap (λ x. some (approved_by c x)) same

ensure_payment-payment :
    (fee : Option ℕ) (currency summary : Option String) (s : Store) (p : PortalPaymentRecord)
    → s.payment ≡ some p
    → fee_changed fee currency summary p ≡ true
    → (settled s (ensure_payment s fee currency summary)).payment
      ≡ some (record p { status = PaymentStatus.review_required })
unfolding ensure_payment review_payment settled in_status
ensure_payment-payment fee currency summary s p here changed = rw (here, changed) refl

-- A fee that differs from the approved one puts the payment back into review and is not stored, so
-- that an approval of that review settles nothing: the same fee, seen again, puts it back again.
pub ensure_payment-repeats :
    (fee : Option ℕ) (currency summary : Option String) (s s' : Store) (c : Caller)
    → (p : PortalPaymentRecord) → s.payment ≡ some p
    → fee_changed fee currency summary p ≡ true
    → approve_payment (settled s (ensure_payment s fee currency summary)) c ≡ ok s'
    → (q : PortalPaymentRecord) × ((settled s' (ensure_payment s' fee currency summary)).payment
        ≡ some q)
      × (q.status ≡ PaymentStatus.review_required)
      × (q.expected_fee_amount ≡ p.expected_fee_amount)
ensure_payment-repeats fee currency summary s s' c p here changed e =
    let first = ensure_payment-payment fee currency summary s p here changed in
    let approved = approve_payment-payment _ s' c _ first e in
    (
      _,
      ensure_payment-payment fee currency summary s' _ approved
          (fee_changed-approved_by fee currency summary p c changed),
      refl,
      refl,
    )
