-- ===== src/Payments/Retire.antt =====
-- What the result of `reconcile` says of the payment, and when none is handed back to the buyer.
use ticketflow_kenya.Base.{
  ℕ, ◌+◌, ◌⊎◌, ◌≡◌, Bool, true, false, not, Option, none, some, Result, ok, err, Bool-cases, inl,
  inr, ltb, if◌then◌else◌,
}
use ticketflow_kenya.Base.Tables.{row_at, alter_at, row_at-alter_at}
use ticketflow_kenya.Base.Action.{read, write, give, demand, ◌>>=◌, ◌>>◌, go_on}
use ticketflow_kenya.Orders.{RecordId}
use ticketflow_kenya.Mpesa.{MpesaOutcome, StkQueryResult}
use ticketflow_kenya.Payments.{Payment, Store, Config, PaymentError, is_pending}
use ticketflow_kenya.Payments.Settle.{
  Unsuccessful, update_payment, demand_payment, mark_payment_success, mark_payment_unsuccessful,
}
use ticketflow_kenya.Payments.Reconcile.{
  Ask, older_than, too_soon, deadline_of, poll_update, by_outcome, conclude, poll,
  reconcile_by_request, reconcile, can_supersede,
}
use ticketflow_kenya.Payments.Initiate.{retire_existing}
use ticketflow_kenya.Payments.Settled.{IsSettled, success-IsSettled, unsuccessful-IsSettled}

-- A result that says that the payment is still pending, or a table where it is settled.
abbrev Tells : RecordId → Result PaymentError Payment × Store → Type 0
Tells id (ok q, t) = (is_pending q.status ≡ true) ⊎ IsSettled id t
Tells id (err e, t) = Unit

settled-Tells :
    (id : RecordId) (r : Result PaymentError Payment × Store) → IsSettled id r.1 → Tells id r
settled-Tells id (ok q, t) h = inr h
settled-Tells id (err e, t) h = tt

unsuccessful-Tells :
    (now : ℕ) (id : RecordId) (u : Unsuccessful) (release : Bool) (s : Store)
    → Tells id (mark_payment_unsuccessful now id u release s)
unsuccessful-Tells now id u release s =
    settled-Tells id (mark_payment_unsuccessful now id u release s)
      (unsuccessful-IsSettled now id u release s)

by_outcome-Tells :
    (o : MpesaOutcome) (cfg : Config) (now : ℕ) (id : RecordId) (p : Payment) (s : Store)
    → is_pending p.status ≡ true
    → Tells id (by_outcome o cfg now id p s)
unfolding by_outcome give
by_outcome-Tells MpesaOutcome.success cfg now id p s h =
    settled-Tells id (mark_payment_success cfg id none s) (success-IsSettled cfg id none s)
by_outcome-Tells MpesaOutcome.cancelled cfg now id p s h = unsuccessful-Tells now id _ true s
by_outcome-Tells MpesaOutcome.expired cfg now id p s h = unsuccessful-Tells now id _ true s
by_outcome-Tells MpesaOutcome.failed cfg now id p s h = unsuccessful-Tells now id _ true s
by_outcome-Tells MpesaOutcome.processing cfg now id p s h =
    elim (Bool-cases (ltb (deadline_of cfg p + 30_000) now)) [
      | inl e ↦ rw e (unsuccessful-Tells now id Unsuccessful.expired true s)
      | inr e ↦ rw e (inl h)
    ]

conclude-Tells :
    (cfg : Config) (now : ℕ) (id : RecordId) (r : StkQueryResult) (p q : Payment) (s : Store)
    → is_pending q.status ≡ true
    → Tells id (conclude cfg now id r p q s)
unfolding conclude give
conclude-Tells cfg now id r p q s h = elim (Bool-cases r.unavailable) [
  | inl e ↦ elim (Bool-cases (older_than now cfg.hard_expiry_seconds p)) [
    | inl old ↦ rw (e, old) (unsuccessful-Tells now id Unsuccessful.expired true s)
    | inr young ↦ rw (e, young) (inl h)
  ]
  | inr e ↦ rw e (by_outcome-Tells r.outcome cfg now id q s h)
]

poll-Tells :
    (cfg : Config) (now : ℕ) (id : RecordId) (r : StkQueryResult) (p : Payment) (s : Store)
    → row_at id s.payments ≡ some p
    → is_pending p.status ≡ true
    → Tells id (poll cfg now id r p s)
unfolding poll ◌>>=◌ update_payment demand_payment read write demand give
poll-Tells cfg now id r p s here h =
    let change = poll_update now r p.is_verifying in
    rw (row_at-alter_at id change s.payments p here) (
      conclude-Tells cfg now id r p (change p)
        (record s { payments = alter_at id change s.payments }) h)

by_request-Tells :
    (request : Option ℕ) (cfg : Config) (now : ℕ) (ask : Ask) (id : RecordId) (p : Payment)
    (s : Store)
    → row_at id s.payments ≡ some p
    → is_pending p.status ≡ true
    → Tells id (reconcile_by_request request cfg now ask id p s)
unfolding reconcile_by_request give
by_request-Tells none cfg now ask id p s here h = elim (Bool-cases (older_than now 60 p)) [
  | inl old ↦ rw old (unsuccessful-Tells now id Unsuccessful.failed false s)
  | inr young ↦ rw young (inl h)
]
by_request-Tells (some request) cfg now ask id p s here h = elim (Bool-cases (too_soon cfg now p)) [
  | inl soon ↦ rw soon (inl h)
  | inr due ↦ rw due (poll-Tells cfg now id (ask (some request)) p s here h)
]

reconcile-Tells :
    (cfg : Config) (now : ℕ) (ask : Ask) (id : RecordId) (p : Payment) (s : Store)
    → row_at id s.payments ≡ some p
    → is_pending p.status ≡ true
    → Tells id (reconcile cfg now ask id p s)
unfolding reconcile
reconcile-Tells cfg now ask id p s here h =
    rw h (by_request-Tells p.checkout_request_id cfg now ask id p s here h)

-- When there is no payment to hand back, the one that was in flight is settled.
abbrev pub Clears : RecordId → Result PaymentError (Option (ℕ × Payment)) × Store → Type 0
Clears id (ok none, t) = IsSettled id t
Clears id (ok (some live), t) = Unit
Clears id (err e, t) = Unit

pub retire-Clears :
    (cfg : Config) (now : ℕ) (ask : Ask) (id : RecordId) (p : Payment) (s : Store)
    → row_at id s.payments ≡ some p
    → is_pending p.status ≡ true
    → Clears id (retire_existing cfg now ask (some (id, p)) s)
unfolding retire_existing ◌>>=◌ give
retire-Clears cfg now ask id p s here h =
    after (reconcile cfg now ask id p s) (reconcile-Tells cfg now ask id p s here h)
  where
    superseded :
        (r : Result PaymentError Payment × Store)
        → IsSettled id r.1
        → Clears id (go_on (λ _. give none) r)
    superseded (ok q, t) settled = settled
    superseded (err e, t) settled = tt

    after :
        (r : Result PaymentError Payment × Store)
        → Tells id r
        → Clears id (
            go_on
              (λ q.
                if is_pending q.status
                then (if not (can_supersede cfg now q)
                    then give (some (id, q))
                    else do mark_payment_unsuccessful now id Unsuccessful.expired true; give none)
                else give none)
              r)
    after (ok q, t) tells = elim (Bool-cases (is_pending q.status)) [
      | inl e ↦ elim (Bool-cases (can_supersede cfg now q)) [
        | inl dead ↦
            rw (e, dead)
              (superseded (mark_payment_unsuccessful now id Unsuccessful.expired true t)
                (unsuccessful-IsSettled now id Unsuccessful.expired true t))
        | inr alive ↦ rw (e, alive) tt
      ]
      | inr e ↦ elim tells [ inl pending ↦ cc (pending, e) | inr settled ↦ rw e settled ]
    ]
    after (err e, t) tells = tt
