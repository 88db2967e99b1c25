-- ===== src/Payments/Settled.antt =====
-- When a call leaves a payment settled.
use ticketflow_kenya.Base.{
  ℕ, ◌+◌, ◌≡◌, refl, Bool, true, false, not, Option, none, some, ok, ltb, Option-cases, Bool-cases,
  inl, inr,
}
use ticketflow_kenya.Base.Tables.{row_at, alter_at, row_at-alter_at}
use ticketflow_kenya.Base.Action.{read, write, give, demand, ◌>>=◌}
use ticketflow_kenya.Base.Action.Steps.{Steps}
use ticketflow_kenya.Orders.{RecordId}
use ticketflow_kenya.Mpesa.{MpesaOutcome, StkQueryResult}
use ticketflow_kenya.Payments.{Payment, PaymentStatus, Store, Config, Act, is_pending, is_success}
use ticketflow_kenya.Payments.Settle.{
  Unsuccessful, status_of, settle, succeed, claim, update_payment, demand_payment,
  mark_payment_success, mark_payment_unsuccessful,
}
use ticketflow_kenya.Payments.Reconcile.{
  Ask, older_than, too_soon, deadline_of, poll_update, by_outcome, conclude, poll,
  reconcile_by_request, reconcile,
}
use ticketflow_kenya.Payments.Moves.{
  Moves, IsQuiet, claimed_unsuccessful-Moves, claimed_success-Moves,
}

-- A payment that is pending after a change was pending before it, for the same order.
pub record StaysRetired (p q : Payment) : Type 0 where
  pub was_pending : is_pending q.status ≡ true → is_pending p.status ≡ true
  pub same_order : p.order_id ≡ q.order_id

status_of-pending : (u : Unsuccessful) → is_pending (status_of u) ≡ false
status_of-pending Unsuccessful.cancelled = refl
status_of-pending Unsuccessful.expired = refl
status_of-pending Unsuccessful.failed = refl

pub StaysRetired-IsQuiet : IsQuiet StaysRetired
StaysRetired-IsQuiet = record {
  whole = λ p. record { was_pending = λ h. h; same_order = refl };
  twice = λ p q r h k. record {
    was_pending = λ l. h.was_pending (k.was_pending l);
    same_order = cc (h.same_order, k.same_order);
  };
  kept = λ p q st o a. record { was_pending = λ h. rw st at h; same_order = cc o };
  settled = λ u p h. record { was_pending = λ _. h; same_order = refl };
}

pub StaysRetired-succeeds : (r : Option ℕ) (p : Payment) → StaysRetired p (succeed r p)
StaysRetired-succeeds r p = record { was_pending = λ h. cc h; same_order = refl }

-- The payment, if it is there, is not pending.
abbrev pub IsSettled : RecordId → Store → Type 0
IsSettled id s = (p : Payment) → row_at id s.payments ≡ some p → is_pending p.status ≡ false

pub Moves-IsSettled :
    (id : RecordId) (s t : Store) → IsSettled id s → Moves StaysRetired s t → IsSettled id t
Moves-IsSettled id s t settled moves q here = elim (Option-cases (row_at id s.payments)) [
  | inl e ↦ absurd (rw (e, here) at (moves id))
  | inr (p, e) ↦
      let f : StaysRetired p q = rw (e, here) at (moves id) in
      elim (Bool-cases (is_pending q.status)) [
        | inl pending ↦ cc (settled p e, f.was_pending pending)
        | inr done ↦ done
      ]
]

pub Steps-IsSettled :
    {A : Type 0} (m : Act A) (id : RecordId) (s : Store)
    → Steps (Moves StaysRetired) m
    → IsSettled id s
    → IsSettled id (m s).1
Steps-IsSettled m id s h settled = Moves-IsSettled id s (m s).1 settled (h.at s)

-- A claim that takes every pending payment away from there leaves it settled.
claim-IsSettled :
    (id : RecordId) (test : PaymentStatus → Bool) (change : Payment → Payment) (s : Store)
    → ((p : Payment) → is_pending (change p).status ≡ false)
    → ((status : PaymentStatus) → test status ≡ false → is_pending status ≡ false)
    → (claimed : Bool) × (t : Store) × (claim id test change s ≡ (ok claimed, t)) × IsSettled id t
unfolding claim update_payment ◌>>=◌ read write give
claim-IsSettled id test change s changed passed = elim (Option-cases (row_at id s.payments)) [
  | inl e ↦ (false, s, rw e refl, λ p here. cc (e, here))
  | inr (r, e) ↦ elim (Bool-cases (test r.status)) [
    | inl hit ↦ (
      true,
      record s { payments = alter_at id change s.payments },
      rw (e, hit) refl,
      λ p here.
          let row : change r ≡ p = cc (rw (row_at-alter_at id change s.payments r e) at here) in
          rw (← row) (changed r),
    )
    | inr miss ↦ (
      false,
      s,
      rw (e, miss) refl,
      λ p here. let row : r ≡ p = cc (rw e at here) in rw (← row) (passed r.status miss),
    )
  ]
]

-- After `markPaymentUnsuccessful` and after `markPaymentSuccess` the payment is settled.
pub unsuccessful-IsSettled :
    (now : ℕ) (id : RecordId) (u : Unsuccessful) (release : Bool) (s : Store)
    → IsSettled id (mark_payment_unsuccessful now id u release s).1
unfolding mark_payment_unsuccessful ◌>>=◌
unsuccessful-IsSettled now id u release s =
    let (claimed, t, e, settled) =
      claim-IsSettled id is_pending (settle u) s (λ p. status_of-pending u) (λ status h. h) in
    rw e (
      Steps-IsSettled _ id t
        (claimed_unsuccessful-Moves StaysRetired StaysRetired-IsQuiet now id u release claimed)
        settled)

not_success-pending :
    (status : PaymentStatus) → not (is_success status) ≡ false → is_pending status ≡ false
not_success-pending PaymentStatus.pending h = cc
not_success-pending PaymentStatus.success h = refl
not_success-pending PaymentStatus.failed h = refl
not_success-pending PaymentStatus.cancelled h = refl
not_success-pending PaymentStatus.expired h = refl

pub success-IsSettled :
    (cfg : Config) (id : RecordId) (receipt : Option ℕ) (s : Store)
    → IsSettled id (mark_payment_success cfg id receipt s).1
unfolding mark_payment_success ◌>>=◌
success-IsSettled cfg id receipt s =
    let (claimed, t, e, settled) =
      claim-IsSettled id (λ status. not (is_success status)) (succeed receipt) s (λ p. refl)
        not_success-pending in
    rw e (
      Steps-IsSettled _ id t
        (claimed_success-Moves StaysRetired StaysRetired-IsQuiet cfg id claimed) settled)

-- Past the deadline, each answer of the query settles the payment.
by_outcome-IsSettled :
    (o : MpesaOutcome) (cfg : Config) (now : ℕ) (id : RecordId) (p : Payment) (s : Store)
    → ltb (deadline_of cfg p + 30_000) now ≡ true
    → IsSettled id (by_outcome o cfg now id p s).1
unfolding by_outcome
by_outcome-IsSettled MpesaOutcome.success cfg now id p s h = success-IsSettled cfg id none s
by_outcome-IsSettled MpesaOutcome.cancelled cfg now id p s h =
    unsuccessful-IsSettled now id _ true s
by_outcome-IsSettled MpesaOutcome.expired cfg now id p s h = unsuccessful-IsSettled now id _ true s
by_outcome-IsSettled MpesaOutcome.failed cfg now id p s h = unsuccessful-IsSettled now id _ true s
by_outcome-IsSettled MpesaOutcome.processing cfg now id p s h =
    rw h (unsuccessful-IsSettled now id _ true s)

-- The clock is past every deadline of the payment, and it was not asked about just now.
pub record IsOverdue (cfg : Config) (now : ℕ) (p : Payment) : Type 0 where
  pub past_minute : older_than now 60 p ≡ true
  pub past_hard_expiry : older_than now cfg.hard_expiry_seconds p ≡ true
  pub past_deadline : ltb (deadline_of cfg p + 30_000) now ≡ true
  pub may_ask : too_soon cfg now p ≡ false

conclude-IsSettled :
    (cfg : Config) (now : ℕ) (id : RecordId) (r : StkQueryResult) (p q : Payment) (s : Store)
    → older_than now cfg.hard_expiry_seconds p ≡ true
    → ltb (deadline_of cfg q + 30_000) now ≡ true
    → IsSettled id (conclude cfg now id r p q s).1
unfolding conclude
conclude-IsSettled cfg now id r p q s old past = elim (Bool-cases r.unavailable) [
  | inl e ↦ rw (e, old) (unsuccessful-IsSettled now id Unsuccessful.expired true s)
  | inr e ↦ rw e (by_outcome-IsSettled r.outcome cfg now id q s past)
]

poll-IsSettled :
    (cfg : Config) (now : ℕ) (id : RecordId) (r : StkQueryResult) (p : Payment) (s : Store)
    → row_at id s.payments ≡ some p
    → IsOverdue cfg now p
    → IsSettled id (poll cfg now id r p s).1
unfolding poll ◌>>=◌ update_payment demand_payment read write demand give
poll-IsSettled cfg now id r p s here overdue =
    let change = poll_update now r p.is_verifying in
    rw (row_at-alter_at id change s.payments p here) (
      conclude-IsSettled cfg now id r p (change p) _ overdue.past_hard_expiry overdue.past_deadline)

by_request-IsSettled :
    (request : Option ℕ) (cfg : Config) (now : ℕ) (ask : Ask) (id : RecordId) (p : Payment)
    (s : Store)
    → row_at id s.payments ≡ some p
    → IsOverdue cfg now p
    → IsSettled id (reconcile_by_request request cfg now ask id p s).1
unfolding reconcile_by_request
by_request-IsSettled none cfg now ask id p s here overdue =
    rw (overdue.past_minute) (unsuccessful-IsSettled now id Unsuccessful.failed false s)
by_request-IsSettled (some request) cfg now ask id p s here overdue =
    rw (overdue.may_ask) (poll-IsSettled cfg now id (ask (some request)) p s here overdue)

-- Whatever Daraja answers, and when it does not answer, `reconcile` of a payment of the table leaves it
-- in a final status, once the clock is past 60 seconds and past the hard expiry from its creation
-- and 30 seconds past its prompt's deadline, and the last query lies far enough back.
pub reconcile-IsSettled :
    (cfg : Config) (now : ℕ) (ask : Ask) (id : RecordId) (p : Payment) (s : Store)
    → row_at id s.payments ≡ some p
    → IsOverdue cfg now p
    → IsSettled id (reconcile cfg now ask id p s).1
unfolding reconcile give
reconcile-IsSettled cfg now ask id p s here overdue = elim (Bool-cases (is_pending p.status)) [
  | inl e ↦ rw e (by_request-IsSettled p.checkout_request_id cfg now ask id p s here overdue)
  | inr e ↦ rw e (λ q there. let row : p ≡ q = cc (here, there) in rw (← row) e)
]
