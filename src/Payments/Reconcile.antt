-- ===== src/Payments/Reconcile.antt =====
-- `reconcile`, which asks Daraja what became of a pending payment. A call
-- reads one clock value. `ask` is what the status query answers for a checkout request.
use ticketflow_kenya.Base.{
  ℕ, ◌+◌, ◌*◌, Bool, true, false, not, ◌&&◌, ◌||◌, Option, none, some, ltb, if◌then◌else◌,
}
use ticketflow_kenya.Base.Action.{give, ◌>>=◌, ◌>>◌}
use ticketflow_kenya.Orders.{RecordId}
use ticketflow_kenya.Mpesa.{MpesaOutcome, ResultCode, absent, empty, StkQueryResult, is_processing}
use ticketflow_kenya.Payments.{Payment, Config, Act, is_pending}
use ticketflow_kenya.Payments.Settle.{
  Unsuccessful, update_payment, demand_payment, mark_payment_success, mark_payment_unsuccessful,
}

abbrev pub Ask : Type 0
Ask = Option ℕ → StkQueryResult

-- `secondsSince(payment.createdAt) > seconds`
abbrev pub older_than : ℕ → ℕ → Payment → Bool
older_than now seconds p = ltb (p.created_at + seconds * 1_000) now

-- `age < seconds`
abbrev pub younger_than : ℕ → ℕ → Payment → Bool
younger_than now seconds p = ltb now (p.created_at + seconds * 1_000)

abbrev pub polled_recently : Config → ℕ → Option ℕ → Bool
polled_recently cfg now none = false
polled_recently cfg now (some last) = ltb now (last + cfg.query_interval_ms)

-- `result.resultCode ? { resultCode: result.resultCode } : {}`
abbrev pub newer_code : ResultCode → ResultCode → ResultCode
newer_code absent old = old
newer_code empty old = old
newer_code c old = c

abbrev pub poll_update : ℕ → StkQueryResult → Bool → Payment → Payment
poll_update now result verifying p = record p {
  last_polled_at = some now;
  is_verifying = if is_processing result.outcome && not result.unavailable then true else verifying;
  result_code = newer_code result.result_code p.result_code;
}

-- `deadlineOf`
abbrev pub deadline_from : Config → ℕ → Option ℕ → ℕ
deadline_from cfg created (some expires) = expires
deadline_from cfg created none = created + cfg.stk_validity_seconds * 1_000

abbrev pub deadline_of : Config → Payment → ℕ
deadline_of cfg p = deadline_from cfg p.created_at p.stk_expires_at

-- The switch on the query's outcome.
unfoldable pub by_outcome : MpesaOutcome → Config → ℕ → RecordId → Payment → Act Payment
by_outcome MpesaOutcome.success cfg now id polled = mark_payment_success cfg id none
by_outcome MpesaOutcome.cancelled cfg now id polled =
    mark_payment_unsuccessful now id Unsuccessful.cancelled true
by_outcome MpesaOutcome.expired cfg now id polled =
    mark_payment_unsuccessful now id Unsuccessful.expired true
by_outcome MpesaOutcome.failed cfg now id polled =
    mark_payment_unsuccessful now id Unsuccessful.failed true
by_outcome MpesaOutcome.processing cfg now id polled =
    if ltb (deadline_of cfg polled + 30_000) now
    then mark_payment_unsuccessful now id Unsuccessful.expired true
    else give polled

unfoldable pub conclude : Config → ℕ → RecordId → StkQueryResult → Payment → Payment → Act Payment
conclude cfg now id result payment polled =
    if result.unavailable
    then (if older_than now cfg.hard_expiry_seconds payment
        then mark_payment_unsuccessful now id Unsuccessful.expired true
        else give polled)
    else by_outcome result.outcome cfg now id polled

unfoldable pub poll : Config → ℕ → RecordId → StkQueryResult → Payment → Act Payment
poll cfg now id result payment = do
  update_payment id (poll_update now result payment.is_verifying)
  polled ← demand_payment id
  conclude cfg now id result payment polled

abbrev pub too_soon : Config → ℕ → Payment → Bool
too_soon cfg now p =
    younger_than now cfg.query_after_seconds p || polled_recently cfg now p.last_polled_at

unfoldable pub reconcile_by_request : Option ℕ → Config → ℕ → Ask → RecordId → Payment → Act Payment
reconcile_by_request none cfg now ask id payment =
    if older_than now 60 payment
    then mark_payment_unsuccessful now id Unsuccessful.failed false
    else give payment
reconcile_by_request (some request) cfg now ask id payment =
    if too_soon cfg now payment then give payment else poll cfg now id (ask (some request)) payment

unfoldable pub reconcile : Config → ℕ → Ask → RecordId → Payment → Act Payment
reconcile cfg now ask id payment =
    if not (is_pending payment.status)
    then give payment
    else reconcile_by_request payment.checkout_request_id cfg now ask id payment

-- `canSupersede`
abbrev pub can_supersede : Config → ℕ → Payment → Bool
can_supersede cfg now p =
    if p.is_verifying then false else older_than now cfg.stk_validity_seconds p
