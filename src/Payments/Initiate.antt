-- ===== src/Payments/Initiate.antt =====
-- `performInitiation`, `mockMarkSuccess` and the sweep of PaymentReconciliationService, which
-- settle payments too. `withOrderLock` runs the initiations of one order one after another, as here.
-- A call reads one clock value. The answer to the STK push is an argument: the checkout request id,
-- or none when the call threw.
use ticketflow_kenya.Base.{
  ℕ, zero, suc, ◌+◌, ◌-◌, ◌*◌, Bool, true, false, not, ◌&&◌, List, [], ◌∷◌, ◌++◌, Option, none,
  some, ◌==◌, ltb, length, if◌then◌else◌,
}
use ticketflow_kenya.Base.Tables.{row_at, find_latest}
use ticketflow_kenya.Base.Action.{give, throw, read, write, demand, refuse_if, attempt, ◌>>=◌, ◌>>◌}
use ticketflow_kenya.Orders.{RecordId, Order, OrderStatus, find_order, is_paid}
use ticketflow_kenya.Orders.Service.{reopen_for_retry}
use ticketflow_kenya.Mpesa.{ResultCode}
use ticketflow_kenya.Payments.{
  Payment, PaymentStatus, audit_initiated, Config, order_not_found, not_your_order,
  order_already_paid, order_was_cancelled, could_not_initiate, payment_not_found, mock_disabled,
  not_pending, Act, is_pending,
}
use ticketflow_kenya.Payments.Settle.{
  Unsuccessful, notify, update_payment, demand_payment, call_orders, mark_payment_success,
  mark_payment_unsuccessful,
}
use ticketflow_kenya.Payments.Reconcile.{Ask, reconcile, can_supersede}

abbrev pub is_cancelled_order : OrderStatus → Bool
is_cancelled_order OrderStatus.cancelled = true
is_cancelled_order _ = false

abbrev pub is_live_for : RecordId → Payment → Bool
is_live_for order_id p = p.order_id == order_id && is_pending p.status

-- The prompt that is in flight, brought up to date: the payment to hand back, if it still is.
unfoldable pub retire_existing :
    Config → ℕ → Ask → Option (ℕ × Payment) → Act (Option (ℕ × Payment))
retire_existing cfg now ask none = give none
retire_existing cfg now ask (some (id, existing)) = do
  reconciled ← reconcile cfg now ask id existing
  if is_pending reconciled.status
      then (if not (can_supersede cfg now reconciled)
          then give (some (id, reconciled))
          else do mark_payment_unsuccessful now id Unsuccessful.expired true; give none)
      else give none

abbrev pub new_payment : ℕ → RecordId → Order → Payment
new_payment now order_id order = record {
  order_id = order_id;
  status = PaymentStatus.pending;
  amount = order.total_amount;
  checkout_request_id = none;
  mpesa_receipt_number = none;
  result_code = ResultCode.absent;
  stk_expires_at = none;
  last_polled_at = none;
  is_verifying = false;
  created_at = now;
}

unfoldable pub create_payment : Payment → Act RecordId
create_payment p = do
  id ← read (λ s. length s.payments)
  write (λ s. record s { payments = s.payments ++ p ∷ [] })
  give id

abbrev pub pushed : Config → ℕ → ℕ → Payment → Payment
pushed cfg now request p = record p {
  checkout_request_id = some request;
  stk_expires_at = some (now + cfg.stk_validity_seconds * 1_000);
}

abbrev pub push_failed : Payment → Payment
push_failed p = record p { status = PaymentStatus.failed }

-- The `try` block on the STK push.
unfoldable pub send_push : Config → ℕ → Option ℕ → RecordId → Act (ℕ × Payment)
send_push cfg now none id = update_payment id push_failed >> throw could_not_initiate
send_push cfg now (some request) id = do
  update_payment id (pushed cfg now request)
  updated ← demand_payment id
  notify (audit_initiated id)
  give (id, updated)

unfoldable pub start_payment :
    Config → ℕ → Option ℕ → RecordId → Order → Option (ℕ × Payment) → Act (ℕ × Payment)
start_payment cfg now push order_id order (some live) = give live
start_payment cfg now push order_id order none = do
  call_orders (reopen_for_retry now order_id)
  id ← create_payment (new_payment now order_id order)
  send_push cfg now push id

unfoldable pub perform_initiation :
    Config → ℕ → Ask → Option ℕ → RecordId → RecordId → Act (ℕ × Payment)
perform_initiation cfg now ask push user order_id = do
  row ← read (λ s. find_order order_id s.shop.orders)
  order ← demand order_not_found row
  refuse_if (not (order.user_id == user)) not_your_order
  refuse_if (is_paid order.status) order_already_paid
  refuse_if (is_cancelled_order order.status) order_was_cancelled
  existing ← read (λ s. find_latest (λ p. p.created_at) (is_live_for order_id) s.payments)
  live ← retire_existing cfg now ask existing
  start_payment cfg now push order_id order live

-- `mockMarkSuccess`, for development. The receipt is drawn from the clock.
unfoldable pub mock_mark_success : Config → ℕ → RecordId → Act Payment
mock_mark_success cfg receipt id = do
  refuse_if (not cfg.enable_mock_payments) mock_disabled
  row ← read (λ s. row_at id s.payments)
  payment ← demand payment_not_found row
  refuse_if (not (is_pending payment.status)) not_pending
  mark_payment_success cfg id (some receipt)

-- The rows of the sweep: pending and created before `cutoff`, the oldest first.
abbrev pub insert_by_age : ℕ × Payment → List (ℕ × Payment) → List (ℕ × Payment)
insert_by_age p [] = p ∷ []
insert_by_age p (q ∷ qs) =
    let rest = insert_by_age p qs in
    if ltb (q.1).created_at (p.1).created_at then q ∷ rest else p ∷ q ∷ qs

abbrev pub is_stale : ℕ → Payment → Bool
is_stale cutoff p = is_pending p.status && ltb p.created_at cutoff

abbrev pub stale_rows : ℕ → ℕ → List Payment → List (ℕ × Payment)
stale_rows cutoff id [] = []
stale_rows cutoff id (p ∷ ps) =
    let rest = stale_rows cutoff (suc id) ps in
    if is_stale cutoff p then insert_by_age (id, p) rest else rest

-- `take: SWEEP_BATCH_SIZE`
abbrev pub take {ℓ} : {A : Type ℓ} → ℕ → List A → List A
take zero xs = []
take (suc n) [] = []
take (suc n) (x ∷ xs) = x ∷ take n xs

unfoldable pub reconcile_each : Config → ℕ → Ask → List (ℕ × Payment) → Act (Unit {0})
reconcile_each cfg now ask [] = give tt
reconcile_each cfg now ask ((id, p) ∷ ps) = do
  attempt (reconcile cfg now ask id p)
  reconcile_each cfg now ask ps

-- `sweepPendingPayments`, when it is enabled and no other sweep runs.
unfoldable pub sweep_pending_payments : Config → ℕ → Ask → Act (Unit {0})
sweep_pending_payments cfg now ask = do
  stale ← read (λ s. take 25 (stale_rows (now - 20_000) 0 s.payments))
  reconcile_each cfg now ask stale
