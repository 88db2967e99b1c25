-- ===== src/Payments/Settle.antt =====
-- The terminal transitions of a payment: `markPaymentSuccess`, `markPaymentUnsuccessful` and
-- `applyOutcome`. A failure of the query for oversold tiers, which the source ignores, is left out.
use ticketflow_kenya.Base.{
  ℕ, ◌+◌, Bool, true, false, not, ◌&&◌, List, [], ◌∷◌, ◌++◌, Option, none, some, Result, ok, err,
  ◌==◌, ltb, if◌then◌else◌,
}
use ticketflow_kenya.Base.Tables.{row_at, alter_at, find_row}
use ticketflow_kenya.Base.Action.{give, throw, read, write, demand, ◌>>=◌, ◌>>◌}
use ticketflow_kenya.Orders.{
  RecordId, Order, OrderItem, TicketType, TicketTypes, Checked, find_order,
}
use ticketflow_kenya.Orders
use ticketflow_kenya.Orders.Service.{mark_paid, mark_failed}
use ticketflow_kenya.Tickets.{Ticket, TicketError, generate_for_order}
use ticketflow_kenya.Mpesa.{MpesaOutcome, CallbackItem, extract_receipt}
use ticketflow_kenya.Payments.{
  PaymentStatus, Payment, Commission, Notice, alert_double_charge, alert_oversold, audit_success,
  audit_unsuccessful, job_failed_notice, Store, Config, payment_not_found, tickets_refused,
  from_orders, Act, is_pending, is_success, is_failed, or_else,
}

unfoldable pub notify : Notice → Act (Unit {0})
notify n = write (λ s. record s { notices = s.notices ++ n ∷ [] })

-- `prisma.payment.update({ where: { id } })`
unfoldable pub update_payment : RecordId → (Payment → Payment) → Act (Unit {0})
update_payment id change = write (λ s. record s { payments = alter_at id change s.payments })

-- `findUniqueOrThrow`
unfoldable pub demand_payment : RecordId → Act Payment
demand_payment id = do row ← read (λ s. row_at id s.payments); demand payment_not_found row

abbrev pub matches : (PaymentStatus → Bool) → Option Payment → Bool
matches test none = false
matches test (some p) = test p.status

-- `updateMany` where the id and the status match: whether a row was changed.
unfoldable pub claim : RecordId → (PaymentStatus → Bool) → (Payment → Payment) → Act Bool
claim id test change = do
  row ← read (λ s. row_at id s.payments)
  if matches test row then update_payment id change >> give true else give false

-- A call of the orders' service that may throw.
unfoldable pub put_shop : Checked Orders.Store → Act (Unit {0})
put_shop (ok shop) = write (λ s. record s { shop = shop })
put_shop (err e) = throw (from_orders e)

unfoldable pub call_orders : (Orders.Store → Checked Orders.Store) → Act (Unit {0})
call_orders call = do result ← read (λ s. call s.shop); put_shop result

unfoldable pub put_tickets : Result TicketError (List Ticket × List Ticket) → Act (Unit {0})
put_tickets (ok (issued, all)) = write (λ s. record s { tickets = all })
put_tickets (err e) = throw tickets_refused

unfoldable pub issue_tickets : RecordId → Act (Unit {0})
issue_tickets id = do
  result ← read (λ s. generate_for_order id (find_order id s.shop.orders) s.tickets)
  put_tickets result

abbrev pub has_commission : RecordId → List Commission → Bool
has_commission id [] = false
has_commission id (c ∷ cs) =
    let rest = has_commission id cs in if c.order_id == id then true else rest

-- `upsert` with an empty update.
abbrev pub upsert_commission : Config → RecordId → Option Order → Store → Store
upsert_commission cfg id none s = s
upsert_commission cfg id (some order) s = if has_commission id s.commissions then s else record s {
  commissions =
      s.commissions
      ++ (record {
        order_id = id;
        percent_applied = cfg.commission_percent;
        amount = order.platform_fee;
      })
        ∷ [];
}

abbrev pub is_oversold : Option TicketType → Bool
is_oversold none = false
is_oversold (some t) = ltb t.quantity t.quantity_sold

-- The rows of the raw query, one for each item of the order whose tier is oversold.
abbrev pub oversold_alerts : TicketTypes → List OrderItem → List Notice
oversold_alerts types [] = []
oversold_alerts types (item ∷ items) =
    let rest = oversold_alerts types items in
    if is_oversold (types item.ticket_type_id)
    then alert_oversold item.ticket_type_id ∷ rest
    else rest

abbrev pub items_of : Option Order → List OrderItem
items_of none = []
items_of (some o) = o.items

unfoldable pub alert_oversold_tiers : RecordId → Act (Unit {0})
alert_oversold_tiers order_id = write (λ s. record s {
  notices =
      s.notices
      ++ oversold_alerts s.shop.ticket_types (items_of (find_order order_id s.shop.orders));
})

abbrev pub is_other_success : RecordId → RecordId → RecordId → Payment → Bool
is_other_success order_id id i p = p.order_id == order_id && is_success p.status && not (i == id)

unfoldable pub alert_if_other : RecordId → RecordId → Option (ℕ × Payment) → Act (Unit {0})
alert_if_other order_id id none = give tt
alert_if_other order_id id (some (other, p)) = notify (alert_double_charge order_id other)

-- `markPaymentSuccess` after the claim.
unfoldable pub finish_success : Config → RecordId → Payment → Act Payment
finish_success cfg id payment = do
  other ← read (λ s. find_row (is_other_success payment.order_id id) s.payments)
  alert_if_other payment.order_id id other
  call_orders (mark_paid payment.order_id)
  order ← read (λ s. find_order payment.order_id s.shop.orders)
  write (upsert_commission cfg payment.order_id order)
  issue_tickets payment.order_id
  alert_oversold_tiers payment.order_id
  notify (audit_success id)
  give payment

abbrev pub succeed : Option ℕ → Payment → Payment
succeed receipt p = record p {
  status = PaymentStatus.success;
  is_verifying = false;
  mpesa_receipt_number = or_else receipt p.mpesa_receipt_number;
}

unfoldable pub mark_payment_success : Config → RecordId → Option ℕ → Act Payment
mark_payment_success cfg id receipt = do
  claimed ← claim id (λ status. not (is_success status)) (succeed receipt)
  payment ← demand_payment id
  if claimed then finish_success cfg id payment else give payment

-- `Extract<PaymentStatus, 'CANCELLED' | 'EXPIRED' | 'FAILED'>`
pub data Unsuccessful : Type 0 where
  cancelled expired failed : Unsuccessful

abbrev pub status_of : Unsuccessful → PaymentStatus
status_of Unsuccessful.cancelled = PaymentStatus.cancelled
status_of Unsuccessful.expired = PaymentStatus.expired
status_of Unsuccessful.failed = PaymentStatus.failed

abbrev pub settle : Unsuccessful → Payment → Payment
settle u p = record p { status = status_of u; is_verifying = false }

unfoldable pub fail_order : RecordId → Act (Unit {0})
fail_order order_id = write (λ s. record s { shop = mark_failed order_id s.shop })

-- `markPaymentUnsuccessful` after the claim.
unfoldable pub finish_unsuccessful : ℕ → RecordId → Unsuccessful → Bool → Payment → Act Payment
finish_unsuccessful now id u release payment = do
  if release then fail_order payment.order_id else give tt
  if is_failed (status_of u) && release
      then notify (job_failed_notice (now + 300_000) id)
      else give tt
  notify (audit_unsuccessful (status_of u) id)
  give payment

unfoldable pub mark_payment_unsuccessful : ℕ → RecordId → Unsuccessful → Bool → Act Payment
mark_payment_unsuccessful now id u release = do
  claimed ← claim id is_pending (settle u)
  payment ← demand_payment id
  if claimed then finish_unsuccessful now id u release payment else give payment

unfoldable pub apply_outcome :
    Config → ℕ → RecordId → MpesaOutcome → List CallbackItem → Act Payment
apply_outcome cfg now id MpesaOutcome.success items =
    mark_payment_success cfg id (extract_receipt items)
apply_outcome cfg now id MpesaOutcome.cancelled items =
    mark_payment_unsuccessful now id Unsuccessful.cancelled true
apply_outcome cfg now id MpesaOutcome.expired items =
    mark_payment_unsuccessful now id Unsuccessful.expired true
apply_outcome cfg now id MpesaOutcome.failed items =
    mark_payment_unsuccessful now id Unsuccessful.failed true
apply_outcome cfg now id MpesaOutcome.processing items = demand_payment id
