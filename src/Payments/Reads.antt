-- ===== src/Payments/Reads.antt =====
-- The reads of a payment and what they show: `findById`, `findByOrder`, `getStatus`, `toStatusView`
-- and `deriveStage`, with the stages of backend/src/payments/payment-status.ts.
use ticketflow_kenya.Base.{
  ℕ, Bool, true, false, not, ◌&&◌, ◌||◌, Option, none, some, ◌==◌, length, if◌then◌else◌,
}
use ticketflow_kenya.Base.Action.{give, read, demand, refuse_if, ◌>>=◌, ◌>>◌}
use ticketflow_kenya.Orders.{RecordId, Order, OrderStatus, find_order}
use ticketflow_kenya.Tickets.{tickets_of}
use ticketflow_kenya.Mpesa.{ResultCode}
use ticketflow_kenya.Payments.{
  Payment, PaymentStatus, Config, order_not_found, no_access, Act, is_some,
}
use ticketflow_kenya.Payments.Settle.{demand_payment}
use ticketflow_kenya.Payments.Reconcile.{Ask, reconcile}

pub data PaymentStage : Type 0 where
  initiated awaiting_customer verifying success cancelled failed expired : PaymentStage

-- Membership in FINAL_STAGES.
abbrev pub is_final : PaymentStage → Bool
is_final PaymentStage.initiated = false
is_final PaymentStage.awaiting_customer = false
is_final PaymentStage.verifying = false
is_final _ = true

-- The truth value of the column `resultCode`.
abbrev pub has_code : ResultCode → Bool
has_code ResultCode.absent = false
has_code ResultCode.empty = false
has_code _ = true

abbrev pub pending_stage : Payment → PaymentStage
pending_stage p =
    if not (is_some p.checkout_request_id)
    then PaymentStage.initiated
    else (if p.is_verifying || has_code p.result_code
        then PaymentStage.verifying
        else PaymentStage.awaiting_customer)

abbrev pub stage_by_status : PaymentStatus → Payment → PaymentStage
stage_by_status PaymentStatus.success p = PaymentStage.success
stage_by_status PaymentStatus.cancelled p = PaymentStage.cancelled
stage_by_status PaymentStatus.expired p = PaymentStage.expired
stage_by_status PaymentStatus.failed p = PaymentStage.failed
stage_by_status PaymentStatus.pending p = pending_stage p

unfoldable pub derive_stage : Payment → PaymentStage
derive_stage p = stage_by_status p.status p

pub record PaymentStatusView : Type 0 where
  pub payment_id : RecordId
  pub order_id : RecordId
  pub order_status : OrderStatus
  pub status : PaymentStatus
  pub stage : PaymentStage
  pub is_final : Bool
  pub amount : ℕ
  pub stk_sent : Bool
  pub mpesa_receipt_number : Option ℕ
  pub result_code : ResultCode
  pub expires_at : Option ℕ
  pub tickets_issued : ℕ
  pub created_at : ℕ

abbrev pub status_view : RecordId → Payment → Order → ℕ → PaymentStatusView
status_view id p order tickets = record {
  payment_id = id;
  order_id = p.order_id;
  order_status = order.status;
  status = p.status;
  stage = derive_stage p;
  is_final = is_final (derive_stage p);
  amount = p.amount;
  stk_sent = is_some p.checkout_request_id;
  mpesa_receipt_number = p.mpesa_receipt_number;
  result_code = p.result_code;
  expires_at = p.stk_expires_at;
  tickets_issued = tickets;
  created_at = p.created_at;
}

unfoldable pub to_status_view : RecordId → Payment → Act PaymentStatusView
to_status_view id p = do
  row ← read (λ s. find_order p.order_id s.shop.orders)
  order ← demand order_not_found row
  tickets ← read (λ s. length (tickets_of p.order_id s.tickets))
  give (status_view id p order tickets)

-- `role !== 'ADMIN' && payment.order.userId !== userId`, for the order of the payment.
abbrev pub may_not_see : Bool → RecordId → Option Order → Bool
may_not_see is_admin user none = not is_admin
may_not_see is_admin user (some order) = not is_admin && not (order.user_id == user)

-- What a buyer sees of the row: the request ids stay on the server.
pub record CustomerPayment : Type 0 where
  pub order_id : RecordId
  pub status : PaymentStatus
  pub amount : ℕ
  pub mpesa_receipt_number : Option ℕ
  pub result_code : ResultCode
  pub stk_expires_at : Option ℕ
  pub last_polled_at : Option ℕ
  pub is_verifying : Bool
  pub created_at : ℕ
  pub stk_sent : Bool

unfoldable pub to_customer_payment : Payment → CustomerPayment
to_customer_payment p = record {
  order_id = p.order_id;
  status = p.status;
  amount = p.amount;
  mpesa_receipt_number = p.mpesa_receipt_number;
  result_code = p.result_code;
  stk_expires_at = p.stk_expires_at;
  last_polled_at = p.last_polled_at;
  is_verifying = p.is_verifying;
  created_at = p.created_at;
  stk_sent = is_some p.checkout_request_id;
}

-- What a read shows: the whole row to an administrator.
pub data Shown : Type 0 where
  whole : Payment → Shown
  customer : CustomerPayment → Shown

abbrev pub shown_to : Bool → Payment → Shown
shown_to true p = whole p
shown_to false p = customer (to_customer_payment p)

unfoldable pub find_by_id : RecordId → Bool → RecordId → Act Shown
find_by_id user is_admin id = do
  payment ← demand_payment id
  order ← read (λ s. find_order payment.order_id s.shop.orders)
  refuse_if (may_not_see is_admin user order) no_access
  give (shown_to is_admin payment)

unfoldable pub get_status : Config → ℕ → Ask → RecordId → Bool → RecordId → Act PaymentStatusView
get_status cfg now ask user is_admin id = do
  payment ← demand_payment id
  order ← read (λ s. find_order payment.order_id s.shop.orders)
  refuse_if (may_not_see is_admin user order) no_access
  settled ← reconcile cfg now ask id payment
  to_status_view id settled
