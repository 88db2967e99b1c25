-- ===== src/Payments.antt =====
-- Payments: `PaymentsService` of backend/src/payments/payments.service.ts, on top of the orders, the
-- tickets and the M-Pesa client. The data here, the operations in the modules below. Amounts are
-- in cents, times in milliseconds. The texts that are only shown (phone, description, raw callback,
-- merchant request id) are left out.
pub mod Settle
pub mod Reconcile
pub mod Callback
pub mod Initiate
pub mod Reads
pub mod Trace
pub mod Moves
pub mod Handlers
pub mod Status
pub mod Shop
pub mod Issued
pub mod Fulfilled
pub mod Live
pub mod Retire
pub mod Single
pub mod Evidence
pub mod Settled
pub mod Paid
pub mod Bought
pub mod Priced
mod Tests
use ticketflow_kenya.Base.{
  ℕ, ◌+◌, ◌*◌, Bool, true, false, not, List, [], ◌∷◌, ◌++◌, Option, none, some, Result, ok, err,
}
use ticketflow_kenya.Base.Action.{Action}
use ticketflow_kenya.Orders.{RecordId, Order}
use ticketflow_kenya.Orders
use ticketflow_kenya.Tickets.{Ticket}
use ticketflow_kenya.Mpesa.{ResultCode, MpesaOutcome}

pub data PaymentStatus : Type 0 where
  pending success failed cancelled expired : PaymentStatus

-- The row of a payment. The order is fixed by the foreign key.
pub record Payment : Type 0 where
  pub order_id : RecordId
  pub status : PaymentStatus
  pub amount : ℕ
  pub checkout_request_id : Option ℕ
  pub mpesa_receipt_number : Option ℕ
  pub result_code : ResultCode
  pub stk_expires_at : Option ℕ
  pub last_polled_at : Option ℕ
  pub is_verifying : Bool
  pub created_at : ℕ

-- A row of `platform_commissions`.
pub record Commission : Type 0 where
  pub order_id : RecordId
  pub percent_applied : ℕ
  pub amount : ℕ

-- The `CheckoutRequestID` of a callback's body, which may be missing or null.
pub data RequestField : Type 0 where
  undefined null : RequestField
  given : ℕ → RequestField

-- The calls of the audit log, of the operational alerts and of the job queue, which are other
-- services. The ids are the payment's, the order's or the ticket type's.
pub data Notice : Type 0 where
  audit_rejected alert_rejected : Notice
  audit_received audit_initiated audit_success : RecordId → Notice
  audit_unsuccessful : PaymentStatus → RecordId → Notice
  alert_amount_mismatch alert_late_success alert_oversold : RecordId → Notice
  alert_duplicate_receipt alert_double_charge : RecordId → RecordId → Notice
  alert_conflict : MpesaOutcome → MpesaOutcome → RecordId → Notice
  alert_unmatched : RequestField → Notice
  job_failed_notice : ℕ → RecordId → Notice

-- The tables. A payment's id is its position in the list. The notices stand in the order of the
-- calls.
pub record Store : Type 0 where
  pub shop : Orders.Store
  pub payments : List Payment
  pub tickets : List Ticket
  pub commissions : List Commission
  pub notices : List Notice

-- The settings, the durations in seconds but for the query interval, which is in milliseconds.
pub record Config : Type 0 where
  pub stk_validity_seconds : ℕ
  pub query_after_seconds : ℕ
  pub query_interval_ms : ℕ
  pub hard_expiry_seconds : ℕ
  pub commission_percent : ℕ
  pub callback_allowed_ips : List ℕ
  pub callback_token : Option ℕ
  pub require_query_confirmation : Bool
  pub enable_mock_payments : Bool

-- The exceptions, by their message, with those of the other services.
pub data PaymentError : Type 0 where
  order_not_found not_your_order order_already_paid order_was_cancelled : PaymentError
  could_not_initiate payment_not_found no_access : PaymentError
  mock_disabled not_pending tickets_refused : PaymentError
  from_orders : Orders.OrderError → PaymentError

abbrev pub Act : Type 0 → Type 0
Act A = Action PaymentError Store A

abbrev pub is_pending : PaymentStatus → Bool
is_pending PaymentStatus.pending = true
is_pending _ = false

abbrev pub is_success : PaymentStatus → Bool
is_success PaymentStatus.success = true
is_success _ = false

abbrev pub is_failed : PaymentStatus → Bool
is_failed PaymentStatus.failed = true
is_failed _ = false

abbrev pub is_some {ℓ} : {A : Type ℓ} → Option A → Bool
is_some none = false
is_some (some a) = true

abbrev pub or_else {ℓ} : {A : Type ℓ} → Option A → Option A → Option A
or_else (some a) o = some a
or_else none o = o
