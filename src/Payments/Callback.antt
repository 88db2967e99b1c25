-- ===== src/Payments/Callback.antt =====
-- `handleMpesaCallback`. Every branch acknowledges, so a call that returns has no value.
use ticketflow_kenya.Base.{
  ℕ, ◌+◌, ◌/◌, Bool, true, false, not, ◌&&◌, ◌||◌, List, [], ◌∷◌, Option, none, some, ◌==◌,
  if◌then◌else◌,
}
use ticketflow_kenya.Base.Tables.{find_row}
use ticketflow_kenya.Base.Action.{give, read, ◌>>=◌, ◌>>◌}
use ticketflow_kenya.Orders.{RecordId}
use ticketflow_kenya.Mpesa.{
  MpesaOutcome, ResultCode, absent, other_text, ItemValue, CallbackItem, StkQueryResult, classify,
  is_success, is_processing, find_value, is_amount_name, extract_receipt,
}
use ticketflow_kenya.Payments.{
  RequestField, undefined, null, given, Payment, PaymentStatus, Notice, audit_rejected,
  alert_rejected, audit_received, alert_unmatched, alert_amount_mismatch, alert_duplicate_receipt,
  alert_conflict, alert_late_success, Store, Config, Act, is_pending, is_some, or_else,
}
use ticketflow_kenya.Payments
use ticketflow_kenya.Payments.Settle.{notify, update_payment, mark_payment_success, apply_outcome}
use ticketflow_kenya.Payments.Reconcile.{Ask}

-- The token of the URL, and the client's address without a leading `::ffff:`.
pub record CallbackContext : Type 0 where
  pub token : Option ℕ
  pub source_ip : Option ℕ

pub record StkCallback : Type 0 where
  pub checkout_request_id : RequestField
  pub result_code : ResultCode
  pub callback_metadata : List CallbackItem

pub record Authentication : Type 0 where
  pub accepted : Bool
  pub authenticated : Bool

abbrev pub contains : ℕ → List ℕ → Bool
contains n [] = false
contains n (k ∷ ks) = (n == k) || contains n ks

abbrev pub is_allowed_ip : List ℕ → Option ℕ → Bool
is_allowed_ip [] ip = true
is_allowed_ip (a ∷ more) none = false
is_allowed_ip (a ∷ more) (some ip) = contains ip (a ∷ more)

abbrev pub same_token : ℕ → Option ℕ → Bool
same_token expected none = false
same_token expected (some token) = expected == token

abbrev pub check_token : Option ℕ → Option ℕ → Authentication
check_token none token = record { accepted = true; authenticated = false }
check_token (some expected) token =
    let same = same_token expected token in record { accepted = same; authenticated = same }

abbrev pub authenticate_callback : Config → CallbackContext → Authentication
authenticate_callback cfg ctx =
    if is_allowed_ip cfg.callback_allowed_ips ctx.source_ip
    then check_token cfg.callback_token ctx.token
    else record { accepted = false; authenticated = false }

abbrev pub is_request : ℕ → Option ℕ → Bool
is_request r none = false
is_request r (some q) = r == q

-- `findFirst({ where: { checkoutRequestId } })`: for an undefined value there is no condition.
abbrev pub has_request : RequestField → ℕ → Payment → Bool
has_request undefined i p = true
has_request null i p = not (is_some p.checkout_request_id)
has_request (given r) i p = is_request r p.checkout_request_id

abbrev pub amount_of : Option ItemValue → Option (Option ℕ)
amount_of none = none
amount_of (some v) = some v.as_number

-- `callbackAmount`: none when it is undefined, then whether it is a whole number.
abbrev pub callback_amount : List CallbackItem → Option (Option ℕ)
callback_amount items = amount_of (find_value is_amount_name items)

-- `Math.ceil(Number(payment.amount))`
abbrev pub expected_amount : Payment → ℕ
expected_amount p = (p.amount + 99) / 100

-- `paid !== undefined && paid !== expected`
abbrev pub is_mismatch : Option (Option ℕ) → ℕ → Bool
is_mismatch none expected = false
is_mismatch (some none) expected = true
is_mismatch (some (some paid)) expected = not (paid == expected)

abbrev pub alert_if_reused : RecordId → Option (ℕ × Payment) → Act Bool
alert_if_reused id none = give false
alert_if_reused id (some (other, p)) = notify (alert_duplicate_receipt id other) >> give true

unfoldable pub check_receipt : RecordId → Option ℕ → Act Bool
check_receipt id none = give false
check_receipt id (some receipt) = do
  reused ←
      read (λ s.
        find_row (λ i p. is_request receipt p.mpesa_receipt_number && not (i == id)) s.payments)
  alert_if_reused id reused

-- The checks on a claimed success: whether the call is over.
unfoldable pub check_claim : RecordId → Payment → StkCallback → Act Bool
check_claim id payment cb =
    if is_success (classify cb.result_code)
    then (if is_mismatch (callback_amount cb.callback_metadata) (expected_amount payment)
        then notify (alert_amount_mismatch id) >> give true
        else check_receipt id (extract_receipt cb.callback_metadata))
    else give false

abbrev pub same_outcome : MpesaOutcome → MpesaOutcome → Bool
same_outcome MpesaOutcome.success MpesaOutcome.success = true
same_outcome MpesaOutcome.cancelled MpesaOutcome.cancelled = true
same_outcome MpesaOutcome.expired MpesaOutcome.expired = true
same_outcome MpesaOutcome.failed MpesaOutcome.failed = true
same_outcome MpesaOutcome.processing MpesaOutcome.processing = true
same_outcome _ _ = false

abbrev pub verifying : Payment → Payment → Payment
verifying payment p = record p {
  is_verifying = if is_pending payment.status then true else payment.is_verifying;
}

-- The outcome that Daraja's own answer gives, none if there is no answer.
unfoldable pub confirm_with :
    StkQueryResult → RecordId → Payment → MpesaOutcome → Act (Option MpesaOutcome)
confirm_with answer id payment claimed =
    if answer.unavailable || is_processing answer.outcome
    then update_payment id (verifying payment) >> give none
    else do
      if same_outcome answer.outcome claimed
          then give tt
          else notify (alert_conflict claimed answer.outcome id)
      give (some answer.outcome)

unfoldable pub confirm :
    Config → Ask → Authentication → RecordId → Payment → MpesaOutcome → Act (Option MpesaOutcome)
confirm cfg ask auth id payment claimed =
    if not auth.authenticated || cfg.require_query_confirmation
    then confirm_with (ask payment.checkout_request_id) id payment claimed
    else give (some claimed)

-- `String(ResultCode)`
abbrev pub code_text : ResultCode → ResultCode
code_text absent = other_text
code_text c = c

abbrev pub received : ResultCode → Payment → Payment
received c p = record p { result_code = code_text c; is_verifying = false }

abbrev pub with_receipt : Option ℕ → Payment → Payment
with_receipt receipt p = record p { mpesa_receipt_number = or_else receipt p.mpesa_receipt_number }

-- The branch for a payment that is settled already.
unfoldable pub settle_late :
    Config → RecordId → Payment → StkCallback → MpesaOutcome → Act (Unit {0})
settle_late cfg id payment cb outcome =
    if is_success outcome && not (Payments.is_success payment.status)
    then (do
      update_payment id (received cb.result_code)
      notify (alert_late_success id)
      mark_payment_success cfg id (extract_receipt cb.callback_metadata)
      give tt)
    else (if is_success outcome && not (is_some payment.mpesa_receipt_number)
        then update_payment id (with_receipt (extract_receipt cb.callback_metadata))
        else give tt)

unfoldable pub settle_callback :
    Config → ℕ → RecordId → Payment → StkCallback → Option MpesaOutcome → Act (Unit {0})
settle_callback cfg now id payment cb none = give tt
settle_callback cfg now id payment cb (some outcome) =
    if not (is_pending payment.status) then settle_late cfg id payment cb outcome else do
      update_payment id (received cb.result_code)
      apply_outcome cfg now id outcome cb.callback_metadata
      give tt

unfoldable pub handle_matched :
    Config → ℕ → Ask → Authentication → StkCallback → Option (ℕ × Payment) → Act (Unit {0})
handle_matched cfg now ask auth cb none =
    if auth.authenticated then notify (alert_unmatched cb.checkout_request_id) else give tt
handle_matched cfg now ask auth cb (some (id, payment)) = do
  notify (audit_received id)
  over ← check_claim id payment cb
  if over then give tt else do
    outcome ← confirm cfg ask auth id payment (classify cb.result_code)
    settle_callback cfg now id payment cb outcome

unfoldable pub handle_body : Config → ℕ → Ask → Authentication → Option StkCallback → Act (Unit {0})
handle_body cfg now ask auth none = give tt
handle_body cfg now ask auth (some cb) = do
  payment ← read (λ s. find_row (has_request cb.checkout_request_id) s.payments)
  handle_matched cfg now ask auth cb payment

unfoldable pub handle_mpesa_callback :
    Config → ℕ → Ask → CallbackContext → Option StkCallback → Act (Unit {0})
handle_mpesa_callback cfg now ask ctx body =
    let auth = authenticate_callback cfg ctx in
    if not auth.accepted
    then notify audit_rejected >> notify alert_rejected
    else handle_body cfg now ask auth body
