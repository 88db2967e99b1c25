-- ===== src/Payments/Paid.antt =====
-- When a callback makes a payment successful.
use ticketflow_kenya.Base.{
  ℕ, ◌≡◌, refl, Bool, true, false, not, ◌&&◌, List, [], ◌∷◌, ◌++◌, Option, none, some, Result, ok,
  err, Bool-cases, inl, inr, ◌==◌,
}
use ticketflow_kenya.Base.Tables.{row_at, alter_at, row_at-alter_at, find_row}
use ticketflow_kenya.Base.Tables.Latest.{find_row-some}
use ticketflow_kenya.Base.Action.{read, write, give, ◌>>=◌, go_on}
use ticketflow_kenya.Base.Action.Steps.{Steps}
use ticketflow_kenya.Orders.{RecordId}
use ticketflow_kenya.Mpesa.{
  MpesaOutcome, ResultCode, StkQueryResult, CallbackItem, classify, extract_receipt, success,
}
use ticketflow_kenya.Mpesa
use ticketflow_kenya.Payments.{
  Payment, PaymentStatus, Store, Config, PaymentError, Notice, audit_received, alert_late_success,
  is_pending, is_success, Act,
}
use ticketflow_kenya.Payments.Settle.{
  notify, update_payment, claim, succeed, mark_payment_success, apply_outcome,
}
use ticketflow_kenya.Payments.Reconcile.{Ask}
use ticketflow_kenya.Payments.Callback.{
  CallbackContext, StkCallback, authenticate_callback, has_request, callback_amount,
  expected_amount, is_mismatch, is_request, check_receipt, check_claim, confirm, received,
  settle_late, settle_callback, handle_matched, handle_body, handle_mpesa_callback,
}
use ticketflow_kenya.Payments.Moves.{Moves, claimed_success-Moves}
use ticketflow_kenya.Payments.Status.{Follows, Follows-IsQuiet, Onward, Moves-Onward, ⟶-success}

-- The payment is there, and SUCCESS.
abbrev pub IsPaid : RecordId → Store → Type 0
IsPaid id s = (q : Payment) × (row_at id s.payments ≡ some q) × (is_success q.status ≡ true)

pub success-eq :
    (status : PaymentStatus) → is_success status ≡ true → status ≡ PaymentStatus.success
success-eq PaymentStatus.success h = refl
success-eq PaymentStatus.pending h = cc
success-eq PaymentStatus.failed h = cc
success-eq PaymentStatus.cancelled h = cc
success-eq PaymentStatus.expired h = cc

Onward-IsPaid : (id : RecordId) (s t : Store) → Onward s t → IsPaid id s → IsPaid id t
Onward-IsPaid id s t onward (p, here, paid) =
    let (q, there, f) = onward id p here in
    let last = ⟶-success p.status q.status f.way (success-eq p.status paid) in
    (q, there, rw last refl)

claim-IsPaid :
    (id : RecordId) (receipt : Option ℕ) (s : Store) (p : Payment)
    → row_at id s.payments ≡ some p
    → (claimed : Bool) × (t : Store) × (claim id
          (λ status. not (is_success status))
          (succeed receipt)
          s
        ≡ (ok claimed, t))
      × IsPaid id t
unfolding claim update_payment ◌>>=◌ read write give
claim-IsPaid id receipt s p here = elim (Bool-cases (is_success p.status)) [
  | inl paid ↦ (false, s, rw (here, paid) refl, (p, here, paid))
  | inr unpaid ↦ (
    true,
    record s { payments = alter_at id (succeed receipt) s.payments },
    rw (here, unpaid) refl,
    (succeed receipt p, row_at-alter_at id (succeed receipt) s.payments p here, refl),
  )
]

Steps-IsPaid :
    {A : Type 0} (m : Act A) (id : RecordId) (s : Store)
    → Steps (Moves Follows) m
    → IsPaid id s
    → IsPaid id (m s).1
Steps-IsPaid m id s h paid = Onward-IsPaid id s (m s).1 (Moves-Onward s (m s).1 (h.at s)) paid

-- `markPaymentSuccess` makes the payment SUCCESS, whether the rest of it returns or throws.
success-IsPaid :
    (cfg : Config) (id : RecordId) (receipt : Option ℕ) (s : Store) (p : Payment)
    → row_at id s.payments ≡ some p
    → IsPaid id (mark_payment_success cfg id receipt s).1
unfolding mark_payment_success ◌>>=◌
success-IsPaid cfg id receipt s p here =
    let (claimed, t, e, paid) = claim-IsPaid id receipt s p here in
    rw e (Steps-IsPaid _ id t (claimed_success-Moves Follows Follows-IsQuiet cfg id claimed) paid)

-- A call after which nothing more is written.
ended-IsPaid :
    (id : RecordId) (r : Result PaymentError Payment × Store)
    → IsPaid id r.1
    → IsPaid id (go_on (λ _. give tt) r).1
unfolding give
ended-IsPaid id (ok p, t) paid = paid
ended-IsPaid id (err e, t) paid = paid

updated_success-IsPaid :
    (cfg : Config) (id : RecordId) (receipt : Option ℕ) (change : Payment → Payment) (s : Store)
    (p : Payment) (notices : List Notice)
    → row_at id s.payments ≡ some p
    → IsPaid id
        (go_on
          (λ _. give tt)
          (mark_payment_success cfg id receipt
            (record s { payments = alter_at id change s.payments; notices = notices }))).1
updated_success-IsPaid cfg id receipt change s p notices here =
    let t : Store = record s { payments = alter_at id change s.payments; notices = notices } in
    ended-IsPaid id (mark_payment_success cfg id receipt t)
      (success-IsPaid cfg id receipt t (change p) (row_at-alter_at id change s.payments p here))

settled-IsPaid :
    (cfg : Config) (now id : ℕ) (p : Payment) (cb : StkCallback) (s : Store)
    → row_at id s.payments ≡ some p
    → is_success p.status ≡ false
    → IsPaid id (settle_callback cfg now id p cb (some success) s).1
unfolding settle_callback settle_late update_payment notify apply_outcome write ◌>>=◌
settled-IsPaid cfg now id p cb s here unpaid = elim (Bool-cases (is_pending p.status)) [
  | inl pending ↦ rw pending (
      updated_success-IsPaid cfg id (extract_receipt cb.callback_metadata) (received cb.result_code)
        s p s.notices here)
  | inr settled ↦
      rw (settled, unpaid)
        (updated_success-IsPaid cfg id (extract_receipt cb.callback_metadata)
          (received cb.result_code) s p (s.notices ++ alert_late_success id ∷ []) here)
]

-- No other payment has the receipt.
abbrev pub IsFresh : RecordId → Option ℕ → List Payment → Type 0
IsFresh id none payments = Unit
IsFresh id (some receipt) payments =
    find_row (λ i q. is_request receipt q.mpesa_receipt_number && not (i == id)) payments ≡ none

check_receipt-passes :
    (id : RecordId) (receipt : Option ℕ) (s : Store)
    → IsFresh id receipt s.payments
    → check_receipt id receipt s ≡ (ok false, s)
unfolding check_receipt read give ◌>>=◌
check_receipt-passes id none s fresh = refl
check_receipt-passes id (some r) s fresh = rw fresh refl

check_claim-passes :
    (id : RecordId) (p : Payment) (cb : StkCallback) (s : Store)
    → is_mismatch (callback_amount cb.callback_metadata) (expected_amount p) ≡ false
    → IsFresh id (extract_receipt cb.callback_metadata) s.payments
    → check_claim id p cb s ≡ (ok false, s)
unfolding check_claim give
check_claim-passes id p cb s right fresh =
    elim (Bool-cases (Mpesa.is_success (classify cb.result_code))) [
      | inl claims ↦
          rw (claims, right)
            (check_receipt-passes id (extract_receipt cb.callback_metadata) s fresh)
      | inr other ↦ rw other refl
    ]

-- A callback that is authenticated by the token, where callbacks need no confirmation, claims a success,
-- states the amount that is due or none, and whose receipt no other payment has, makes the
-- payment that it is matched to SUCCESS, if it is not yet: also one that was written off.
pub callback_pays :
    (cfg : Config) (now : ℕ) (ask : Ask) (ctx : CallbackContext) (cb : StkCallback) (s : Store)
    (id : RecordId) (p : Payment)
    → authenticate_callback cfg ctx ≡ record { accepted = true; authenticated = true }
    → cfg.require_query_confirmation ≡ false
    → find_row (has_request cb.checkout_request_id) s.payments ≡ some (id, p)
    → is_success p.status ≡ false
    → classify cb.result_code ≡ success
    → is_mismatch (callback_amount cb.callback_metadata) (expected_amount p) ≡ false
    → IsFresh id (extract_receipt cb.callback_metadata) s.payments
    → IsPaid id (handle_mpesa_callback cfg now ask ctx (some cb) s).1
unfolding handle_mpesa_callback handle_body handle_matched confirm notify read write give ◌>>=◌
callback_pays cfg now ask ctx cb s id p auth sure found unpaid claims right fresh =
    let here = find_row-some (has_request cb.checkout_request_id) s.payments id p found in
    let t : Store = record s { notices = s.notices ++ audit_received id ∷ [] } in
    rw (auth, found, check_claim-passes id p cb t right fresh, sure, claims)
      (settled-IsPaid cfg now id p cb t here unpaid)
