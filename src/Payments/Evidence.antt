-- ===== src/Payments/Evidence.antt =====
-- What it takes for a callback to make a payment successful.
use ticketflow_kenya.Base.{
  ℕ, ◌≡◌, refl, Bool, true, false, not, ◌||◌, List, Option, none, some, ◌⊎◌, inl, inr,
}
use ticketflow_kenya.Base.Tables.{find_row}
use ticketflow_kenya.Base.Action.Steps.{
  IsChain, Steps, Steps-if, Steps-give, Steps-read, Steps-bind, steps_rules,
}
use ticketflow_kenya.Base.Action.Gives.{Gives, Gives-give, Gives-if, Gives-bind, Steps-bind-Gives}
use ticketflow_kenya.Orders.{RecordId}
use ticketflow_kenya.Mpesa.{
  MpesaOutcome, ResultCode, StkQueryResult, CallbackItem, classify, is_success, is_processing,
}
use ticketflow_kenya.Payments.{
  Notice, audit_received, audit_rejected, alert_rejected, Payment, PaymentStatus, RequestField,
  Store, Config, PaymentError, Act, is_pending, is_some,
}
use ticketflow_kenya.Payments
use ticketflow_kenya.Payments.Settle.{
  Unsuccessful, status_of, settle, update_payment, mark_payment_success, mark_payment_unsuccessful,
  apply_outcome, notify,
}
use ticketflow_kenya.Payments.Reconcile.{Ask}
use ticketflow_kenya.Payments.Callback.{
  CallbackContext, StkCallback, Authentication, authenticate_callback, has_request, confirm_with,
  confirm, received, settle_late, settle_callback, handle_matched, handle_body,
  handle_mpesa_callback,
}
use ticketflow_kenya.Payments.Handlers.{IsHandled, check_claim-Steps, confirm-Steps}
use ticketflow_kenya.Payments.Moves.{Moves, IsQuiet, Moves-IsHandled}

-- A payment that is successful after a change was so before it.
pub record StaysUnpaid (p q : Payment) : Type 0 where
  pub was_success : Payments.is_success q.status ≡ true → Payments.is_success p.status ≡ true

status_of-success : (u : Unsuccessful) → Payments.is_success (status_of u) ≡ false
status_of-success Unsuccessful.cancelled = refl
status_of-success Unsuccessful.expired = refl
status_of-success Unsuccessful.failed = refl

StaysUnpaid-IsQuiet : IsQuiet StaysUnpaid
StaysUnpaid-IsQuiet = record {
  whole = λ p. record { was_success = λ h. h };
  twice = λ p q r h k. record { was_success = λ l. h.was_success (k.was_success l) };
  kept = λ p q st o a. record { was_success = λ h. rw st at h };
  settled = λ u p h. record { was_success = λ l. cc (l, status_of-success u) };
}

-- No payment becomes successful.
abbrev pub NonePaid : Store → Store → Type 0
NonePaid = Moves StaysUnpaid

handled : IsHandled NonePaid
handled = Moves-IsHandled StaysUnpaid StaysUnpaid-IsQuiet

chain-rule : IsChain NonePaid
chain-rule = handled.chain

receives-rule : (id : ℕ) (c : ResultCode) → Steps NonePaid (update_payment id (received c))
receives-rule = handled.receives

fails-rule :
    (now : ℕ) (id : RecordId) (u : Unsuccessful) (release : Bool)
    → Steps NonePaid (mark_payment_unsuccessful now id u release)
fails-rule = handled.fails

-- An outcome that is not a success.
abbrev IsUnconfirmed : Option MpesaOutcome → Type 0
IsUnconfirmed none = Unit
IsUnconfirmed (some o) = is_success o ≡ false

apply_outcome-NonePaid :
    (cfg : Config) (now id : ℕ) (o : MpesaOutcome) (items : List CallbackItem)
    → is_success o ≡ false
    → Steps NonePaid (apply_outcome cfg now id o items)
unfolding apply_outcome
apply_outcome-NonePaid cfg now id MpesaOutcome.success items h = cc
apply_outcome-NonePaid cfg now id MpesaOutcome.cancelled items h = fails-rule now id _ true
apply_outcome-NonePaid cfg now id MpesaOutcome.expired items h = fails-rule now id _ true
apply_outcome-NonePaid cfg now id MpesaOutcome.failed items h = fails-rule now id _ true
apply_outcome-NonePaid cfg now id MpesaOutcome.processing items h =
    unfold Payments.Settle.demand_payment in search (steps_rules, chain-rule)

settle_callback-NonePaid :
    (cfg : Config) (now id : ℕ) (p : Payment) (cb : StkCallback) (o : Option MpesaOutcome)
    → IsUnconfirmed o
    → Steps NonePaid (settle_callback cfg now id p cb o)
unfolding settle_callback settle_late
settle_callback-NonePaid cfg now id p cb none h = search (steps_rules, chain-rule)
settle_callback-NonePaid cfg now id p cb (some o) h = rw h (
    Steps-if (not (is_pending p.status)) _ _ (λ _. Steps-give chain-rule tt)
      (λ _. Steps-bind chain-rule _ _ (receives-rule id cb.result_code) (λ _.
        Steps-bind chain-rule _ _ (apply_outcome-NonePaid cfg now id o cb.callback_metadata h)
          (λ _. Steps-give chain-rule tt))))

confirm_with-Gives :
    (r : StkQueryResult) (id : ℕ) (p : Payment) (o : MpesaOutcome)
    → is_success r.outcome ≡ false
    → Gives IsUnconfirmed (confirm_with r id p o)
unfolding confirm_with
confirm_with-Gives r id p o h =
    Gives-if (r.unavailable || is_processing r.outcome) _ _
      (λ _. Gives-bind _ _ (λ _. Gives-give none tt))
      (λ _. Gives-bind _ _ (λ _. Gives-give (some r.outcome) h))

confirm-Gives :
    (cfg : Config) (ask : Ask) (auth : Authentication) (id : ℕ) (p : Payment) (o : MpesaOutcome)
    → is_success (ask p.checkout_request_id).outcome ≡ false
    → (not auth.authenticated || cfg.require_query_confirmation ≡ true) ⊎ (is_success o ≡ false)
    → Gives IsUnconfirmed (confirm cfg ask auth id p o)
unfolding confirm
confirm-Gives cfg ask auth id p o denied unproved =
    Gives-if (not auth.authenticated || cfg.require_query_confirmation) _ _
      (λ _. confirm_with-Gives (ask p.checkout_request_id) id p o denied)
      (λ proved.
        Gives-give (some o)
          (elim unproved [ inl asked ↦ cc (asked, proved) | inr failure ↦ failure ]))

notify-rule : (n : Notice) → Steps NonePaid (notify n)
notify-rule = handled.notifies

-- A callback that does not count by itself, or claims no success, with no success from Daraja.
handle_matched-NonePaid :
    (cfg : Config) (now : ℕ) (ask : Ask) (auth : Authentication) (cb : StkCallback)
    (row : Option (ℕ × Payment))
    → ((request : Option ℕ) → is_success (ask request).outcome ≡ false)
    → (not auth.authenticated || cfg.require_query_confirmation ≡ true)
      ⊎ (is_success (classify cb.result_code) ≡ false)
    → Steps NonePaid (handle_matched cfg now ask auth cb row)
unfolding handle_matched
handle_matched-NonePaid cfg now ask auth cb none denied unproved =
    search (steps_rules, chain-rule, notify-rule) depth 10
handle_matched-NonePaid cfg now ask auth cb (some (id, p)) denied unproved =
    let claimed = classify cb.result_code in
    Steps-bind chain-rule _ _ (notify-rule (audit_received id)) (λ _.
      Steps-bind chain-rule _ _ (check_claim-Steps NonePaid handled id p cb) (λ over.
        Steps-if over _ _ (λ _. Steps-give chain-rule tt)
          (λ _.
            Steps-bind-Gives chain-rule _ _
              (confirm-Steps NonePaid handled cfg ask auth id p claimed)
              (confirm-Gives cfg ask auth id p claimed (denied p.checkout_request_id) unproved)
              (settle_callback-NonePaid cfg now id p cb))))

-- When Daraja's status query answers SUCCESS for no request, a callback makes no payment SUCCESS,
-- whatever its body says, if it is not authenticated by the token or if every callback has to be
-- confirmed; nor does an authenticated one whose result code is not a success.
pub callback_needs_evidence :
    (cfg : Config) (now : ℕ) (ask : Ask) (ctx : CallbackContext) (cb : StkCallback) (s : Store)
    → ((request : Option ℕ) → is_success (ask request).outcome ≡ false)
    → (not (authenticate_callback cfg ctx).authenticated || cfg.require_query_confirmation ≡ true)
      ⊎ (is_success (classify cb.result_code) ≡ false)
    → NonePaid s (handle_mpesa_callback cfg now ask ctx (some cb) s).1
unfolding handle_mpesa_callback handle_body
callback_needs_evidence cfg now ask ctx cb s denied unproved =
    let auth = authenticate_callback cfg ctx in
    (Steps-if (not auth.accepted) _ _
        (λ _.
          Steps-bind chain-rule _ _ (notify-rule audit_rejected) (λ _. notify-rule alert_rejected))
        (λ _.
          Steps-bind chain-rule _ _
            (Steps-read chain-rule
              (λ (t : Store). find_row (has_request cb.checkout_request_id) t.payments))
            (λ row. handle_matched-NonePaid cfg now ask auth cb row denied unproved))).at
      s
