-- ===== src/Payments/Handlers.antt =====
-- What the handlers do to the tables, from what the single changes do.
use ticketflow_kenya.Base.{ℕ, ◌≡◌, Bool, true, false, List, [], ◌∷◌, Option, none, some}
use ticketflow_kenya.Base.Action.Steps.{IsChain, Steps, Steps-bind, Steps-attempt, steps_rules}
use ticketflow_kenya.Orders.{RecordId}
use ticketflow_kenya.Mpesa.{MpesaOutcome, ResultCode, StkQueryResult, CallbackItem}
use ticketflow_kenya.Payments.{Payment, Notice, Store, Config}
use ticketflow_kenya.Payments.Settle.{
  Unsuccessful, notify, demand_payment, update_payment, mark_payment_success, apply_outcome,
  mark_payment_unsuccessful,
}
use ticketflow_kenya.Payments.Reconcile.{
  Ask, poll_update, by_outcome, conclude, poll, reconcile_by_request, reconcile,
}
use ticketflow_kenya.Payments.Callback.{
  CallbackContext, StkCallback, Authentication, alert_if_reused, check_receipt, check_claim,
  confirm_with, confirm, verifying, received, with_receipt, settle_late, settle_callback,
  handle_matched, handle_body, handle_mpesa_callback,
}
use ticketflow_kenya.Payments.Initiate.{
  retire_existing, mock_mark_success, reconcile_each, sweep_pending_payments,
}
use ticketflow_kenya.Payments.Reads.{to_status_view, get_status}
use ticketflow_kenya.Payments.Trace.{
  Call, place_order, initiate, callback, status, sweep, mock_success, run,
}

-- The calls that only settle payments.
abbrev pub is_settling : Call → Bool
is_settling (place_order production percent user dto) = false
is_settling (initiate ask push user order_id) = false
is_settling _ = true

-- What the handlers need of a relation between the tables: it holds over each single change of theirs
-- that does not make a payment successful.
pub record IsHandled (R : Store → Store → Type 0) : Type 0 where
  pub chain : IsChain R
  pub notifies : (n : Notice) → Steps R (notify n)
  pub polls :
      (now id : ℕ) (r : StkQueryResult) (v : Bool)
      → Steps R (update_payment id (poll_update now r v))
  pub verifies : (id : ℕ) (p : Payment) → Steps R (update_payment id (verifying p))
  pub receives : (id : ℕ) (c : ResultCode) → Steps R (update_payment id (received c))
  pub fills : (id : ℕ) (r : Option ℕ) → Steps R (update_payment id (with_receipt r))
  pub fails :
      (now : ℕ) (id : RecordId) (u : Unsuccessful) (release : Bool)
      → Steps R (mark_payment_unsuccessful now id u release)

module _ (R : Store → Store → Type 0) (handles : IsHandled R) where
  chain-rule : IsChain R
  chain-rule = handles.chain

  notify-Steps : (n : Notice) → Steps R (notify n)
  notify-Steps = handles.notifies

  fails-Steps :
      (now : ℕ) (id : RecordId) (u : Unsuccessful) (release : Bool)
      → Steps R (mark_payment_unsuccessful now id u release)
  fails-Steps = handles.fails

  demand_payment-Steps : (id : ℕ) → Steps R (demand_payment id)
  unfolding demand_payment
  demand_payment-Steps id = search (steps_rules, chain-rule)

  ruleset quiet_rules = (steps_rules, chain-rule, notify-Steps, fails-Steps, demand_payment-Steps)

  pub alert_if_reused-Steps : (id : ℕ) (o : Option (ℕ × Payment)) → Steps (R) (alert_if_reused id o)
  alert_if_reused-Steps id none = search quiet_rules
  alert_if_reused-Steps id (some r) = search quiet_rules

  check_receipt-Steps : (id : ℕ) (r : Option ℕ) → Steps (R) (check_receipt id r)
  unfolding check_receipt
  check_receipt-Steps id none = search quiet_rules
  check_receipt-Steps id (some r) = search (quiet_rules, alert_if_reused-Steps) depth 10

  pub check_claim-Steps :
      (id : ℕ) (p : Payment) (cb : StkCallback) → Steps (R) (check_claim id p cb)
  unfolding check_claim
  check_claim-Steps id p cb = search (quiet_rules, check_receipt-Steps) depth 10

  confirm_with-Steps :
      (r : StkQueryResult) (id : ℕ) (p : Payment) (o : MpesaOutcome)
      → Steps (R) (confirm_with r id p o)
  unfolding confirm_with
  confirm_with-Steps r id p o = search (quiet_rules, handles.verifies) depth 10

  pub confirm-Steps :
      (cfg : Config) (ask : Ask) (auth : Authentication) (id : ℕ) (p : Payment) (o : MpesaOutcome)
      → Steps (R) (confirm cfg ask auth id p o)
  unfolding confirm
  confirm-Steps cfg ask auth id p o = search (quiet_rules, confirm_with-Steps) depth 10

  -- From here on for what a success may do.
  module _
      (success : (cfg : Config) (id : RecordId) (receipt : Option ℕ)
        → Steps (R) (mark_payment_success cfg id receipt)) where
    apply_outcome-Steps :
        (cfg : Config) (now id : ℕ) (o : MpesaOutcome) (items : List CallbackItem)
        → Steps (R) (apply_outcome cfg now id o items)
    unfolding apply_outcome
    apply_outcome-Steps cfg now id MpesaOutcome.success items = success cfg id _
    apply_outcome-Steps cfg now id MpesaOutcome.cancelled items = search quiet_rules
    apply_outcome-Steps cfg now id MpesaOutcome.expired items = search quiet_rules
    apply_outcome-Steps cfg now id MpesaOutcome.failed items = search quiet_rules
    apply_outcome-Steps cfg now id MpesaOutcome.processing items = search quiet_rules

    pub by_outcome-Steps :
        (o : MpesaOutcome) (cfg : Config) (now id : ℕ) (p : Payment)
        → Steps (R) (by_outcome o cfg now id p)
    unfolding by_outcome
    by_outcome-Steps MpesaOutcome.success cfg now id p = success cfg id _
    by_outcome-Steps MpesaOutcome.cancelled cfg now id p = search quiet_rules
    by_outcome-Steps MpesaOutcome.expired cfg now id p = search quiet_rules
    by_outcome-Steps MpesaOutcome.failed cfg now id p = search quiet_rules
    by_outcome-Steps MpesaOutcome.processing cfg now id p = search quiet_rules

    conclude-Steps :
        (cfg : Config) (now id : ℕ) (r : StkQueryResult) (p q : Payment)
        → Steps (R) (conclude cfg now id r p q)
    unfolding conclude
    conclude-Steps cfg now id r p q = search (quiet_rules, by_outcome-Steps) depth 10

    poll-Steps :
        (cfg : Config) (now id : ℕ) (r : StkQueryResult) (p : Payment)
        → Steps (R) (poll cfg now id r p)
    unfolding poll
    poll-Steps cfg now id r p = search (quiet_rules, handles.polls, conclude-Steps) depth 10

    by_request-Steps :
        (request : Option ℕ) (cfg : Config) (now : ℕ) (ask : Ask) (id : ℕ) (p : Payment)
        → Steps (R) (reconcile_by_request request cfg now ask id p)
    unfolding reconcile_by_request
    by_request-Steps none cfg now ask id p = search quiet_rules
    by_request-Steps (some request) cfg now ask id p = search (quiet_rules, poll-Steps) depth 10

    pub reconcile-Steps :
        (cfg : Config) (now : ℕ) (ask : Ask) (id : ℕ) (p : Payment)
        → Steps (R) (reconcile cfg now ask id p)
    unfolding reconcile
    reconcile-Steps cfg now ask id p = search (quiet_rules, by_request-Steps) depth 10

    settle_late-Steps :
        (cfg : Config) (id : ℕ) (p : Payment) (cb : StkCallback) (o : MpesaOutcome)
        → Steps (R) (settle_late cfg id p cb o)
    unfolding settle_late
    settle_late-Steps cfg id p cb o =
        search (quiet_rules, success, handles.receives, handles.fills) depth 12

    pub settle_callback-Steps :
        (cfg : Config) (now id : ℕ) (p : Payment) (cb : StkCallback) (o : Option MpesaOutcome)
        → Steps (R) (settle_callback cfg now id p cb o)
    unfolding settle_callback
    settle_callback-Steps cfg now id p cb none = search quiet_rules
    settle_callback-Steps cfg now id p cb (some o) =
        search (quiet_rules, settle_late-Steps, handles.receives, apply_outcome-Steps) depth 12

    handle_matched-Steps :
        (cfg : Config) (now : ℕ) (ask : Ask) (auth : Authentication) (cb : StkCallback)
        (row : Option (ℕ × Payment))
        → Steps (R) (handle_matched cfg now ask auth cb row)
    unfolding handle_matched
    handle_matched-Steps cfg now ask auth cb none = search quiet_rules depth 10
    handle_matched-Steps cfg now ask auth cb (some (id, p)) =
        search (quiet_rules, check_claim-Steps, confirm-Steps, settle_callback-Steps) depth 12

    handle_body-Steps :
        (cfg : Config) (now : ℕ) (ask : Ask) (auth : Authentication) (body : Option StkCallback)
        → Steps (R) (handle_body cfg now ask auth body)
    unfolding handle_body
    handle_body-Steps cfg now ask auth none = search quiet_rules
    handle_body-Steps cfg now ask auth (some cb) =
        search (quiet_rules, handle_matched-Steps) depth 10

    pub handle_mpesa_callback-Steps :
        (cfg : Config) (now : ℕ) (ask : Ask) (ctx : CallbackContext) (body : Option StkCallback)
        → Steps (R) (handle_mpesa_callback cfg now ask ctx body)
    unfolding handle_mpesa_callback
    handle_mpesa_callback-Steps cfg now ask ctx body =
        search (quiet_rules, handle_body-Steps) depth 10

    pub retire_existing-Steps :
        (cfg : Config) (now : ℕ) (ask : Ask) (o : Option (ℕ × Payment))
        → Steps (R) (retire_existing cfg now ask o)
    unfolding retire_existing
    retire_existing-Steps cfg now ask none = search quiet_rules
    retire_existing-Steps cfg now ask (some (id, p)) =
        search (quiet_rules, reconcile-Steps) depth 12

    pub mock_mark_success-Steps :
        (cfg : Config) (receipt id : ℕ) → Steps (R) (mock_mark_success cfg receipt id)
    unfolding mock_mark_success
    mock_mark_success-Steps cfg receipt id = search (quiet_rules, success) depth 12

    reconcile_each-Steps :
        (cfg : Config) (now : ℕ) (ask : Ask) (rows : List (ℕ × Payment))
        → Steps (R) (reconcile_each cfg now ask rows)
    unfolding reconcile_each
    reconcile_each-Steps cfg now ask [] = search quiet_rules
    reconcile_each-Steps cfg now ask ((id, p) ∷ rows) =
        Steps-bind handles.chain _ _ (Steps-attempt _ (reconcile-Steps cfg now ask id p))
          (λ _. reconcile_each-Steps cfg now ask rows)

    pub sweep-Steps :
        (cfg : Config) (now : ℕ) (ask : Ask) → Steps (R) (sweep_pending_payments cfg now ask)
    unfolding sweep_pending_payments
    sweep-Steps cfg now ask = search (quiet_rules, reconcile_each-Steps) depth 10

    to_status_view-Steps : (id : ℕ) (p : Payment) → Steps (R) (to_status_view id p)
    unfolding to_status_view
    to_status_view-Steps id p = search quiet_rules depth 12

    pub get_status-Steps :
        (cfg : Config) (now : ℕ) (ask : Ask) (user : ℕ) (admin : Bool) (id : ℕ)
        → Steps (R) (get_status cfg now ask user admin id)
    unfolding get_status
    get_status-Steps cfg now ask user admin id =
        search (quiet_rules, reconcile-Steps, to_status_view-Steps) depth 12

    -- Every call but an initiation and the placing of an order.
    pub run-Steps :
        (cfg : Config) (now : ℕ) (call : Call) (s : Store)
        → is_settling call ≡ true
        → R s (run cfg now call s)
    unfolding run
    run-Steps cfg now (place_order production percent user dto) s h = cc
    run-Steps cfg now (initiate ask push user order_id) s h = cc
    run-Steps cfg now (callback ask ctx body) s h =
        (handle_mpesa_callback-Steps cfg now ask ctx body).at s
    run-Steps cfg now (status ask user is_admin id) s h =
        (get_status-Steps cfg now ask user is_admin id).at s
    run-Steps cfg now (sweep ask) s h = (sweep-Steps cfg now ask).at s
    run-Steps cfg now (mock_success receipt id) s h = (mock_mark_success-Steps cfg receipt id).at s
