-- ===== src/Payments/Tests.antt =====
-- Runs of the payments on concrete tables.
use ticketflow_kenya.Base.{ℕ, zero, suc, ◌≡◌, refl, true, false, [], ◌∷◌, List, none, some, inl, ok}
use ticketflow_kenya.Base.Tables.{row_at, find_row, find_latest}
use ticketflow_kenya.Base.Action.{read, write, give, throw, demand, refuse_if, attempt, ◌>>=◌}
use ticketflow_kenya.Base.Int.{◌-ℤ◌}
use ticketflow_kenya.Orders.{Order, OrderStatus, EventStatus, BookingMode, Event, TicketType}
use ticketflow_kenya.Orders.Service.{
  mark_paid, mark_failed, pay_unpaid, release_items, release_reservation, reopen_failed,
  reopen_for_retry, reserve_all, reserve_item, reserve_items,
}
use ticketflow_kenya.Orders.{TicketTypes, find_order, is_paid}
use ticketflow_kenya.Orders.Consistent.{held, IsConsistent}
use ticketflow_kenya.Orders.Stock.{wanted}
use ticketflow_kenya.Mpesa.{MpesaOutcome, ResultCode, ItemName, look_up}
use ticketflow_kenya.Tickets.{Ticket, generate_for_order, planned, tickets_of}
use ticketflow_kenya.Payments.{is_success, Payment, PaymentStatus, RequestField, Store, Config}
use ticketflow_kenya.Payments.Settle.{
  notify, update_payment, demand_payment, claim, put_shop, call_orders, put_tickets, issue_tickets,
  alert_oversold_tiers, alert_if_other, finish_success, mark_payment_success, fail_order,
  finish_unsuccessful, mark_payment_unsuccessful, apply_outcome, succeed,
}
use ticketflow_kenya.Payments.Reconcile.{
  Ask, by_outcome, conclude, poll, reconcile_by_request, reconcile,
}
use ticketflow_kenya.Payments.Callback.{
  CallbackContext, StkCallback, check_receipt, check_claim, confirm, confirm_with, settle_callback,
  settle_late, handle_matched, handle_body, handle_mpesa_callback,
}
use ticketflow_kenya.Payments.Initiate.{
  retire_existing, create_payment, send_push, start_payment, perform_initiation, reconcile_each,
  sweep_pending_payments,
}
use ticketflow_kenya.Tickets.Exact.{count_type}
use ticketflow_kenya.Payments.Status.{Follows, payments_follow}
use ticketflow_kenya.Payments.Live.{IsSingle}
use ticketflow_kenya.Payments.Single.{run_all-IsSingle}
use ticketflow_kenya.Payments.Settled.{IsSettled, IsOverdue, reconcile-IsSettled}
use ticketflow_kenya.Payments.Issued.{
  IsIssued, run_all-IsIssued, issued_as_wanted, payments-IsConsistent,
}
use ticketflow_kenya.Payments.Fulfilled.{IsFulfilled, mark_payment_success-fulfils}
use ticketflow_kenya.Payments.Bought.{AreBought}
use ticketflow_kenya.Payments.Bought.Trace.{run_all-AreBought}
use ticketflow_kenya.Payments.Priced.{IsPriced}
use ticketflow_kenya.Payments.Priced.Trace.{run_all-IsPriced}
use ticketflow_kenya.Payments.Paid.{IsPaid, callback_pays}
use ticketflow_kenya.Payments.Evidence.{NonePaid, callback_needs_evidence}
use ticketflow_kenya.Payments.Trace.{Call, initiate, callback, sweep, run, run_all}

abbrev shop_event : Event
shop_event = record {
  status = EventStatus.published;
  start_date_time = 900_000_000;
  booking_mode = BookingMode.internal;
  sales_enabled = true;
  is_demo = false;
  organizer_is_verified = true;
}

abbrev shop_type : TicketType
shop_type = record {
  event_id = 0;
  quantity = 10;
  quantity_sold = 2;
  price = 10_000;
  sales_start = none;
  sales_end = none;
}

abbrev tiers : TicketTypes
tiers zero = some shop_type
tiers (suc k) = none

abbrev shop_order : Order
shop_order = record {
  user_id = 4;
  event_id = 0;
  status = OrderStatus.pending;
  total_amount = 21_800;
  platform_fee = 1_800;
  organizer_earning = 20_000;
  items = record { ticket_type_id = 0; quantity = 2; unit_price = 10_000; subtotal = 20_000 } ∷ [];
}

abbrev shop_store : Store
shop_store = record {
  shop = record { events = λ _. some shop_event; ticket_types = tiers; orders = shop_order ∷ [] };
  payments = [];
  tickets = [];
  commissions = [];
  notices = [];
}

abbrev shop_config : Config
shop_config = record {
  stk_validity_seconds = 90;
  query_after_seconds = 8;
  query_interval_ms = 4_000;
  hard_expiry_seconds = 900;
  commission_percent = 9;
  callback_allowed_ips = [];
  callback_token = some 77;
  require_query_confirmation = false;
  enable_mock_payments = false;
}

-- Daraja answers nothing.
abbrev silent : Ask
silent = λ _. record {
  outcome = MpesaOutcome.processing;
  result_code = ResultCode.absent;
  unavailable = true;
}

abbrev with_token : CallbackContext
with_token = record { token = some 77; source_ip = none }

abbrev without_token : CallbackContext
without_token = record { token = none; source_ip = none }

abbrev paid_body : ℕ → StkCallback
paid_body request = record {
  checkout_request_id = RequestField.given request;
  result_code = ResultCode.code 0;
  callback_metadata =
      record {
        name = ItemName.amount;
        value = some (record { as_number = some 218; as_receipt = some 218 });
      }
      ∷ record {
        name = ItemName.mpesa_receipt_number;
        value = some (record { as_number = none; as_receipt = some 5_000 });
      }
      ∷ [];
}

-- The prompt is sent, never answered and expires; the order is tried again and paid, and
-- then the first prompt succeeds late too.
abbrev shop_calls : List (ℕ × Call)
shop_calls =
    (1_000, initiate silent (some 31) 4 0)
    ∷ (2_000_000, sweep silent)
    ∷ (3_000_000, initiate silent (some 32) 4 0)
    ∷ (3_010_000, callback silent with_token (some (paid_body 32)))
    ∷ (3_020_000, callback silent with_token (some (paid_body 32)))
    ∷ []

-- `run_all`, opened as far as concrete calls need.
after : List (ℕ × Call) → Store
unfolding run_all run handle_mpesa_callback handle_body ◌>>=◌ read handle_matched find_row
    perform_initiation demand sweep_pending_payments reconcile_each give refuse_if retire_existing
    find_latest attempt throw write ◌-ℤ◌ look_up mark_failed mark_paid pay_unpaid release_items
    release_reservation reopen_failed reopen_for_retry reserve_all reserve_item reserve_items
    check_claim check_receipt confirm confirm_with settle_callback settle_late create_payment
    send_push start_payment notify update_payment demand_payment claim put_shop call_orders
    put_tickets issue_tickets alert_oversold_tiers alert_if_other finish_success
    mark_payment_success fail_order finish_unsuccessful mark_payment_unsuccessful apply_outcome
    by_outcome conclude poll reconcile_by_request reconcile generate_for_order planned tickets_of
after calls = run_all shop_config calls shop_store

statuses : List Payment → List PaymentStatus
statuses [] = []
statuses (p ∷ ps) = p.status ∷ statuses ps

shop_calls-statuses :
    statuses (after shop_calls).payments ≡ PaymentStatus.expired ∷ PaymentStatus.success ∷ []
unfolding after statuses
shop_calls-statuses = refl

-- The same order with a prompt in flight.
abbrev in_flight : Payment
in_flight = record {
  order_id = 0;
  status = PaymentStatus.pending;
  amount = 21_800;
  checkout_request_id = some 31;
  mpesa_receipt_number = none;
  result_code = ResultCode.absent;
  stk_expires_at = some 91_000;
  last_polled_at = none;
  is_verifying = false;
  created_at = 1_000;
}

abbrev flight_store : Store
flight_store = record shop_store { payments = in_flight ∷ [] }

abbrev late_calls : List (ℕ × Call)
late_calls =
    (2_000_000, sweep silent) ∷ (3_000_000, callback silent with_token (some (paid_body 31))) ∷ []

flight_store-IsSingle : IsSingle flight_store
flight_store-IsSingle order zero zero p q hp hq lp lq = refl
flight_store-IsSingle order zero (suc j) p q hp hq lp lq = cc
flight_store-IsSingle order (suc i) j p q hp hq lp lq = cc

flight_store-IsConsistent : IsConsistent flight_store.shop
unfolding held wanted
flight_store-IsConsistent zero t h = let row : shop_type ≡ t = cc h in rw (← row) refl
flight_store-IsConsistent (suc k) t h = cc

in_flight-IsOverdue : IsOverdue shop_config 2_000_000 in_flight
in_flight-IsOverdue = record {
  past_minute = refl;
  past_hard_expiry = refl;
  past_deadline = refl;
  may_ask = refl;
}

abbrev issued_ticket : Ticket
issued_ticket = record { order_id = 0; ticket_type_id = 0; user_id = 4 }

two_issued :
    tickets_of 0 (run_all shop_config late_calls flight_store).tickets
    ≡ issued_ticket ∷ issued_ticket ∷ []
unfolding after tickets_of planned
two_issued = refl

payments_follow_example :
    (q : Payment) × (row_at 0 (run_all shop_config late_calls flight_store).payments ≡ some q)
    × Follows in_flight q
payments_follow_example = payments_follow shop_config late_calls flight_store 0 in_flight refl

run_all-IsSingle_example : IsSingle (run_all shop_config late_calls flight_store)
run_all-IsSingle_example =
    run_all-IsSingle shop_config late_calls flight_store flight_store-IsSingle

reconcile-IsSettled_example :
    IsSettled 0 (reconcile shop_config 2_000_000 silent 0 in_flight flight_store).1
reconcile-IsSettled_example =
    reconcile-IsSettled shop_config 2_000_000 silent 0 in_flight flight_store refl
      in_flight-IsOverdue

mark_payment_success-fulfils_example :
    ((mark_payment_success shop_config 0 (some 5_000) flight_store).0
      ≡ ok (succeed (some 5_000) in_flight))
    × (row_at 0 (mark_payment_success shop_config 0 (some 5_000) flight_store).1.payments
        ≡ some (succeed (some 5_000) in_flight))
    × (is_success (succeed (some 5_000) in_flight).status ≡ true)
    × IsFulfilled 0 shop_order.items
        (mark_payment_success shop_config 0 (some 5_000) flight_store).1
mark_payment_success-fulfils_example =
    mark_payment_success-fulfils shop_config 0 (some 5_000) flight_store in_flight shop_order refl
      refl refl ((shop_type, refl), tt) (unfold tickets_of in refl)

flight_store-IsPriced : IsPriced flight_store
flight_store-IsPriced zero p h =
    let same : in_flight ≡ p = cc h in rw (← same) (shop_order, refl, refl)
flight_store-IsPriced (suc i) p h = cc

run_all-IsPriced_example : IsPriced (run_all shop_config shop_calls flight_store)
run_all-IsPriced_example =
    run_all-IsPriced shop_config shop_calls flight_store flight_store-IsPriced

flight_store-AreBought : AreBought flight_store
flight_store-AreBought zero (o, h, paid) =
    let same : shop_order ≡ o = cc h in cc (rw (← same) at paid)
flight_store-AreBought (suc k) (o, h, paid) = cc

run_all-AreBought_example : AreBought (run_all shop_config late_calls flight_store)
run_all-AreBought_example =
    run_all-AreBought shop_config late_calls flight_store flight_store-AreBought

no_tickets-IsIssued : IsIssued flight_store
unfolding tickets_of
no_tickets-IsIssued id = inl refl

run_all-IsIssued_example : IsIssued (run_all shop_config late_calls flight_store)
run_all-IsIssued_example = run_all-IsIssued shop_config late_calls flight_store no_tickets-IsIssued

issued_as_wanted_example :
    (o : Order) × (find_order 0 (run_all shop_config late_calls flight_store).shop.orders ≡ some o)
    × (is_paid o.status ≡ true)
    × (count_type 0 (issued_ticket ∷ issued_ticket ∷ []) ≡ wanted 0 o.items)
issued_as_wanted_example =
    issued_as_wanted shop_config late_calls flight_store 0 0 issued_ticket (issued_ticket ∷ []) refl
      two_issued

payments-IsConsistent_example : IsConsistent (run_all shop_config late_calls flight_store).shop
payments-IsConsistent_example =
    payments-IsConsistent shop_config late_calls flight_store flight_store-IsConsistent

-- A forged callback, while Daraja does not answer.
callback_needs_evidence_example :
    NonePaid flight_store
      (handle_mpesa_callback shop_config 20_000 silent without_token
        (some (paid_body 31))
        flight_store).1
callback_needs_evidence_example =
    callback_needs_evidence shop_config 20_000 silent without_token (paid_body 31) flight_store
      (λ request. refl) (inl refl)

callback_pays_example :
    IsPaid 0
      (handle_mpesa_callback shop_config 20_000 silent with_token
        (some (paid_body 31))
        flight_store).1
unfolding find_row look_up
callback_pays_example =
    callback_pays shop_config 20_000 silent with_token (paid_body 31) flight_store 0 in_flight refl
      refl refl refl refl refl refl
