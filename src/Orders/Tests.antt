-- ===== src/Orders/Tests.antt =====
-- Runs of `OrdersService` on concrete tables.
use ticketflow_kenya.Base.{ℕ, ◌≡◌, ◌≤◌, refl, true, false, [], ◌∷◌, List, none, some, ok, arith}
use ticketflow_kenya.Base.Int.{◌-ℤ◌}
use ticketflow_kenya.Orders.{
  Order, OrderStatus, EventStatus, BookingMode, Event, TicketType, CreateOrderDto, Store,
  find_order,
}
use ticketflow_kenya.Orders.Service.{
  add_sold, update_row, new_order, order_item, create, create_items, create_item, check_item,
  check_event, platform_fee_of, mark_failed, mark_paid, pay_unpaid, reopen_for_retry, reopen_failed,
  release_reservation, release_items, reserve_items, reserve_all, reserve_item,
}
use ticketflow_kenya.Orders.Reserve.{IsWithin}
use ticketflow_kenya.Orders.Consistent.{IsConsistent, held}
use ticketflow_kenya.Orders.Trace.{
  Call, create_order, reopen, pay, fail, run, run_all, run_all-IsConsistent,
}
use ticketflow_kenya.Orders.Final.{run_all-paid}
use ticketflow_kenya.Orders.Sellable.{IsSellable, create-IsSellable}
use ticketflow_kenya.Orders.Capacity.{no_late_payment, held-le-quantity, mark_failed-twice}

abbrev test_event : Event
test_event = record {
  status = EventStatus.published;
  start_date_time = 100;
  booking_mode = BookingMode.internal;
  sales_enabled = true;
  is_demo = false;
  organizer_is_verified = true;
}

abbrev test_type : ℕ → TicketType
test_type sold = record {
  event_id = 1;
  quantity = 10;
  quantity_sold = sold;
  price = 1_550;
  sales_start = some 3;
  sales_end = none;
}

abbrev test_store : Store
test_store = record {
  events = λ _. some test_event;
  ticket_types = λ _. some (test_type 0);
  orders = [];
}

abbrev four_tickets : CreateOrderDto
four_tickets = record { event_id = 1; items = record { ticket_type_id = 2; quantity = 4 } ∷ [] }

abbrev buy_four : Call
buy_four = create_order true 9 10 5 four_tickets

-- Two orders of four are placed, the third is refused, the first fails and is tried again.
abbrev test_calls : List Call
test_calls = buy_four ∷ buy_four ∷ buy_four ∷ fail 0 ∷ fail 0 ∷ reopen 20 0 ∷ pay 1 ∷ []

test_store-IsConsistent : IsConsistent test_store
unfolding held
test_store-IsConsistent k t h = let row : test_type 0 ≡ t = cc h in rw (← row) refl

test_store-IsWithin : IsWithin test_store.ticket_types
test_store-IsWithin k t h = let row : test_type 0 ≡ t = cc h in rw (← row) (omega arith)

test_in_time : no_late_payment test_calls test_store ≡ true
unfolding no_late_payment run reopen_for_retry mark_failed create check_event create_items
    create_item check_item ◌-ℤ◌ release_reservation reopen_failed reserve_items reserve_all
    reserve_item release_items
test_in_time = refl

test_sold : (run_all test_calls test_store).ticket_types 2 ≡ some (test_type 8)
unfolding run_all run reopen_for_retry mark_failed create check_event create_items create_item
    check_item ◌-ℤ◌ release_reservation reopen_failed reserve_items reserve_all reserve_item
    release_items mark_paid pay_unpaid platform_fee_of
test_sold = refl

run_all-IsConsistent_example : IsConsistent (run_all test_calls test_store)
run_all-IsConsistent_example = run_all-IsConsistent test_calls test_store test_store-IsConsistent

held-le-quantity_example : held 2 (run_all test_calls test_store).orders ≤ 10
held-le-quantity_example =
    held-le-quantity test_calls test_store 2 (test_type 8) test_store-IsConsistent
      test_store-IsWithin test_in_time test_sold

mark_failed-twice_example :
    mark_failed 0 (mark_failed 0 (run buy_four test_store))
    ≡ mark_failed 0 (run buy_four test_store)
mark_failed-twice_example = mark_failed-twice 0 (run buy_four test_store)

abbrev test_order : Order
test_order =
    new_order 9 5 1 (order_item (record { ticket_type_id = 2; quantity = 4 }) (test_type 0) ∷ [])

abbrev test_ordered : Store
test_ordered = record test_store {
  ticket_types = update_row 2 (add_sold 4) test_store.ticket_types;
  orders = test_order ∷ [];
}

test_created : create true 9 10 5 four_tickets test_store ≡ ok (test_order, test_ordered)
unfolding create check_event create_items create_item check_item ◌-ℤ◌
test_created = refl

test_fee : test_order.total_amount ≡ 6_758
unfolding platform_fee_of
test_fee = refl

create-IsSellable_example : (e : Event) × (test_store.events 1 ≡ some e) × IsSellable true 10 e
create-IsSellable_example =
    create-IsSellable true 9 10 5 four_tickets test_store test_ordered test_order test_created

-- The order paid; then a late failure and a try again.
abbrev test_paid : Order
test_paid = record test_order { status = OrderStatus.paid }

abbrev test_paid_store : Store
test_paid_store = record test_ordered { orders = test_paid ∷ [] }

run_all-paid_example :
    find_order 0 (run_all (fail 0 ∷ reopen 20 0 ∷ pay 0 ∷ []) test_paid_store).orders
    ≡ some test_paid
run_all-paid_example =
    run_all-paid (fail 0 ∷ reopen 20 0 ∷ pay 0 ∷ []) test_paid_store 0 test_paid refl refl
