-- ===== src/Orders/Service.antt =====
-- The operations of `OrdersService`. A call returns its value and the new tables, or throws, and
-- then the transaction leaves the tables as they were. `releaseReservation`, `reserveItems` and the
-- status change that follows are run without another call in between.
use ticketflow_kenya.Base.{
  ℕ, ◌+◌, ◌-◌, ◌*◌, ◌/◌, Bool, true, false, not, ◌&&◌, ◌||◌, List, [], ◌∷◌, ◌++◌, Option, none,
  some, ok, err, ◌>>=◌, ◌>>◌, throw_if, ◌==◌, ltb, if◌then◌else◌,
}
use ticketflow_kenya.Base.Int.{pos, ◌-ℤ◌, ltb_ℤ}
use ticketflow_kenya.Orders.{
  RecordId, OrderStatus, Event, TicketType, OrderItemDto, CreateOrderDto, OrderItem, Order,
  OrderError, event_not_found, not_selling, already_started, sold_externally, not_on_sale,
  organizer_unverified, sample_listing, ticket_type_not_found, not_enough_tickets, not_on_sale_yet,
  sales_closed, order_not_found, ticket_type_gone, sold_out, already_paid, was_cancelled,
  event_started, no_longer_on_sale, Checked, TicketTypes, Store, find_order, set_status, is_pending,
  is_paid, is_published, is_external,
}

-- `if (!row) throw e;`
abbrev pub found {ℓ} : {A : Type ℓ} → OrderError → Option A → Checked A
found e none = err e
found e (some a) = ok a

-- `quantitySold: { increment: n }`
abbrev pub add_sold : ℕ → TicketType → TicketType
add_sold n t = record t { quantity_sold = t.quantity_sold + n }

-- `GREATEST(0, "quantitySold" - n)`
abbrev pub lower_sold : ℕ → TicketType → TicketType
lower_sold n t = record t { quantity_sold = t.quantity_sold - n }

abbrev pub map_row : (TicketType → TicketType) → Option TicketType → Option TicketType
map_row f none = none
map_row f (some t) = some (f t)

-- An update of the row with this id.
abbrev pub update_row : RecordId → (TicketType → TicketType) → TicketTypes → TicketTypes
update_row i f types k = if k == i then map_row f (types k) else types k

-- `available < quantity`
abbrev pub is_short : TicketType → ℕ → Bool
is_short t n = ltb_ℤ (pos t.quantity -ℤ pos t.quantity_sold) (pos n)

abbrev pub starts_after : ℕ → Option ℕ → Bool
starts_after now none = false
starts_after now (some start) = ltb now start

abbrev pub ended_before : ℕ → Option ℕ → Bool
ended_before now none = false
ended_before now (some end) = ltb end now

-- The checks of `create` on one item.
unfoldable pub check_item : RecordId → ℕ → OrderItemDto → TicketType → Checked (Unit {0})
check_item event_id now item t =
    throw_if (not (t.event_id == event_id)) (ticket_type_not_found item.ticket_type_id)
    >> throw_if (is_short t item.quantity) (not_enough_tickets item.ticket_type_id)
    >> throw_if (starts_after now t.sales_start) (not_on_sale_yet item.ticket_type_id)
    >> throw_if (ended_before now t.sales_end) (sales_closed item.ticket_type_id)

abbrev pub order_item : OrderItemDto → TicketType → OrderItem
order_item item t = record {
  ticket_type_id = item.ticket_type_id;
  quantity = item.quantity;
  unit_price = t.price;
  subtotal = t.price * item.quantity;
}

unfoldable pub create_item :
    RecordId → ℕ → OrderItemDto → TicketTypes → Checked (OrderItem × TicketTypes)
create_item event_id now item types = do
  t ← found (ticket_type_not_found item.ticket_type_id) (types item.ticket_type_id)
  check_item event_id now item t
  ok (order_item item t, update_row item.ticket_type_id (add_sold item.quantity) types)

-- The loop of `create`.
unfoldable pub create_items :
    RecordId → ℕ → List OrderItemDto → TicketTypes → Checked (List OrderItem × TicketTypes)
create_items event_id now [] types = ok ([], types)
create_items event_id now (item ∷ items) types = do
  (i, types1) ← create_item event_id now item types
  (is, types2) ← create_items event_id now items types1
  ok (i ∷ is, types2)

-- `ticketSubtotal`
abbrev pub ticket_subtotal : List OrderItem → ℕ
ticket_subtotal [] = 0
ticket_subtotal (i ∷ is) = i.subtotal + ticket_subtotal is

-- `Math.round(ticketSubtotal * (commissionPercent / 100) * 100) / 100`, for a whole percentage.
unfoldable pub platform_fee_of : ℕ → ℕ → ℕ
platform_fee_of percent subtotal = (2 * subtotal * percent + 100) / 200

-- The checks of `create` on the event.
unfoldable pub check_event : Bool → ℕ → Event → Checked (Unit {0})
check_event in_production now event =
    throw_if (not (is_published event.status)) not_selling
    >> throw_if (ltb event.start_date_time now) already_started
    >> throw_if (is_external event.booking_mode) sold_externally
    >> throw_if (not event.sales_enabled) not_on_sale
    >> throw_if (not event.organizer_is_verified) organizer_unverified
    >> throw_if (event.is_demo && in_production) sample_listing

abbrev pub new_order : ℕ → RecordId → RecordId → List OrderItem → Order
new_order percent user event_id items =
    let subtotal = ticket_subtotal items in
    record {
      user_id = user;
      event_id = event_id;
      status = OrderStatus.pending;
      total_amount = subtotal + platform_fee_of percent subtotal;
      platform_fee = platform_fee_of percent subtotal;
      organizer_earning = subtotal;
      items = items;
    }

unfoldable pub create : Bool → ℕ → ℕ → RecordId → CreateOrderDto → Store → Checked (Order × Store)
create in_production percent now user dto s = do
  event ← found event_not_found (s.events dto.event_id)
  check_event in_production now event
  (items, types) ← create_items dto.event_id now dto.items s.ticket_types
  ok (
    new_order percent user dto.event_id items,
    record s {
      ticket_types = types;
      orders = s.orders ++ new_order percent user dto.event_id items ∷ [];
    },
  )

-- The loop of `releaseReservation`.
unfoldable pub release_items : List OrderItem → TicketTypes → TicketTypes
release_items [] types = types
release_items (item ∷ items) types =
    release_items items (update_row item.ticket_type_id (lower_sold item.quantity) types)

abbrev pub release_found : Option Order → Store → Store
release_found none s = s
release_found (some order) s = record s { ticket_types = release_items order.items s.ticket_types }

unfoldable pub release_reservation : RecordId → Store → Store
release_reservation id s = release_found (find_order id s.orders) s

unfoldable pub reserve_item : Bool → OrderItem → TicketTypes → Checked TicketTypes
reserve_item allow_oversell item types = do
  t ← found ticket_type_gone (types item.ticket_type_id)
  throw_if (not allow_oversell && is_short t item.quantity) sold_out
  ok (update_row item.ticket_type_id (add_sold item.quantity) types)

-- The loop of `reserveItems`.
unfoldable pub reserve_all : Bool → List OrderItem → TicketTypes → Checked TicketTypes
reserve_all allow_oversell [] types = ok types
reserve_all allow_oversell (item ∷ items) types = do
  types1 ← reserve_item allow_oversell item types
  reserve_all allow_oversell items types1

unfoldable pub reserve_items : Bool → RecordId → Store → Checked Store
reserve_items allow_oversell id s = do
  order ← found order_not_found (find_order id s.orders)
  types ← reserve_all allow_oversell order.items s.ticket_types
  ok (record s { ticket_types = types })

abbrev pub put_status : RecordId → OrderStatus → Store → Store
put_status id new s = record s { orders = set_status id new s.orders }

-- `reopenForRetry` for a failed order. The event of an order exists by its foreign key.
unfoldable pub reopen_failed : ℕ → RecordId → Order → Store → Checked Store
reopen_failed now id order s = do
  event ← found event_not_found (s.events order.event_id)
  throw_if (ltb event.start_date_time now) event_started
  throw_if (not (is_published event.status) || not event.sales_enabled) no_longer_on_sale
  reserved ← reserve_items false id s
  ok (put_status id OrderStatus.pending reserved)

abbrev pub reopen_by_status : OrderStatus → ℕ → RecordId → Order → Store → Checked Store
reopen_by_status OrderStatus.pending now id order s = ok s
reopen_by_status OrderStatus.paid now id order s = err already_paid
reopen_by_status OrderStatus.cancelled now id order s = err was_cancelled
reopen_by_status OrderStatus.failed now id order s = reopen_failed now id order s

unfoldable pub reopen_for_retry : ℕ → RecordId → Store → Checked Store
reopen_for_retry now id s = do
  order ← found order_not_found (find_order id s.orders)
  reopen_by_status order.status now id order s

-- `if (order.status !== 'PENDING') await this.reserveItems(...)`
abbrev pub reserve_late : OrderStatus → RecordId → Store → Checked Store
reserve_late OrderStatus.pending id s = ok s
reserve_late _ id s = reserve_items true id s

unfoldable pub pay_unpaid : OrderStatus → RecordId → Store → Checked Store
pay_unpaid status id s = do
  reserved ← reserve_late status id s
  ok (put_status id OrderStatus.paid reserved)

unfoldable pub mark_paid : RecordId → Store → Checked Store
mark_paid id s = do
  order ← found order_not_found (find_order id s.orders)
  if is_paid order.status then ok s else pay_unpaid order.status id s

-- `updateMany` where the order is pending: whether a row was changed.
abbrev pub claims : Option Order → Bool
claims none = false
claims (some order) = is_pending order.status

unfoldable pub mark_failed : RecordId → Store → Store
mark_failed id s =
    if claims (find_order id s.orders)
    then release_reservation id (put_status id OrderStatus.failed s)
    else s
