-- ===== src/Orders.antt =====
-- Orders and the stock of the ticket tiers: `OrdersService` of backend/src/orders/orders.service.ts.
-- The data here, the operations in Service. An amount of money is a number of cents; the source
-- computes with floating-point shillings and rounds to cents, and here the arithmetic is exact. Times
-- are natural numbers, and one call of an operation reads one clock value. The attendees and the
-- customer's phone, which no operation reads, are left out.
pub mod Service
pub mod Stock
pub mod Reserve
pub mod Consistent
pub mod Operations
pub mod Trace
pub mod Final
pub mod Capacity
pub mod Payable
pub mod PaidOrders
pub mod Totals
pub mod Sellable
mod Tests
use ticketflow_kenya.Base.{
  ℕ, zero, suc, ◌+◌, List, [], ◌∷◌, Bool, true, false, Option, none, some, Result, ◌==◌,
  if◌then◌else◌,
}

abbrev pub RecordId : Type 0
RecordId = ℕ

pub data OrderStatus : Type 0 where
  pending paid failed cancelled : OrderStatus

pub data EventStatus : Type 0 where
  draft pending_approval published rejected cancelled completed : EventStatus

pub data BookingMode : Type 0 where
  internal external : BookingMode

-- The fields of an event that the operations read, its organizer's `isVerified` included.
pub record Event : Type 0 where
  pub status : EventStatus
  pub start_date_time : ℕ
  pub booking_mode : BookingMode
  pub sales_enabled : Bool
  pub is_demo : Bool
  pub organizer_is_verified : Bool

pub record TicketType : Type 0 where
  pub event_id : RecordId
  pub quantity : ℕ
  pub quantity_sold : ℕ
  pub price : ℕ
  pub sales_start : Option ℕ
  pub sales_end : Option ℕ

pub record OrderItemDto : Type 0 where
  pub ticket_type_id : RecordId
  pub quantity : ℕ

pub record CreateOrderDto : Type 0 where
  pub event_id : RecordId
  pub items : List OrderItemDto

pub record OrderItem : Type 0 where
  pub ticket_type_id : RecordId
  pub quantity : ℕ
  pub unit_price : ℕ
  pub subtotal : ℕ

pub record Order : Type 0 where
  pub user_id : RecordId
  pub event_id : RecordId
  pub status : OrderStatus
  pub total_amount : ℕ
  pub platform_fee : ℕ
  pub organizer_earning : ℕ
  pub items : List OrderItem

-- The exceptions, by their message.
pub data OrderError : Type 0 where
  event_not_found not_selling already_started sold_externally : OrderError
  not_on_sale organizer_unverified sample_listing : OrderError
  ticket_type_not_found not_enough_tickets not_on_sale_yet sales_closed : RecordId → OrderError
  order_not_found ticket_type_gone sold_out already_paid was_cancelled : OrderError
  event_started no_longer_on_sale : OrderError

abbrev pub Checked {ℓ} : Type ℓ → Type ℓ
Checked A = Result OrderError A

-- The table of ticket types, by id.
abbrev pub TicketTypes : Type 0
TicketTypes = RecordId → Option TicketType

-- The tables. An order's id is its position in the list.
pub record Store : Type 0 where
  pub events : RecordId → Option Event
  pub ticket_types : TicketTypes
  pub orders : List Order

-- `findUnique` by id.
abbrev pub find_order : RecordId → List Order → Option Order
find_order i [] = none
find_order zero (o ∷ os) = some o
find_order (suc i) (o ∷ os) = find_order i os

abbrev pub with_status : OrderStatus → Order → Order
with_status new o = record o { status = new }

-- `update` of the status by id.
abbrev pub set_status : RecordId → OrderStatus → List Order → List Order
set_status i new [] = []
set_status zero new (o ∷ os) = with_status new o ∷ os
set_status (suc i) new (o ∷ os) = o ∷ set_status i new os

abbrev pub is_pending : OrderStatus → Bool
is_pending OrderStatus.pending = true
is_pending _ = false

abbrev pub is_paid : OrderStatus → Bool
is_paid OrderStatus.paid = true
is_paid _ = false

abbrev pub is_published : EventStatus → Bool
is_published EventStatus.published = true
is_published _ = false

abbrev pub is_external : BookingMode → Bool
is_external BookingMode.external = true
is_external BookingMode.internal = false
