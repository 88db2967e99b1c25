-- ===== src/Orders/Sellable.antt =====
-- Which events `create` sells tickets for.
use ticketflow_kenya.Base.{
  ℕ, ◌≡◌, refl, Bool, true, false, not, ◌&&◌, some, ok, ◌>>◌, >>=-eq-ok, throw_if, ltb,
}
use ticketflow_kenya.Orders.{
  CreateOrderDto, Order, OrderError, Store, Event, is_published, is_external,
}
use ticketflow_kenya.Orders.Service.{found, create, check_event, create_items, new_order}
use ticketflow_kenya.Orders.Reserve.{found-eq-ok}

-- An event whose tickets may be sold at this time.
pub record IsSellable (in_production : Bool) (now : ℕ) (e : Event) : Type 0 where
  published : is_published e.status ≡ true
  ahead : ltb e.start_date_time now ≡ false
  sold_here : is_external e.booking_mode ≡ false
  enabled : e.sales_enabled ≡ true
  verified : e.organizer_is_verified ≡ true
  real_in_production : (e.is_demo && in_production) ≡ false

guards_passed :
    (a b c d e f : Bool) (p q r s t u : OrderError) {v : Unit {0}}
    → (throw_if (not a) p
        >> throw_if b q
        >> throw_if c r
        >> throw_if (not d) s
        >> throw_if (not e) t
        >> throw_if f u)
      ≡ ok v
    → (a ≡ true) × (b ≡ false) × (c ≡ false) × (d ≡ true) × (e ≡ true) × (f ≡ false)
guards_passed false b c d e f p q r s t u h = cc
guards_passed true true c d e f p q r s t u h = cc
guards_passed true false true d e f p q r s t u h = cc
guards_passed true false false false e f p q r s t u h = cc
guards_passed true false false true false f p q r s t u h = cc
guards_passed true false false true true true p q r s t u h = cc
guards_passed true false false true true false p q r s t u h = (refl, refl, refl, refl, refl, refl)

check_event-eq-ok :
    (in_production : Bool) (now : ℕ) (e : Event) {v : Unit {0}}
    → check_event in_production now e ≡ ok v
    → IsSellable in_production now e
unfolding check_event
check_event-eq-ok in_production now e h =
    let (a, b, c, d, f, g) = guards_passed _ _ _ _ _ _ _ _ _ _ _ _ h in
    record {
      published = a;
      ahead = b;
      sold_here = c;
      enabled = d;
      verified = f;
      real_in_production = g;
    }

-- When `create` returns an order, its event exists, is published, has not started, is not sold by
-- an external provider, has its sales enabled and a verified organizer, and is no sample listing in
-- production.
pub create-IsSellable :
    (in_production : Bool) (percent now user : ℕ) (dto : CreateOrderDto) (s s' : Store) (o : Order)
    → create in_production percent now user dto s ≡ ok (o, s')
    → (e : Event) × (s.events o.event_id ≡ some e) × IsSellable in_production now e
unfolding create
create-IsSellable in_production percent now user dto s s' o h =
    let (event, looked, h1) =
      >>=-eq-ok (found OrderError.event_not_found (s.events dto.event_id)) _ h in
    let (v, checked, h2) = >>=-eq-ok (check_event in_production now event) _ h1 in
    let (made, reserved, h3) =
      >>=-eq-ok (create_items dto.event_id now dto.items s.ticket_types) _ h2 in
    let same : new_order percent user dto.event_id made.0 ≡ o = cc h3 in
    rw (← same) (event, found-eq-ok _ _ looked, check_event-eq-ok in_production now event checked)
