-- ===== src/Orders/Operations.antt =====
-- What each operation of `OrdersService` does to the stock.
use ticketflow_kenya.Base.{
  ℕ, zero, suc, ◌+◌, ◌≡◌, refl, ◌∙◌, Bool, true, false, not, List, [], ◌∷◌, ◌++◌, some, ok, ◌>>=◌,
  >>=-eq-ok, arith, if◌then◌else◌, inl, inr, ◌⊎◌, ltb, ◌||◌,
}
use ticketflow_kenya.Orders.{
  RecordId, CreateOrderDto, OrderItem, Order, OrderStatus, OrderError, Store, find_order,
  set_status, with_status, is_paid, is_published,
}
use ticketflow_kenya.Orders.Service.{
  found, create, create_items, check_event, new_order, release_items, release_reservation,
  reserve_all, reserve_items, put_status, reopen_failed, reopen_by_status, reopen_for_retry,
  pay_unpaid, mark_paid, mark_failed,
}
use ticketflow_kenya.Orders.Stock.{wanted, Raised}
use ticketflow_kenya.Orders.Reserve.{
  Reserved, found-eq-ok, >>-eq-ok, reserve_all-Reserved, reserve_all-Raised, create_items-Reserved,
}
use ticketflow_kenya.Orders.Consistent.{holds, held, held-snoc, held-set_status}

-- A call that reserves an order's items and lets it hold them.
pub record Grows (s : Store) (items : List OrderItem) (s' : Store) : Type 0 where
  pub raised : Raised s.ticket_types items s'.ticket_types
  pub grown : (k : RecordId) → held k s'.orders ≡ held k s.orders + wanted k items

pub create-eq-ok :
    (production : Bool) (percent now user : ℕ) (dto : CreateOrderDto) (s s' : Store) (o : Order)
    → create production percent now user dto s ≡ ok (o, s')
    → Reserved s.ticket_types o.items s'.ticket_types
      × (s'.orders ≡ s.orders ++ o ∷ [])
      × (o.status ≡ OrderStatus.pending)
unfolding create
create-eq-ok production percent now user dto s s' o h =
    let (event, here, h1) =
      >>=-eq-ok (found OrderError.event_not_found (s.events dto.event_id)) _ h in
    let (u, checked, h2) = >>=-eq-ok (check_event production now event) _ h1 in
    let ((items, types), reserved, h3) =
      >>=-eq-ok (create_items dto.event_id now dto.items s.ticket_types) _ h2 in
    let same : new_order percent user dto.event_id items ≡ o = cc h3 in
    let store : (record s {
      ticket_types = types;
      orders = s.orders ++ new_order percent user dto.event_id items ∷ [];
    })
        ≡ s' =
      cc h3 in
    rw (← same, ← store)
      (
        create_items-Reserved dto.event_id now dto.items items s.ticket_types types reserved,
        refl,
        refl,
      )

pub create-Grows :
    (production : Bool) (percent now user : ℕ) (dto : CreateOrderDto) (s s' : Store) (o : Order)
    → create production percent now user dto s ≡ ok (o, s')
    → Grows s o.items s'
create-Grows production percent now user dto s s' o h =
    let (reserved, appended, pending) = create-eq-ok production percent now user dto s s' o h in
    record {
      raised = reserved.raised;
      grown = λ k. rw appended (held-snoc k s.orders o ∙ rw pending refl);
    }

pub find_set_status :
    (id : RecordId) (new : OrderStatus) (os : List Order) (o : Order)
    → find_order id os ≡ some o
    → find_order id (set_status id new os) ≡ some (with_status new o)
find_set_status id new [] o h = cc
find_set_status zero new (p ∷ os) o h = let same : p ≡ o = cc h in rw same refl
find_set_status (suc id) new (p ∷ os) o h = find_set_status id new os o h

-- The tables with the order failed and its items given back.
abbrev pub released : RecordId → Order → Store → Store
released id o s = record s {
  ticket_types = release_items o.items s.ticket_types;
  orders = set_status id OrderStatus.failed s.orders;
}

-- `markFailed` of a pending order gives back what it held.
pub mark_failed-pending :
    (id : RecordId) (s : Store) (o : Order)
    → find_order id s.orders ≡ some o
    → o.status ≡ OrderStatus.pending
    → mark_failed id s ≡ released id o s
unfolding mark_failed release_reservation
mark_failed-pending id s o here pending =
    rw (here, pending, find_set_status id OrderStatus.failed s.orders o here) refl

-- Reserving the items of an order that held nothing, and making it hold them.
pub reserved-grown :
    (id : RecordId) (new : OrderStatus) (s : Store) (o : Order)
    → find_order id s.orders ≡ some o
    → holds o.status ≡ false
    → holds new ≡ true
    → (k : RecordId) → held k (set_status id new s.orders) ≡ held k s.orders + wanted k o.items
reserved-grown id new s o here free takes k =
    let moved : held k (set_status id new s.orders) + 0 ≡ held k s.orders + wanted k o.items =
      rw (free, takes) at (held-set_status k id new s.orders o here) in
    omega (arith, moved)

-- `reopenForRetry` returns: the order was pending and nothing changed, or it was failed and holds
-- its items again, within the limits.
pub reopen-eq-ok :
    (now id : ℕ) (s s' : Store)
    → reopen_for_retry now id s ≡ ok s'
    → (o : Order) × (find_order id s.orders ≡ some o)
      × ((s' ≡ s)
          ⊎ ((o.status ≡ OrderStatus.failed)
              × Reserved s.ticket_types o.items s'.ticket_types
              × (s'.orders ≡ set_status id OrderStatus.pending s.orders)))
unfolding reopen_for_retry reopen_failed reserve_items
reopen-eq-ok now id s s' h =
    let (o, looked, rest) =
      >>=-eq-ok (found OrderError.order_not_found (find_order id s.orders)) _ h in
    let here = found-eq-ok _ _ looked in (o, here, by_status o.status o here rest)
  where
    by_status :
        (status : OrderStatus) (o : Order)
        → find_order id s.orders ≡ some o
        → reopen_by_status status now id o s ≡ ok s'
        → (s' ≡ s)
          ⊎ ((status ≡ OrderStatus.failed)
              × Reserved s.ticket_types o.items s'.ticket_types
              × (s'.orders ≡ set_status id OrderStatus.pending s.orders))
    by_status OrderStatus.pending o here h = inl (cc h)
    by_status OrderStatus.paid o here h = cc
    by_status OrderStatus.cancelled o here h = cc
    by_status OrderStatus.failed o here h =
        let (event, looked, h1) =
          >>=-eq-ok (found OrderError.event_not_found (s.events o.event_id)) _ h in
        let (on_time, h2) =
          >>-eq-ok (ltb event.start_date_time now) OrderError.event_started _ h1 in
        let (on_sale, h3) =
          >>-eq-ok (not (is_published event.status) || not event.sales_enabled)
            OrderError.no_longer_on_sale _ h2 in
        let (s1, reserved, h4) = >>=-eq-ok (reserve_items false id s) _ h3 in
        let (types, all, h5) =
          >>=-eq-ok (reserve_all false o.items s.ticket_types) _ (rw here at reserved) in
        let first : (record s { ticket_types = types }) ≡ s1 = cc h5 in
        let last : put_status id OrderStatus.pending s1 ≡ s' = cc h4 in
        inr
          (rw (← last, ← first) (refl, reserve_all-Reserved o.items s.ticket_types types all, refl))

-- `markPaid` returns: the order held its items, and only its status may have changed, or it holds
-- them again.
pub mark_paid-eq-ok :
    (id : ℕ) (s s' : Store)
    → mark_paid id s ≡ ok s'
    → (o : Order) × (find_order id s.orders ≡ some o)
      × (((holds o.status ≡ true)
            × (s'.ticket_types ≡ s.ticket_types)
            × ((k : RecordId) → held k s'.orders ≡ held k s.orders))
          ⊎ ((holds o.status ≡ false)
              × Raised s.ticket_types o.items s'.ticket_types
              × (s'.orders ≡ set_status id OrderStatus.paid s.orders)))
unfolding mark_paid pay_unpaid reserve_items
mark_paid-eq-ok id s s' h =
    let (o, looked, rest) =
      >>=-eq-ok (found OrderError.order_not_found (find_order id s.orders)) _ h in
    let here = found-eq-ok _ _ looked in (o, here, by_status o.status o refl here rest)
  where
    late :
        (status : OrderStatus) (o : Order)
        → holds status ≡ false
        → find_order id s.orders ≡ some o
        → (reserve_items true id s >>= λ r. ok (put_status id OrderStatus.paid r)) ≡ ok s'
        → Raised s.ticket_types o.items s'.ticket_types
          × (s'.orders ≡ set_status id OrderStatus.paid s.orders)
    late status o free here h =
        let (s1, reserved, h1) = >>=-eq-ok (reserve_items true id s) _ h in
        let (types, all, h2) =
          >>=-eq-ok (reserve_all true o.items s.ticket_types) _ (rw here at reserved) in
        let first : (record s { ticket_types = types }) ≡ s1 = cc h2 in
        let last : put_status id OrderStatus.paid s1 ≡ s' = cc h1 in
        rw (← last, ← first) (reserve_all-Raised o.items s.ticket_types types all, refl)

    by_status :
        (status : OrderStatus) (o : Order)
        → o.status ≡ status
        → find_order id s.orders ≡ some o
        → (if is_paid status then ok s else pay_unpaid status id s) ≡ ok s'
        → ((holds status ≡ true)
            × (s'.ticket_types ≡ s.ticket_types)
            × ((k : RecordId) → held k s'.orders ≡ held k s.orders))
          ⊎ ((holds status ≡ false)
              × Raised s.ticket_types o.items s'.ticket_types
              × (s'.orders ≡ set_status id OrderStatus.paid s.orders))
    by_status OrderStatus.paid o st here h =
        let same : s ≡ s' = cc h in rw (← same) (inl (refl, refl, λ k. refl))
    by_status OrderStatus.pending o st here h =
        let same : put_status id OrderStatus.paid s ≡ s' = cc h in
        rw (← same) (
          inl (
            refl,
            refl,
            λ k.
                let moved : held k (set_status id OrderStatus.paid s.orders) + wanted k o.items
                    ≡ held k s.orders + wanted k o.items =
                  rw st at (held-set_status k id OrderStatus.paid s.orders o here) in
                omega (arith, moved),
          ))
    by_status OrderStatus.failed o st here h =
        let (raised, orders) = late OrderStatus.failed o refl here h in inr (refl, raised, orders)
    by_status OrderStatus.cancelled o st here h =
        let (raised, orders) = late OrderStatus.cancelled o refl here h in
        inr (refl, raised, orders)
