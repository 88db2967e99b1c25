-- ===== src/Orders/Final.antt =====
-- What becomes of an order that is paid.
use ticketflow_kenya.Base.{
  zero, suc, ◌≡◌, refl, sym, ◌∙◌, ap, true, false, List, [], ◌∷◌, ◌++◌, some, ok, >>=-eq-ok,
  Bool-cases, inl, inr, ◌⊎◌,
}
use ticketflow_kenya.Orders.{
  RecordId, Order, OrderStatus, OrderError, Store, find_order, set_status, is_paid,
}
use ticketflow_kenya.Orders.Service.{
  found, create, reopen_for_retry, reserve_items, reserve_all, reserve_late, pay_unpaid, mark_paid,
  put_status,
}
use ticketflow_kenya.Orders.Reserve.{found-eq-ok}
use ticketflow_kenya.Orders.Operations.{create-eq-ok, reopen-eq-ok, mark_failed-pending}
use ticketflow_kenya.Orders.Trace.{
  Call, create_order, reopen, pay, fail, run, run_all, Checked-cases, mark_failed-cases,
}

pub find_order-append :
    (k : RecordId) (os more : List Order) (o : Order)
    → find_order k os ≡ some o
    → find_order k (os ++ more) ≡ some o
find_order-append k [] more o h = cc
find_order-append zero (x ∷ os) more o h = h
find_order-append (suc k) (x ∷ os) more o h = find_order-append k os more o h

-- A status that is set on an unpaid order leaves a paid one alone.
find_paid-set_status :
    (k id : RecordId) (new : OrderStatus) (os : List Order) (o p : Order)
    → find_order k os ≡ some o
    → is_paid o.status ≡ true
    → find_order id os ≡ some p
    → is_paid p.status ≡ false
    → find_order k (set_status id new os) ≡ some o
find_paid-set_status k id new [] o p h paid there unpaid = cc
find_paid-set_status zero zero new (x ∷ os) o p h paid there unpaid =
    let both : some o ≡ some p = cc (h, there) in
    let same : o ≡ p = cc both in cc (rw same at paid, unpaid)
find_paid-set_status zero (suc id) new (x ∷ os) o p h paid there unpaid = h
find_paid-set_status (suc k) zero new (x ∷ os) o p h paid there unpaid = h
find_paid-set_status (suc k) (suc id) new (x ∷ os) o p h paid there unpaid =
    find_paid-set_status k id new os o p h paid there unpaid

-- `markPaid` returns: nothing has changed, or the status of an unpaid order.
pub mark_paid-orders :
    (id : RecordId) (s s' : Store)
    → mark_paid id s ≡ ok s'
    → (s' ≡ s)
      ⊎ ((o : Order) × (find_order id s.orders ≡ some o)
          × (is_paid o.status ≡ false)
          × (s'.orders ≡ set_status id OrderStatus.paid s.orders))
unfolding mark_paid pay_unpaid reserve_items
mark_paid-orders id s s' h =
    let (o, looked, rest) =
      >>=-eq-ok (found OrderError.order_not_found (find_order id s.orders)) _ h in
    let here = found-eq-ok _ _ looked in
    elim (Bool-cases (is_paid o.status)) [
      | inl paid ↦ inl (let same : ok s ≡ ok s' = rw paid at rest in cc same)
      | inr unpaid ↦
          let (r, reserved, h1) = >>=-eq-ok (reserve_late o.status id s) _ (rw unpaid at rest) in
          let put : put_status id OrderStatus.paid r ≡ s' = cc h1 in
          let orders = ap (λ (t : Store). t.orders) put in
          inr (
            o,
            here,
            unpaid,
            sym orders
                ∙ ap (set_status id OrderStatus.paid) (reserved_late-orders o.status r reserved),
          )
    ]
  where
    late : (r : Store) → reserve_items true id s ≡ ok r → r.orders ≡ s.orders
    late r h =
        let (o, looked, h1) =
          >>=-eq-ok (found OrderError.order_not_found (find_order id s.orders)) _ h in
        let (types, all, h2) = >>=-eq-ok (reserve_all true o.items s.ticket_types) _ h1 in
        let same : (record s { ticket_types = types }) ≡ r = cc h2 in rw (← same) refl

    reserved_late-orders :
        (status : OrderStatus) (r : Store) → reserve_late status id s ≡ ok r → r.orders ≡ s.orders
    reserved_late-orders OrderStatus.pending r h = let same : s ≡ r = cc h in rw (← same) refl
    reserved_late-orders OrderStatus.paid r h = late r h
    reserved_late-orders OrderStatus.failed r h = late r h
    reserved_late-orders OrderStatus.cancelled r h = late r h

-- An order that is paid stays as it is over every call.
pub run-paid :
    (call : Call) (s : Store) (k : RecordId) (o : Order)
    → find_order k s.orders ≡ some o
    → is_paid o.status ≡ true
    → find_order k (run call s).orders ≡ some o
unfolding run
run-paid (create_order production percent now user dto) s k o h paid =
    elim (Checked-cases (create production percent now user dto s)) [
      | inl ((new, s'), e) ↦
          let (reserved, appended, pending) =
            create-eq-ok production percent now user dto s s' new e in
          rw (e, appended) (find_order-append k s.orders (new ∷ []) o h)
      | inr (x, e) ↦ rw e h
    ]
run-paid (reopen now id) s k o h paid = elim (Checked-cases (reopen_for_retry now id s)) [
  | inl (s', e) ↦
      let (p, there, what) = reopen-eq-ok now id s s' e in
      rw e (elim what [
        | inl same ↦ rw same h
        | inr (failed, reserved, orders) ↦ rw orders (
            find_paid-set_status k id OrderStatus.pending s.orders o p h paid there
              (rw failed refl))
      ])
  | inr (x, e) ↦ rw e h
]
run-paid (pay id) s k o h paid = elim (Checked-cases (mark_paid id s)) [
  | inl (s', e) ↦ rw e (elim (mark_paid-orders id s s' e) [
    | inl same ↦ rw same h
    | inr (p, there, unpaid, orders) ↦
        rw orders (find_paid-set_status k id OrderStatus.paid s.orders o p h paid there unpaid)
  ])
  | inr (x, e) ↦ rw e h
]
run-paid (fail id) s k o h paid = elim (mark_failed-cases id s) [
  | inl same ↦ rw same h
  | inr (p, there, pending) ↦
      rw (mark_failed-pending id s p there pending)
        (find_paid-set_status k id OrderStatus.failed s.orders o p h paid there (rw pending refl))
]

-- Over any sequence of calls of `OrdersService`, an order that is paid stays as it is: paid, with its
-- items, its owner and its amounts.
pub run_all-paid :
    (calls : List Call) (s : Store) (k : RecordId) (o : Order)
    → find_order k s.orders ≡ some o
    → is_paid o.status ≡ true
    → find_order k (run_all calls s).orders ≡ some o
unfolding run_all
run_all-paid [] s k o h paid = h
run_all-paid (call ∷ calls) s k o h paid =
    run_all-paid calls (run call s) k o (run-paid call s k o h paid) paid
