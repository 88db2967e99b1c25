-- ===== src/Orders/PaidOrders.antt =====
-- Which calls make an order paid.
use ticketflow_kenya.Base.{
  ℕ, zero, suc, ◌≡◌, refl, ap, Bool, true, false, List, [], ◌∷◌, ◌++◌, some, ok, inl, inr, ◌⊎◌,
}
use ticketflow_kenya.Orders.{
  RecordId, CreateOrderDto, Order, OrderStatus, Store, find_order, set_status, is_paid,
}
use ticketflow_kenya.Orders.Service.{create, reopen_for_retry, mark_paid, mark_failed}
use ticketflow_kenya.Orders.Operations.{create-eq-ok, reopen-eq-ok, mark_failed-pending}
use ticketflow_kenya.Orders.Trace.{mark_failed-cases}
use ticketflow_kenya.Orders.Final.{mark_paid-orders}

-- The order is there, and PAID.
abbrev pub PaidIn : RecordId → List Order → Type 0
PaidIn k os = (o : Order) × (find_order k os ≡ some o) × (is_paid o.status ≡ true)

set_status-PaidIn :
    (k id : RecordId) (new : OrderStatus) (os : List Order)
    → PaidIn k (set_status id new os)
    → PaidIn k os ⊎ ((k ≡ id) × (is_paid new ≡ true))
set_status-PaidIn k id new [] (o, h, paid) = cc
set_status-PaidIn zero zero new (x ∷ os) (o, h, paid) =
    let same : record x { status = new } ≡ o = cc h in inr (refl, rw (← same) at paid)
set_status-PaidIn zero (suc id) new (x ∷ os) h = inl h
set_status-PaidIn (suc k) zero new (x ∷ os) h = inl h
set_status-PaidIn (suc k) (suc id) new (x ∷ os) h = elim (set_status-PaidIn k id new os h) [
  | inl there ↦ inl there
  | inr (same, paid) ↦ inr (ap suc same, paid)
]

unpaid_status-PaidIn :
    (k id : RecordId) (new : OrderStatus) (os : List Order)
    → is_paid new ≡ false
    → PaidIn k (set_status id new os)
    → PaidIn k os
unpaid_status-PaidIn k id new os unpaid h = elim (set_status-PaidIn k id new os h) [
  | inl there ↦ there
  | inr (same, paid) ↦ cc (unpaid, paid)
]

append-PaidIn :
    (k : RecordId) (os : List Order) (new : Order)
    → is_paid new.status ≡ false
    → PaidIn k (os ++ new ∷ [])
    → PaidIn k os
append-PaidIn zero [] new unpaid (o, h, paid) =
    let same : new ≡ o = cc h in cc (unpaid, rw (← same) at paid)
append-PaidIn (suc k) [] new unpaid (o, h, paid) = cc
append-PaidIn zero (x ∷ os) new unpaid h = h
append-PaidIn (suc k) (x ∷ os) new unpaid h = append-PaidIn k os new unpaid h

pub create-PaidIn :
    (production : Bool) (percent now user : ℕ) (dto : CreateOrderDto) (s s' : Store) (o : Order)
    → create production percent now user dto s ≡ ok (o, s')
    → (k : RecordId) → PaidIn k s'.orders
    → PaidIn k s.orders
create-PaidIn production percent now user dto s s' o h k there =
    let (reserved, appended, pending) = create-eq-ok production percent now user dto s s' o h in
    append-PaidIn k s.orders o (rw pending refl) (rw appended at there)

pub reopen-PaidIn :
    (now id : ℕ) (s s' : Store)
    → reopen_for_retry now id s ≡ ok s'
    → (k : RecordId) → PaidIn k s'.orders
    → PaidIn k s.orders
reopen-PaidIn now id s s' h k there =
    let (o, here, what) = reopen-eq-ok now id s s' h in
    elim what [
      | inl same ↦ rw same at there
      | inr (failed, reserved, orders) ↦
          unpaid_status-PaidIn k id OrderStatus.pending s.orders refl (rw orders at there)
    ]

pub mark_failed-PaidIn :
    (id : RecordId) (s : Store) (k : RecordId)
    → PaidIn k (mark_failed id s).orders
    → PaidIn k s.orders
mark_failed-PaidIn id s k there = elim (mark_failed-cases id s) [
  | inl same ↦ rw same at there
  | inr (o, here, pending) ↦
      unpaid_status-PaidIn k id OrderStatus.failed s.orders refl
        (rw (mark_failed-pending id s o here pending) at there)
]

-- `markPaid` makes at most the order paid that it is called for.
pub mark_paid-PaidIn :
    (id : RecordId) (s s' : Store)
    → mark_paid id s ≡ ok s'
    → (k : RecordId) → PaidIn k s'.orders
    → PaidIn k s.orders ⊎ (k ≡ id)
mark_paid-PaidIn id s s' h k there = elim (mark_paid-orders id s s' h) [
  | inl same ↦ inl (rw same at there)
  | inr (o, here, unpaid, orders) ↦
      elim (set_status-PaidIn k id OrderStatus.paid s.orders (rw orders at there)) [
        | inl before ↦ inl before
        | inr (same, paid) ↦ inr same
      ]
]
