-- ===== src/Orders/Totals.antt =====
-- That an order stays, with its total amount.
use ticketflow_kenya.Base.{ℕ, zero, suc, ◌≡◌, refl, List, [], ◌∷◌, some, inl, inr}
use ticketflow_kenya.Orders.{RecordId, Order, OrderStatus, Store, find_order, set_status}
use ticketflow_kenya.Orders.Service.{create, reopen_for_retry, mark_paid}
use ticketflow_kenya.Orders.Operations.{create-eq-ok, reopen-eq-ok, mark_failed-pending}
use ticketflow_kenya.Orders.Trace.{
  Call, create_order, reopen, pay, fail, run, Checked-cases, mark_failed-cases,
}
use ticketflow_kenya.Orders.Final.{find_order-append, mark_paid-orders}

-- The order is there, for this amount.
abbrev pub IsOf : RecordId → ℕ → List Order → Type 0
IsOf k total os = (o : Order) × (find_order k os ≡ some o) × (o.total_amount ≡ total)

set_status-IsOf :
    (k : RecordId) (total : ℕ) (id : RecordId) (new : OrderStatus) (os : List Order)
    → IsOf k total os
    → IsOf k total (set_status id new os)
set_status-IsOf k total id new [] (o, h, e) = cc
set_status-IsOf zero total zero new (x ∷ os) (o, h, e) =
    let same : x ≡ o = cc h in (record x { status = new }, refl, rw (← same) at e)
set_status-IsOf zero total (suc id) new (x ∷ os) h = h
set_status-IsOf (suc k) total zero new (x ∷ os) h = h
set_status-IsOf (suc k) total (suc id) new (x ∷ os) h = set_status-IsOf k total id new os h

pub run-IsOf :
    (call : Call) (s : Store) (k : RecordId) (total : ℕ)
    → IsOf k total s.orders
    → IsOf k total (run call s).orders
unfolding run
run-IsOf (create_order production percent now user dto) s k total (o, h, e) =
    elim (Checked-cases (create production percent now user dto s)) [
      | inl ((new, s'), made) ↦
          let (reserved, appended, pending) =
            create-eq-ok production percent now user dto s s' new made in
          rw (made, appended) (o, find_order-append k s.orders (new ∷ []) o h, e)
      | inr (x, refused) ↦ rw refused (o, h, e)
    ]
run-IsOf (reopen now id) s k total there = elim (Checked-cases (reopen_for_retry now id s)) [
  | inl (s', done) ↦
      let (p, here, what) = reopen-eq-ok now id s s' done in
      rw done (elim what [
        | inl same ↦ rw same there
        | inr (failed, reserved, orders) ↦
            rw orders (set_status-IsOf k total id OrderStatus.pending s.orders there)
      ])
  | inr (x, refused) ↦ rw refused there
]
run-IsOf (pay id) s k total there = elim (Checked-cases (mark_paid id s)) [
  | inl (s', done) ↦ rw done (elim (mark_paid-orders id s s' done) [
    | inl same ↦ rw same there
    | inr (p, here, unpaid, orders) ↦
        rw orders (set_status-IsOf k total id OrderStatus.paid s.orders there)
  ])
  | inr (x, refused) ↦ rw refused there
]
run-IsOf (fail id) s k total there = elim (mark_failed-cases id s) [
  | inl same ↦ rw same there
  | inr (p, here, pending) ↦
      rw (mark_failed-pending id s p here pending)
        (set_status-IsOf k total id OrderStatus.failed s.orders there)
]
