-- ===== src/Orders/Capacity.antt =====
-- Limits of the ticket types under sequences of calls, and a payment that fails twice.
use ticketflow_kenya.Base.{
  ℕ, ◌≤◌, ◌≡◌, refl, ap, Bool, true, false, not, ◌&&◌, List, [], ◌∷◌, Option, none, some, arith,
  Option-cases, Bool-cases, inl, inr,
}
use ticketflow_kenya.Orders.{
  RecordId, TicketType, OrderItem, Order, OrderStatus, TicketTypes, Store, find_order,
}
use ticketflow_kenya.Orders.Service.{
  lower_sold, create, reopen_for_retry, mark_paid, claims, mark_failed,
}
use ticketflow_kenya.Orders.Stock.{wanted, Lowered, release_items-Lowered}
use ticketflow_kenya.Orders.Reserve.{IsWithin}
use ticketflow_kenya.Orders.Consistent.{holds, held, IsConsistent}
use ticketflow_kenya.Orders.Operations.{
  create-eq-ok, released, find_set_status, mark_failed-pending, reopen-eq-ok, mark_paid-eq-ok,
}
use ticketflow_kenya.Orders.Trace.{
  Call, create_order, reopen, pay, fail, run, run_all, Checked-cases, mark_failed-cases,
  run_all-IsConsistent,
}

-- The order is unpaid and holds nothing any more: a payment for it is late.
abbrev pub is_late : Option Order → Bool
is_late none = false
is_late (some o) = not (holds o.status)

abbrev pub is_late_payment : Call → Store → Bool
is_late_payment (pay id) s = is_late (find_order id s.orders)
is_late_payment _ s = false

-- None of the calls is a late payment when its turn comes.
unfoldable pub no_late_payment : List Call → Store → Bool
no_late_payment [] s = true
no_late_payment (c ∷ cs) s = not (is_late_payment c s) && no_late_payment cs (run c s)

Lowered-IsWithin :
    (types types' : TicketTypes) (items : List OrderItem)
    → Lowered types items types'
    → IsWithin types
    → IsWithin types'
Lowered-IsWithin types types' items lowered within k t h = elim (Option-cases (types k)) [
  | inl e ↦ cc (rw (lowered k, e) at h)
  | inr (u, e) ↦
      let same : some (lower_sold (wanted k items) u) ≡ some t = rw (lowered k, e) at h in
      let row : lower_sold (wanted k items) u ≡ t = cc same in
      rw (← row) (omega (arith, within k u e))
]

pay-IsWithin :
    (id : ℕ) (s : Store)
    → is_late (find_order id s.orders) ≡ false
    → IsWithin s.ticket_types
    → IsWithin (run (pay id) s).ticket_types
unfolding run
pay-IsWithin id s in_time w = elim (Checked-cases (mark_paid id s)) [
  | inl (s', e) ↦
      let (o, here, what) = mark_paid-eq-ok id s s' e in
      rw e (elim what [
        | inl (holding, types, same) ↦ rw types w
        | inr (free, raised, orders) ↦ cc (rw (here, free) at in_time)
      ])
  | inr (x, e) ↦ rw e w
]

run-IsWithin :
    (call : Call) (s : Store)
    → is_late_payment call s ≡ false
    → IsWithin s.ticket_types
    → IsWithin (run call s).ticket_types
unfolding run
run-IsWithin (create_order production percent now user dto) s in_time w =
    elim (Checked-cases (create production percent now user dto s)) [
      | inl ((o, s'), e) ↦
          let (reserved, appended, pending) =
            create-eq-ok production percent now user dto s s' o e in
          rw e (reserved.within w)
      | inr (x, e) ↦ rw e w
    ]
run-IsWithin (reopen now id) s in_time w = elim (Checked-cases (reopen_for_retry now id s)) [
  | inl (s', e) ↦
      let (o, here, what) = reopen-eq-ok now id s s' e in
      rw e (elim what [ inl same ↦ rw same w | inr (failed, reserved, orders) ↦ reserved.within w ])
  | inr (x, e) ↦ rw e w
]
run-IsWithin (pay id) s in_time w = pay-IsWithin id s in_time w
run-IsWithin (fail id) s in_time w = elim (mark_failed-cases id s) [
  | inl same ↦ rw same w
  | inr (o, here, pending) ↦ rw (mark_failed-pending id s o here pending) (
      Lowered-IsWithin s.ticket_types (released id o s).ticket_types o.items
        (release_items-Lowered o.items s.ticket_types) w)
]

run_all-IsWithin :
    (calls : List Call) (s : Store)
    → no_late_payment calls s ≡ true
    → IsWithin s.ticket_types
    → IsWithin (run_all calls s).ticket_types
unfolding run_all no_late_payment
run_all-IsWithin [] s in_time w = w
run_all-IsWithin (call ∷ calls) s in_time w = elim (Bool-cases (is_late_payment call s)) [
  | inl late ↦ cc (rw late at in_time)
  | inr e ↦ run_all-IsWithin calls (run call s) (rw e at in_time) (run-IsWithin call s e w)
]

-- No ticket type is oversold: after any sequence of calls in which no order is paid after it was
-- failed or cancelled, from tables that are consistent and within their limits, what the pending
-- and paid orders hold of a ticket type is at most its quantity.
pub held-le-quantity :
    (calls : List Call) (s : Store) (k : RecordId) (t : TicketType)
    → IsConsistent s
    → IsWithin s.ticket_types
    → no_late_payment calls s ≡ true
    → (run_all calls s).ticket_types k ≡ some t
    → held k (run_all calls s).orders ≤ t.quantity
held-le-quantity calls s k t c w in_time here =
    omega
      (arith, run_all-IsConsistent calls s c k t here, run_all-IsWithin calls s in_time w k t here)

unclaimed :
    (id : RecordId) (s : Store) → claims (find_order id s.orders) ≡ false → mark_failed id s ≡ s
unfolding mark_failed
unclaimed id s e = rw e refl

-- A failure that is reported again changes nothing: the reservation is released once.
pub mark_failed-twice :
    (id : RecordId) (s : Store) → mark_failed id (mark_failed id s) ≡ mark_failed id s
mark_failed-twice id s = elim (mark_failed-cases id s) [
  | inl same ↦ ap (mark_failed id) same
  | inr (o, here, pending) ↦ rw (mark_failed-pending id s o here pending) (
      unclaimed id (released id o s)
        (rw (find_set_status id OrderStatus.failed s.orders o here) refl))
]
