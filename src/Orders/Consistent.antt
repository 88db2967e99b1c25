-- ===== src/Orders/Consistent.antt =====
-- The stock invariant of the orders: every counter is what the pending and paid orders hold.
use ticketflow_kenya.Base.{
  ℕ, zero, suc, ◌+◌, ◌≡◌, Bool, true, false, List, [], ◌∷◌, ◌++◌, some, arith, if◌then◌else◌,
  Option-cases, inl, inr,
}
use ticketflow_kenya.Orders.{
  RecordId, TicketType, OrderItem, Order, OrderStatus, Store, find_order, set_status, with_status,
}
use ticketflow_kenya.Orders.Service.{add_sold, lower_sold}
use ticketflow_kenya.Orders.Stock.{wanted, Raised, Lowered}

-- An order with this status keeps its reservation.
abbrev pub holds : OrderStatus → Bool
holds OrderStatus.pending = true
holds OrderStatus.paid = true
holds OrderStatus.failed = false
holds OrderStatus.cancelled = false

abbrev pub held_by : RecordId → Order → ℕ
held_by k o = if holds o.status then wanted k o.items else 0

-- What all orders hold of a ticket type.
unfoldable pub held : RecordId → List Order → ℕ
held k [] = 0
held k (o ∷ os) = held_by k o + held k os

-- Every counter is exactly what the orders hold.
abbrev pub IsConsistent : Store → Type 0
IsConsistent s =
    (k : RecordId) (t : TicketType) → s.ticket_types k ≡ some t → t.quantity_sold ≡ held k s.orders

pub held-snoc :
    (k : RecordId) (os : List Order) (o : Order) → held k (os ++ o ∷ []) ≡ held k os + held_by k o
unfolding held
held-snoc k [] o = omega arith
held-snoc k (p ∷ os) o = omega (arith, held-snoc k os o)

-- A changed status moves what its order holds, and nothing else.
pub held-set_status :
    (k id : RecordId) (new : OrderStatus) (os : List Order) (o : Order)
    → find_order id os ≡ some o
    → held k (set_status id new os) + held_by k o ≡ held k os + held_by k (with_status new o)
unfolding held
held-set_status k id new [] o h = cc
held-set_status k zero new (p ∷ os) o h = let same : p ≡ o = cc h in rw same (omega arith)
held-set_status k (suc id) new (p ∷ os) o h = omega (arith, held-set_status k id new os o h)

-- Counters that grow by what the orders come to hold stay consistent.
pub Raised-IsConsistent :
    (s s' : Store) (items : List OrderItem)
    → IsConsistent s
    → Raised s.ticket_types items s'.ticket_types
    → ((k : RecordId) → held k s'.orders ≡ held k s.orders + wanted k items)
    → IsConsistent s'
Raised-IsConsistent s s' items consistent raised grown k t h =
    elim (Option-cases (s.ticket_types k)) [
      | inl e ↦ cc (rw (raised k, e) at h)
      | inr (u, e) ↦
          let same : some (add_sold (wanted k items) u) ≡ some t = rw (raised k, e) at h in
          let row : add_sold (wanted k items) u ≡ t = cc same in
          rw (← row) (omega (arith, consistent k u e, grown k))
    ]

pub Lowered-IsConsistent :
    (s s' : Store) (items : List OrderItem)
    → IsConsistent s
    → Lowered s.ticket_types items s'.ticket_types
    → ((k : RecordId) → held k s'.orders + wanted k items ≡ held k s.orders)
    → IsConsistent s'
Lowered-IsConsistent s s' items consistent lowered shrunk k t h =
    elim (Option-cases (s.ticket_types k)) [
      | inl e ↦ cc (rw (lowered k, e) at h)
      | inr (u, e) ↦
          let same : some (lower_sold (wanted k items) u) ≡ some t = rw (lowered k, e) at h in
          let row : lower_sold (wanted k items) u ≡ t = cc same in
          rw (← row) (omega (arith, consistent k u e, shrunk k))
    ]
