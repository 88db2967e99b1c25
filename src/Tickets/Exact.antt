-- ===== src/Tickets/Exact.antt =====
-- Which tickets of which orders the issue of tickets adds.
use ticketflow_kenya.Base.{
  ℕ, zero, suc, ◌+◌, ◌≡◌, refl, ap, true, false, List, [], ◌∷◌, ◌++◌, ◌==◌, ==_iff, if◌then◌else◌,
  Bool-cases, inl, inr, arith,
}
use ticketflow_kenya.Orders.{RecordId, Order, OrderItem}
use ticketflow_kenya.Orders.Stock.{wanted}
use ticketflow_kenya.Tickets.{Ticket, ticket_of, units, planned, tickets_of}

pub tickets_of-append :
    (id : RecordId) (a b : List Ticket)
    → tickets_of id (a ++ b) ≡ tickets_of id a ++ tickets_of id b
unfolding tickets_of
tickets_of-append id [] b = refl
tickets_of-append id (t ∷ a) b = elim (Bool-cases (t.order_id == id)) [
  | inl e ↦ rw e (ap (λ rest. t ∷ rest) (tickets_of-append id a b))
  | inr e ↦ rw e (tickets_of-append id a b)
]

units-own :
    (id n : ℕ) (t : Ticket) → (t.order_id == id) ≡ true → tickets_of id (units n t) ≡ units n t
unfolding tickets_of
units-own id zero t e = refl
units-own id (suc n) t e = rw e (ap (λ rest. t ∷ rest) (units-own id n t e))

units-other : (k n : ℕ) (t : Ticket) → (t.order_id == k) ≡ false → tickets_of k (units n t) ≡ []
unfolding tickets_of
units-other k zero t e = refl
units-other k (suc n) t e = rw e (units-other k n t e)

-- All planned tickets are of their order.
pub planned-own :
    (id : RecordId) (o : Order) (items : List OrderItem)
    → tickets_of id (planned id o items) ≡ planned id o items
unfolding planned
planned-own id o [] = unfold tickets_of in refl
planned-own id o (i ∷ is) =
    rw
      (
        tickets_of-append id (units i.quantity (ticket_of id o i)) (planned id o is),
        units-own id i.quantity (ticket_of id o i) ((==_iff id id).1 refl),
        planned-own id o is,
      )
      refl

pub planned-other :
    (k id : RecordId) (o : Order) (items : List OrderItem)
    → (id == k) ≡ false
    → tickets_of k (planned id o items) ≡ []
unfolding planned
planned-other k id o [] h = unfold tickets_of in refl
planned-other k id o (i ∷ is) h =
    rw
      (
        tickets_of-append k (units i.quantity (ticket_of id o i)) (planned id o is),
        units-other k i.quantity (ticket_of id o i) h,
        planned-other k id o is h,
      )
      refl

-- How many of the tickets are of a type.
unfoldable pub count_type : RecordId → List Ticket → ℕ
count_type k [] = 0
count_type k (t ∷ ts) =
    let rest = count_type k ts in if k == t.ticket_type_id then suc rest else rest

count_type-append :
    (k : RecordId) (a b : List Ticket) → count_type k (a ++ b) ≡ count_type k a + count_type k b
unfolding count_type
count_type-append k [] b = omega arith
count_type-append k (t ∷ a) b = elim (Bool-cases (k == t.ticket_type_id)) [
  | inl e ↦ rw e (omega (arith, count_type-append k a b))
  | inr e ↦ rw e (count_type-append k a b)
]

count_type-units :
    (k n : ℕ) (t : Ticket) → count_type k (units n t) ≡ (if k == t.ticket_type_id then n else 0)
unfolding count_type
count_type-units k zero t = elim (Bool-cases (k == t.ticket_type_id)) [
  | inl e ↦ rw e refl
  | inr e ↦ rw e refl
]
count_type-units k (suc n) t = elim (Bool-cases (k == t.ticket_type_id)) [
  | inl e ↦ rw e (ap suc (rw e at (count_type-units k n t)))
  | inr e ↦ rw e (rw e at (count_type-units k n t))
]

-- The planned tickets of a type are as many as the order's items want of it.
pub count_type-planned :
    (k id : RecordId) (o : Order) (items : List OrderItem)
    → count_type k (planned id o items) ≡ wanted k items
unfolding planned wanted
count_type-planned k id o [] = unfold count_type in refl
count_type-planned k id o (i ∷ is) =
    rw
      (
        count_type-append k (units i.quantity (ticket_of id o i)) (planned id o is),
        count_type-units k i.quantity (ticket_of id o i),
        count_type-planned k id o is,
      )
      refl
