-- ===== src/Orders/Payable.antt =====
-- When `markPaid` returns.
use ticketflow_kenya.Base.{
  ◌≡◌, refl, true, List, [], ◌∷◌, some, ok, Bool-cases, inl, inr, ◌==◌, All,
}
use ticketflow_kenya.Orders.{
  RecordId, TicketType, OrderItem, TicketTypes, Order, OrderStatus, Store, find_order, set_status,
  with_status, is_paid,
}
use ticketflow_kenya.Orders.Service.{
  add_sold, update_row, reserve_item, reserve_all, reserve_items, reserve_late, pay_unpaid,
  mark_paid,
}
use ticketflow_kenya.Orders.Operations.{find_set_status}

-- The ticket type of each item exists.
abbrev pub AreKnown : List OrderItem → TicketTypes → Type 0
AreKnown items types =
    All (λ (i : OrderItem). (t : TicketType) × (types i.ticket_type_id ≡ some t)) items

AreKnown-update_row :
    (items : List OrderItem) (id : RecordId) (change : TicketType → TicketType)
    (types : TicketTypes)
    → AreKnown items types
    → AreKnown items (update_row id change types)
AreKnown-update_row [] id change types known = tt
AreKnown-update_row (i ∷ is) id change types ((t, here), rest) = (
  elim (Bool-cases (i.ticket_type_id == id)) [
    | inl e ↦ (change t, rw (e, here) refl)
    | inr e ↦ (t, rw e here)
  ],
  AreKnown-update_row is id change types rest,
)

-- A late payment reserves its items however many are left.
reserve_all-returns :
    (items : List OrderItem) (types : TicketTypes)
    → AreKnown items types
    → (types' : TicketTypes) × (reserve_all true items types ≡ ok types')
unfolding reserve_all reserve_item
reserve_all-returns [] types known = (types, refl)
reserve_all-returns (i ∷ is) types ((t, here), rest) =
    let (types', e) =
      reserve_all-returns is (update_row i.ticket_type_id (add_sold i.quantity) types)
        (AreKnown-update_row is i.ticket_type_id (add_sold i.quantity) types rest) in
    (types', rw here e)

reserve_late-returns :
    (status : OrderStatus) (id : RecordId) (s : Store) (o : Order)
    → find_order id s.orders ≡ some o
    → AreKnown o.items s.ticket_types
    → (r : Store) × (reserve_late status id s ≡ ok r) × (r.orders ≡ s.orders)
unfolding reserve_items
reserve_late-returns OrderStatus.pending id s o here known = (s, refl, refl)
reserve_late-returns OrderStatus.paid id s o here known =
    let (types, e) = reserve_all-returns o.items s.ticket_types known in
    (record s { ticket_types = types }, rw (here, e) refl, refl)
reserve_late-returns OrderStatus.failed id s o here known =
    let (types, e) = reserve_all-returns o.items s.ticket_types known in
    (record s { ticket_types = types }, rw (here, e) refl, refl)
reserve_late-returns OrderStatus.cancelled id s o here known =
    let (types, e) = reserve_all-returns o.items s.ticket_types known in
    (record s { ticket_types = types }, rw (here, e) refl, refl)

-- The order is there and paid, with these items.
abbrev pub IsPaidFor : RecordId → List OrderItem → Store → Type 0
IsPaidFor id items s =
    (o : Order) × (find_order id s.orders ≡ some o) × (is_paid o.status ≡ true) × (o.items ≡ items)

-- `markPaid` of an order that exists, with its ticket types, returns and leaves it paid.
pub mark_paid-pays :
    (id : RecordId) (s : Store) (o : Order)
    → find_order id s.orders ≡ some o
    → AreKnown o.items s.ticket_types
    → (s' : Store) × (mark_paid id s ≡ ok s') × IsPaidFor id o.items s'
unfolding mark_paid pay_unpaid
mark_paid-pays id s o here known = elim (Bool-cases (is_paid o.status)) [
  | inl paid ↦ (s, rw (here, paid) refl, (o, here, paid, refl))
  | inr unpaid ↦
      let (r, e, same) = reserve_late-returns o.status id s o here known in
      (
        record r { orders = set_status id OrderStatus.paid r.orders },
        rw (here, unpaid, e) refl,
        (
          with_status OrderStatus.paid o,
          rw same (find_set_status id OrderStatus.paid s.orders o here),
          refl,
          refl,
        ),
      )
]
