-- ===== src/Payments/Fulfilled.antt =====
-- What the success of a payment does to its order.
use ticketflow_kenya.Base.{
  ℕ, ◌≡◌, refl, true, false, List, [], ◌∷◌, ◌++◌, Option, some, Result, ok, Bool-cases,
  Option-cases, inl, inr,
}
use ticketflow_kenya.Base.Tables.{row_at, alter_at, row_at-alter_at, find_row}
use ticketflow_kenya.Base.Action.{read, write, give, demand, ◌>>=◌}
use ticketflow_kenya.Orders.{RecordId, Order, OrderItem, find_order, is_paid}
use ticketflow_kenya.Orders.Service.{mark_paid}
use ticketflow_kenya.Orders.Payable.{AreKnown, IsPaidFor, mark_paid-pays}
use ticketflow_kenya.Orders.Stock.{wanted}
use ticketflow_kenya.Tickets.{planned, tickets_of, generate_for_order}
use ticketflow_kenya.Tickets.Exact.{tickets_of-append, planned-own, count_type, count_type-planned}
use ticketflow_kenya.Payments.{
  Payment, Store, Config, PaymentError, audit_success, alert_double_charge, is_success,
}
use ticketflow_kenya.Payments.Settle.{
  notify, update_payment, demand_payment, claim, put_shop, call_orders, put_tickets, issue_tickets,
  has_commission, upsert_commission, alert_oversold_tiers, alert_if_other, is_other_success,
  finish_success, succeed, mark_payment_success,
}

-- The order is paid and has its tickets: as many of each type as its items want.
abbrev pub IsFulfilled : RecordId → List OrderItem → Store → Type 0
IsFulfilled id items s =
    IsPaidFor id items s.shop
    × ((k : RecordId) → count_type k (tickets_of id s.tickets) ≡ wanted k items)

-- The call returns the payment and leaves the payments and its order so.
abbrev Fulfils :
    RecordId
    → List OrderItem
    → Payment
    → List Payment
    → Result PaymentError Payment × Store
    → Type 0
Fulfils id items p payments r = (r.0 ≡ ok p) × (r.1.payments ≡ payments) × IsFulfilled id items r.1

-- Once the order is paid.
issue-Fulfils :
    (id : RecordId) (p : Payment) (s : Store) (o : Order)
    → find_order p.order_id s.shop.orders ≡ some o
    → is_paid o.status ≡ true
    → tickets_of p.order_id s.tickets ≡ []
    → Fulfils p.order_id o.items p s.payments (
        (issue_tickets p.order_id >>= λ _.
        alert_oversold_tiers p.order_id >>= λ _. notify (audit_success id) >>= λ _. give p)
          s)
unfolding issue_tickets put_tickets generate_for_order alert_oversold_tiers notify ◌>>=◌ read write
    give
issue-Fulfils id p s o here paid empty =
    rw (here, paid, empty)
      (
        refl,
        refl,
        (
          (o, here, paid, refl),
          λ k.
              rw
                (
                  tickets_of-append p.order_id s.tickets (planned p.order_id o o.items),
                  empty,
                  planned-own p.order_id o o.items,
                )
                (count_type-planned k p.order_id o o.items),
        ),
      )

-- The commission changes nothing else.
commission-Fulfils :
    (cfg : Config) (id : RecordId) (p : Payment) (s : Store) (o : Order)
    → find_order p.order_id s.shop.orders ≡ some o
    → is_paid o.status ≡ true
    → tickets_of p.order_id s.tickets ≡ []
    → Fulfils p.order_id o.items p s.payments (
        (issue_tickets p.order_id >>= λ _.
        alert_oversold_tiers p.order_id >>= λ _. notify (audit_success id) >>= λ _. give p)
          (upsert_commission cfg p.order_id (some o) s))
commission-Fulfils cfg id p s o here paid empty =
    elim (Bool-cases (has_commission p.order_id s.commissions)) [
      | inl e ↦ rw e (issue-Fulfils id p s o here paid empty)
      | inr e ↦ rw e (issue-Fulfils id p _ o here paid empty)
    ]

-- From the call of `markPaid` on.
paying-Fulfils :
    (cfg : Config) (id : RecordId) (p : Payment) (s : Store) (o : Order)
    → find_order p.order_id s.shop.orders ≡ some o
    → AreKnown o.items s.shop.ticket_types
    → tickets_of p.order_id s.tickets ≡ []
    → Fulfils p.order_id o.items p s.payments (
        (call_orders (mark_paid p.order_id) >>= λ _.
        read (λ t. find_order p.order_id t.shop.orders) >>= λ order.
        write (upsert_commission cfg p.order_id order) >>= λ _. issue_tickets p.order_id >>= λ _.
        alert_oversold_tiers p.order_id >>= λ _. notify (audit_success id) >>= λ _. give p)
          s)
unfolding call_orders put_shop ◌>>=◌ read write
paying-Fulfils cfg id p s o here known empty =
    let (shop, pays, (order, there, paid, items)) = mark_paid-pays p.order_id s.shop o here known in
    rw (pays, there, ← items)
      (commission-Fulfils cfg id p (record s { shop = shop }) order there paid empty)

finish_success-Fulfils :
    (cfg : Config) (id : RecordId) (p : Payment) (s : Store) (o : Order)
    → find_order p.order_id s.shop.orders ≡ some o
    → AreKnown o.items s.shop.ticket_types
    → tickets_of p.order_id s.tickets ≡ []
    → Fulfils p.order_id o.items p s.payments (finish_success cfg id p s)
unfolding finish_success alert_if_other ◌>>=◌ read write give notify
finish_success-Fulfils cfg id p s o here known empty =
    elim (Option-cases (find_row (is_other_success p.order_id id) s.payments)) [
      | inl e ↦ rw e (paying-Fulfils cfg id p s o here known empty)
      | inr ((other, q), e) ↦ rw e (
          paying-Fulfils cfg id p
            (record s { notices = s.notices ++ alert_double_charge p.order_id other ∷ [] }) o here
            known empty)
    ]

-- For a payment that is not SUCCESS yet, pending or written off, whose order exists with its ticket
-- types and has no tickets, `markPaymentSuccess` returns the payment as SUCCESS and stores it so, the
-- order is PAID with the items it had, and it has as many tickets of each type as its items want.
pub mark_payment_success-fulfils :
    (cfg : Config) (id : RecordId) (receipt : Option ℕ) (s : Store) (p : Payment) (o : Order)
    → row_at id s.payments ≡ some p
    → is_success p.status ≡ false
    → find_order p.order_id s.shop.orders ≡ some o
    → AreKnown o.items s.shop.ticket_types
    → tickets_of p.order_id s.tickets ≡ []
    → ((mark_payment_success cfg id receipt s).0 ≡ ok (succeed receipt p))
      × (row_at id (mark_payment_success cfg id receipt s).1.payments ≡ some (succeed receipt p))
      × (is_success (succeed receipt p).status ≡ true)
      × IsFulfilled p.order_id o.items (mark_payment_success cfg id receipt s).1
unfolding mark_payment_success claim update_payment demand_payment demand ◌>>=◌ read write give
mark_payment_success-fulfils cfg id receipt s p o row unpaid here known empty =
    let t : Store = record s { payments = alter_at id (succeed receipt) s.payments } in
    let now = row_at-alter_at id (succeed receipt) s.payments p row in
    let (returns, kept, fulfilled) =
      finish_success-Fulfils cfg id (succeed receipt p) t o here known empty in
    rw (row, unpaid, now) (returns, rw kept now, refl, fulfilled)
