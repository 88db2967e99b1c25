-- ===== src/Payments/Issued.antt =====
-- The orders, the stock and the tickets over sequences of calls.
use ticketflow_kenya.Base.{
  ℕ, ◌≡◌, refl, ◌∙◌, sym, ap, true, List, [], ◌∷◌, ◌++◌, some, append-empty, ok, err, ◌⊎◌, inl, inr,
  ◌==◌, ==_iff, Option-cases, Bool-cases,
}
use ticketflow_kenya.Base.Action.{read, write, throw, ◌>>=◌}
use ticketflow_kenya.Base.Action.Steps.{Steps}
use ticketflow_kenya.Orders.{RecordId, Order, find_order, is_paid}
use ticketflow_kenya.Orders
use ticketflow_kenya.Orders.Consistent.{IsConsistent}
use ticketflow_kenya.Orders.Stock.{wanted}
use ticketflow_kenya.Orders.Trace.{run_all-IsConsistent}
use ticketflow_kenya.Orders.Trace
use ticketflow_kenya.Orders.Final.{run-paid}
use ticketflow_kenya.Tickets.{Ticket, planned, tickets_of, generate_for_order, issue}
use ticketflow_kenya.Tickets.Exact.{
  tickets_of-append, planned-own, planned-other, count_type, count_type-planned,
}
use ticketflow_kenya.Payments.{Store, Config}
use ticketflow_kenya.Payments.Settle.{put_tickets, issue_tickets}
use ticketflow_kenya.Payments.Shop.{IsShopwise, run_all-Shopwise}
use ticketflow_kenya.Payments.Trace.{Call, run_all}

-- The orders and the stock have moved by some calls of `OrdersService`.
abbrev ByCalls : Store → Store → Type 0
ByCalls s t = (calls : List Trace.Call) × (t.shop ≡ Trace.run_all calls s.shop)

run_all-append :
    (a b : List Trace.Call) (s : Orders.Store)
    → Trace.run_all (a ++ b) s ≡ Trace.run_all b (Trace.run_all a s)
unfolding Trace.run_all
run_all-append [] b s = refl
run_all-append (c ∷ a) b s = run_all-append a b (Trace.run c s)

pub issue_tickets-shop : (id : RecordId) (s : Store) → ((issue_tickets id s).1).shop ≡ s.shop
unfolding issue_tickets put_tickets ◌>>=◌ read write throw
issue_tickets-shop id s = unread (generate_for_order id (find_order id s.shop.orders) s.tickets)
  where
    unread : (r : _) → ((put_tickets r s).1).shop ≡ s.shop
    unread (ok (issued, all)) = refl
    unread (err e) = refl

ByCalls-IsShopwise : IsShopwise ByCalls
unfolding Trace.run_all
ByCalls-IsShopwise = record {
  chain = record {
    stay = λ s. ([], refl);
    join = λ s t u (a, ha) (b, hb).
        (a ++ b, hb ∙ ap (Trace.run_all b) ha ∙ sym (run_all-append a b s.shop));
  };
  unread = λ s t shop tickets. ([], shop);
  orders = λ c s. (c ∷ [], refl);
  issues = λ id. record { at = λ s. ([], issue_tickets-shop id s) };
}

run_all-ByCalls :
    (cfg : Config) (calls : List (ℕ × Call)) (s : Store) → ByCalls s (run_all cfg calls s)
run_all-ByCalls = run_all-Shopwise ByCalls ByCalls-IsShopwise

-- The tickets of an order are none, or the order is paid and they are the planned ones.
abbrev pub IsIssued : Store → Type 0
IsIssued s =
    (id : RecordId)
    → (tickets_of id s.tickets ≡ [])
      ⊎ ((o : Order) × (find_order id s.shop.orders ≡ some o)
          × (is_paid o.status ≡ true)
          × (tickets_of id s.tickets ≡ planned id o o.items))

-- A relation that keeps it.
abbrev KeepsIssued : Store → Store → Type 0
KeepsIssued s t = IsIssued s → IsIssued t

issue-IsIssued :
    (id : RecordId) (s : Store) (o : Order)
    → find_order id s.shop.orders ≡ some o
    → is_paid o.status ≡ true
    → tickets_of id s.tickets ≡ []
    → IsIssued s
    → IsIssued (record s { tickets = s.tickets ++ planned id o o.items })
issue-IsIssued id s o here paid empty issued k = elim (Bool-cases (id == k)) [
  | inl e ↦
      let same : id ≡ k = (==_iff id k).0 e in
      rw (← same) (
        inr (
          o,
          here,
          paid,
          tickets_of-append id s.tickets (planned id o o.items)
              ∙ rw empty (planned-own id o o.items),
        ))
  | inr e ↦
      rw
        (
          tickets_of-append k s.tickets (planned id o o.items),
          planned-other k id o o.items e,
          append-empty (tickets_of k s.tickets),
        )
        (issued k)
]

issues-KeepsIssued : (id : RecordId) → Steps KeepsIssued (issue_tickets id)
unfolding issue_tickets put_tickets generate_for_order ◌>>=◌ read write throw
issues-KeepsIssued id = record {
  at = λ s issued. elim (Option-cases (find_order id s.shop.orders)) [
    | inl e ↦ rw e issued
    | inr (o, here) ↦ elim (Bool-cases (is_paid o.status)) [
      | inl paid ↦ rw (here, paid) (by_existing s o here paid issued (tickets_of id s.tickets) refl)
      | inr unpaid ↦ rw (here, unpaid) issued
    ]
  ];
}
  where
    by_existing :
        (s : Store) (o : Order)
        → find_order id s.shop.orders ≡ some o
        → is_paid o.status ≡ true
        → IsIssued s
        → (old : List Ticket) → tickets_of id s.tickets ≡ old
        → IsIssued (put_tickets (ok (issue old (planned id o o.items) s.tickets)) s).1
    by_existing s o here paid issued [] empty = issue-IsIssued id s o here paid empty issued
    by_existing s o here paid issued (t ∷ ts) e = issued

orders-KeepsIssued :
    (c : Trace.Call) (s : Store) → KeepsIssued s (record s { shop = Trace.run c s.shop })
orders-KeepsIssued c s issued id = elim (issued id) [
  | inl empty ↦ inl empty
  | inr (o, here, paid, same) ↦ inr (o, run-paid c s.shop id o here paid, paid, same)
]

KeepsIssued-IsShopwise : IsShopwise KeepsIssued
KeepsIssued-IsShopwise = record {
  chain = record { stay = λ s h. h; join = λ s t u h k issued. k (h issued) };
  unread = λ s t shop tickets issued id. rw (shop, tickets) (issued id);
  orders = orders-KeepsIssued;
  issues = issues-KeepsIssued;
}

-- Over any sequence of calls, with whatever callbacks and answers of Daraja, and however many payments
-- of an order succeed: when the tickets of each order are none, or those of its items with the
-- order paid, they still are.
pub run_all-IsIssued :
    (cfg : Config) (calls : List (ℕ × Call)) (s : Store)
    → IsIssued s
    → IsIssued (run_all cfg calls s)
run_all-IsIssued = run_all-Shopwise KeepsIssued KeepsIssued-IsShopwise

-- Over any sequence of calls from tables without tickets, an order with a ticket has as many
-- tickets of each type as its items want of it, and is paid.
pub issued_as_wanted :
    (cfg : Config) (calls : List (ℕ × Call)) (s : Store) (id k : RecordId) (t : Ticket)
    (ts : List Ticket)
    → s.tickets ≡ []
    → tickets_of id (run_all cfg calls s).tickets ≡ t ∷ ts
    → (o : Order) × (find_order id (run_all cfg calls s).shop.orders ≡ some o)
      × (is_paid o.status ≡ true)
      × (count_type k (t ∷ ts) ≡ wanted k o.items)
issued_as_wanted cfg calls s id k t ts empty some_tickets =
    elim (run_all-IsIssued cfg calls s (λ i. inl (rw empty (unfold tickets_of in refl))) id) [
      | inl none_issued ↦ cc (none_issued, some_tickets)
      | inr (o, here, paid, same) ↦
          let planned_so : t ∷ ts ≡ planned id o o.items = rw some_tickets at same in
          (o, here, paid, rw planned_so (count_type-planned k id o o.items))
    ]

-- Over any sequence of calls from tables where every counter `quantitySold` is what the pending and
-- paid orders hold of its ticket type, every counter still is.
pub payments-IsConsistent :
    (cfg : Config) (calls : List (ℕ × Call)) (s : Store)
    → IsConsistent s.shop
    → IsConsistent (run_all cfg calls s).shop
payments-IsConsistent cfg calls s consistent =
    let (cs, same) = run_all-ByCalls cfg calls s in
    rw same (run_all-IsConsistent cs s.shop consistent)
