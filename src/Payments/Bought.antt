-- ===== src/Payments/Bought.antt =====
-- That an order is paid by a payment: what the parts of the calls do to it.
pub mod Success
pub mod Trace
use ticketflow_kenya.Base.{
  ℕ, ◌≡◌, refl, ◌∙◌, true, Option, none, some, ok, err, inl, inr, ◌⊎◌, arith,
}
use ticketflow_kenya.Base.Tables.{row_at}
use ticketflow_kenya.Base.Action.{read, write, throw, ◌>>=◌}
use ticketflow_kenya.Base.Action.Steps.{IsChain, Steps, Steps-write, steps_rules}
use ticketflow_kenya.Orders.{RecordId, Checked, Order}
use ticketflow_kenya.Orders
use ticketflow_kenya.Orders.Service.{reopen_for_retry}
use ticketflow_kenya.Orders.Trace.{Checked-cases}
use ticketflow_kenya.Orders.PaidOrders.{PaidIn, reopen-PaidIn, mark_failed-PaidIn}
use ticketflow_kenya.Payments.{Payment, Notice, Store, Config, PaymentError, Act, is_success}
use ticketflow_kenya.Payments.Settle.{
  notify, update_payment, demand_payment, put_shop, call_orders, put_tickets, issue_tickets,
  upsert_commission, alert_oversold_tiers, alert_if_other, fail_order,
}
use ticketflow_kenya.Payments.Moves.{Moves, update-Moves}
use ticketflow_kenya.Payments.Status.{Onward, Moves-Onward, Follows, Follows-IsQuiet, ⟶-success}
use ticketflow_kenya.Payments.Paid.{success-eq}

-- A payment of the order is SUCCESS.
abbrev pub IsBought : RecordId → Store → Type 0
IsBought k s =
    (i : RecordId) × (p : Payment) × (row_at i s.payments ≡ some p)
    × (p.order_id ≡ k)
    × (is_success p.status ≡ true)

-- Every paid order has such a payment.
abbrev pub AreBought : Store → Type 0
AreBought s = (k : RecordId) → PaidIn k s.shop.orders → IsBought k s

-- The successes stay, and an order that has become paid has one.
abbrev pub Keeps : Store → Store → Type 0
Keeps s t =
    ((k : RecordId) → IsBought k s → IsBought k t)
    × ((k : RecordId) → PaidIn k t.shop.orders → PaidIn k s.shop.orders ⊎ IsBought k t)

pub Keeps-chain : IsChain Keeps
Keeps-chain = record {
  stay = λ s. (λ k h. h, λ k h. inl h);
  join = λ s t u (a, b) (c, d). (
    λ k h. c k (a k h),
    λ k h. elim (d k h) [
      | inl there ↦ elim (b k there) [ inl before ↦ inl before | inr bought ↦ inr (c k bought) ]
      | inr bought ↦ inr bought
    ],
  );
}

Onward-IsBought : (s t : Store) → Onward s t → (k : RecordId) → IsBought k s → IsBought k t
Onward-IsBought s t onward k (i, p, here, of_order, paid) =
    let (q, there, f) = onward i p here in
    let last = ⟶-success p.status q.status f.way (success-eq p.status paid) in
    (i, q, there, f.same_order ∙ of_order, rw last refl)

-- A call that leaves the orders alone.
pub Onward-Keeps :
    {A : Type 0} (m : Act A)
    → Steps Onward m
    → ((s : Store) → (m s).1.shop ≡ s.shop)
    → Steps Keeps m
Onward-Keeps m h same = record {
  at = λ s. (Onward-IsBought s (m s).1 (h.at s), λ k there. inl (rw (same s) at there));
}

pub Moves-Keeps :
    {A : Type 0} (m : Act A)
    → Steps (Moves Follows) m
    → ((s : Store) → (m s).1.shop ≡ s.shop)
    → Steps Keeps m
Moves-Keeps m h same = Onward-Keeps m (record { at = λ s. Moves-Onward s (m s).1 (h.at s) }) same

-- A write that leaves the payments and the orders alone.
unread-Keeps :
    (f : Store → Store)
    → ((s : Store) → (f s).shop ≡ s.shop)
    → ((s : Store) → (f s).payments ≡ s.payments)
    → Steps {E = PaymentError} Keeps (write f)
unread-Keeps f h i =
    Steps-write f (λ s. (λ k bought. rw (i s) bought, λ k there. inl (rw (h s) at there)))

-- What a relation needs of a call of the orders' service.
pub call_orders-at :
    (R : Store → Store → Type 0) (f : Orders.Store → Checked Orders.Store) (s : Store)
    → R s s
    → ((shop : Orders.Store) → f s.shop ≡ ok shop → R s (record s { shop = shop }))
    → R s (call_orders f s).1
unfolding call_orders put_shop ◌>>=◌ read write throw
call_orders-at R f s stay moved = elim (Checked-cases (f s.shop)) [
  | inl (shop, e) ↦ rw e (moved shop e)
  | inr (x, e) ↦ rw e stay
]

pub unpaying-Keeps :
    (f : Orders.Store → Checked Orders.Store)
    → ((shop shop' : Orders.Store)
        → f shop ≡ ok shop'
        → (k : RecordId) → PaidIn k shop'.orders
        → PaidIn k shop.orders)
    → Steps Keeps (call_orders f)
unpaying-Keeps f h = record {
  at = λ s.
      call_orders-at Keeps f s (Keeps-chain.stay s)
        (λ shop e. (λ k bought. bought, λ k there. inl (h s.shop shop e k there)));
}

pub notify-Keeps : (n : Notice) → Steps Keeps (notify n)
unfolding notify
notify-Keeps n = unread-Keeps _ (λ s. refl) (λ s. refl)

pub update-Keeps :
    (id : RecordId) (change : Payment → Payment)
    → ((p : Payment) → Follows p (change p))
    → Steps Keeps (update_payment id change)
update-Keeps id change h =
    Moves-Keeps _ (update-Moves Follows Follows-IsQuiet id change h)
      (λ s. unfold update_payment write in refl)

put_tickets-Keeps : (r : _) → Steps Keeps (put_tickets r)
unfolding put_tickets
put_tickets-Keeps (ok (issued, all)) = unread-Keeps _ (λ s. refl) (λ s. refl)
put_tickets-Keeps (err e) = search (steps_rules, Keeps-chain)

pub issue-Keeps : (id : RecordId) → Steps Keeps (issue_tickets id)
unfolding issue_tickets
issue-Keeps id = search (steps_rules, Keeps-chain, put_tickets-Keeps)

pub upsert-Keeps :
    (cfg : Config) (id : RecordId) (o : Option Order)
    → Steps {E = PaymentError} Keeps (write (upsert_commission cfg id o))
upsert-Keeps cfg id none = unread-Keeps _ (λ s. refl) (λ s. refl)
upsert-Keeps cfg id (some o) = unread-Keeps _ (λ s. ground arith) (λ s. ground arith)

pub oversold-Keeps : (id : RecordId) → Steps Keeps (alert_oversold_tiers id)
unfolding alert_oversold_tiers
oversold-Keeps id = unread-Keeps _ (λ s. refl) (λ s. refl)

pub other-Keeps :
    (order_id id : RecordId) (other : Option (ℕ × Payment))
    → Steps Keeps (alert_if_other order_id id other)
unfolding alert_if_other
other-Keeps order_id id none = search (steps_rules, Keeps-chain)
other-Keeps order_id id (some r) = notify-Keeps _

pub demand-Keeps : (id : RecordId) → Steps Keeps (demand_payment id)
unfolding demand_payment
demand-Keeps id = search (steps_rules, Keeps-chain)

pub fail_order-Keeps : (id : RecordId) → Steps Keeps (fail_order id)
unfolding fail_order
fail_order-Keeps id =
    Steps-write _ (λ s. (λ k bought. bought, λ k there. inl (mark_failed-PaidIn id s.shop k there)))

pub reopen-Keeps : (now id : ℕ) → Steps Keeps (call_orders (reopen_for_retry now id))
reopen-Keeps now id = unpaying-Keeps (reopen_for_retry now id) (reopen-PaidIn now id)
