-- ===== src/Payments/Bought/Success.antt =====
-- That an order is paid by a payment: the calls that follow a success.
use ticketflow_kenya.Base.{ℕ, refl, Option, inl, inr, Option-cases, Bool-cases}
use ticketflow_kenya.Base.Tables.{row_at, alter_at, row_at-alter_at}
use ticketflow_kenya.Base.Action.{read, write, give, throw, demand, ◌>>=◌}
use ticketflow_kenya.Base.Action.Steps.{IsChain, Steps, steps_rules}
use ticketflow_kenya.Orders.{RecordId, Order}
use ticketflow_kenya.Orders.Service.{mark_paid}
use ticketflow_kenya.Orders.PaidOrders.{mark_paid-PaidIn}
use ticketflow_kenya.Payments.{Payment, Notice, Store, Config, PaymentError, Act, is_success}
use ticketflow_kenya.Payments.Settle.{
  notify, update_payment, demand_payment, claim, call_orders, issue_tickets, upsert_commission,
  alert_oversold_tiers, alert_if_other, finish_success, succeed, mark_payment_success,
}
use ticketflow_kenya.Payments.Status.{Follows-succeeds}
use ticketflow_kenya.Payments.Bought.{
  IsBought, Keeps, Keeps-chain, call_orders-at, notify-Keeps, update-Keeps, issue-Keeps,
  upsert-Keeps, oversold-Keeps, other-Keeps,
}

-- While a payment of the order is SUCCESS.
abbrev Under : RecordId → Store → Store → Type 0
Under k s t = IsBought k s → Keeps s t

Under-chain : (k : RecordId) → IsChain (Under k)
Under-chain k = record {
  stay = λ s bought. Keeps-chain.stay s;
  join = λ s t u h i bought. Keeps-chain.join s t u (h bought) (i ((h bought).0 k bought));
}

lift : {A : Type 0} (k : RecordId) (m : Act A) → Steps Keeps m → Steps (Under k) m
lift k m h = record { at = λ s bought. h.at s }

-- The order that is paid is the one of the payment.
pay-Under : (k : RecordId) → Steps (Under k) (call_orders (mark_paid k))
pay-Under k = record {
  at = λ s.
      call_orders-at (Under k) (mark_paid k) s (λ bought. Keeps-chain.stay s)
        (λ shop e bought. (
          λ j b. b,
          λ j there. elim (mark_paid-PaidIn k s.shop shop e j there) [
            | inl before ↦ inl before
            | inr same ↦ inr (rw same bought)
          ],
        ));
}

module _ (k : RecordId) where
  chain-Under : IsChain (Under k)
  chain-Under = Under-chain k

  notify-Under : (n : Notice) → Steps (Under k) (notify n)
  notify-Under n = lift k _ (notify-Keeps n)

  other-Under : (id : RecordId) (o : Option (ℕ × Payment)) → Steps (Under k) (alert_if_other k id o)
  other-Under id o = lift k _ (other-Keeps k id o)

  upsert-Under :
      (cfg : Config) (o : Option Order)
      → Steps {E = PaymentError} (Under k) (write (upsert_commission cfg k o))
  upsert-Under cfg o = lift k _ (upsert-Keeps cfg k o)

  issue-Under : Steps (Under k) (issue_tickets k)
  issue-Under = lift k _ (issue-Keeps k)

  oversold-Under : Steps (Under k) (alert_oversold_tiers k)
  oversold-Under = lift k _ (oversold-Keeps k)

  ruleset under_rules = (
    steps_rules, chain-Under, notify-Under, other-Under, upsert-Under, issue-Under, oversold-Under,
  )

finish_success-Under :
    (cfg : Config) (id : RecordId) (p : Payment)
    → Steps (Under p.order_id) (finish_success cfg id p)
unfolding finish_success
finish_success-Under cfg id p = search (under_rules, pay-Under) depth 14

pub mark_payment_success-Keeps :
    (cfg : Config) (id : RecordId) (receipt : Option ℕ)
    → Steps Keeps (mark_payment_success cfg id receipt)
unfolding mark_payment_success claim update_payment demand_payment demand ◌>>=◌ read write give
    throw
mark_payment_success-Keeps cfg id receipt = record {
  at = λ s. elim (Option-cases (row_at id s.payments)) [
    | inl e ↦ rw e (rw e (Keeps-chain.stay s))
    | inr (p, e) ↦ elim (Bool-cases (is_success p.status)) [
      | inl paid ↦ rw (e, paid) (rw e (Keeps-chain.stay s))
      | inr unpaid ↦
          let t : Store = record s { payments = alter_at id (succeed receipt) s.payments } in
          let now = row_at-alter_at id (succeed receipt) s.payments p e in
          rw (e, unpaid, now)
            (Keeps-chain.join s t (finish_success cfg id (succeed receipt p) t).1
              (unfold update_payment write in
                (update-Keeps id (succeed receipt) (Follows-succeeds receipt)).at s)
              ((finish_success-Under cfg id (succeed receipt p)).at t
                (id, succeed receipt p, now, refl, refl)))
    ]
  ];
}
