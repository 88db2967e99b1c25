-- ===== src/Payments/Shop.antt =====
-- What the payments do to the orders and the stock.
use ticketflow_kenya.Base.{
  ℕ, ◌≡◌, refl, Bool, true, List, [], ◌∷◌, ◌++◌, Option, none, some, ok, err, inl, inr, arith,
}
use ticketflow_kenya.Base.Action.{read, write, give, throw, ◌>>=◌}
use ticketflow_kenya.Base.Action.Steps.{IsChain, Steps, Steps-write, steps_rules}
use ticketflow_kenya.Orders.{RecordId, Checked, Order}
use ticketflow_kenya.Orders
use ticketflow_kenya.Orders.Service.{create, mark_paid, reopen_for_retry}
use ticketflow_kenya.Orders.Trace.{kept, Checked-cases, run_all-IsConsistent}
use ticketflow_kenya.Orders.Trace
use ticketflow_kenya.Payments.{Payment, PaymentStatus, Notice, Store, Config, PaymentError}
use ticketflow_kenya.Payments.Settle.{
  notify, update_payment, demand_payment, claim, put_shop, call_orders, issue_tickets,
  upsert_commission, alert_oversold_tiers, alert_if_other, finish_success, mark_payment_success,
  Unsuccessful, fail_order, finish_unsuccessful, mark_payment_unsuccessful,
}
use ticketflow_kenya.Payments.Reconcile.{Ask}
use ticketflow_kenya.Payments.Initiate.{
  retire_existing, create_payment, send_push, start_payment, perform_initiation,
}
use ticketflow_kenya.Payments.Handlers.{IsHandled, is_settling, run-Steps, retire_existing-Steps}
use ticketflow_kenya.Payments.Trace.{
  Call, place_order, initiate, create_order, second, run, run_all,
}

-- A relation that does not look at the payments, and that each use of the orders and of the tickets
-- satisfies.
pub record IsShopwise (R : Store → Store → Type 0) : Type 0 where
  pub chain : IsChain R
  pub unread : (s t : Store) → t.shop ≡ s.shop → t.tickets ≡ s.tickets → R s t
  pub orders : (c : Trace.Call) (s : Store) → R s (record s { shop = Trace.run c s.shop })
  pub issues : (id : RecordId) → Steps R (issue_tickets id)

module _ (R : Store → Store → Type 0) (shopwise : IsShopwise R) where
  chain-rule : IsChain R
  chain-rule = shopwise.chain

  issue-rule : (id : RecordId) → Steps R (issue_tickets id)
  issue-rule = shopwise.issues

  unread-Steps :
      (f : Store → Store)
      → ((s : Store) → (f s).shop ≡ s.shop)
      → ((s : Store) → (f s).tickets ≡ s.tickets)
      → Steps {E = PaymentError} R (write f)
  unread-Steps f h i = Steps-write f (λ s. shopwise.unread s (f s) (h s) (i s))

  pub notify-Steps : (n : Notice) → Steps R (notify n)
  unfolding notify
  notify-Steps n = unread-Steps _ (λ s. refl) (λ s. refl)

  pub update-Steps : (id : ℕ) (change : Payment → Payment) → Steps R (update_payment id change)
  unfolding update_payment
  update-Steps id change = unread-Steps _ (λ s. refl) (λ s. refl)

  create_payment-Steps : (p : Payment) → Steps R (create_payment p)
  unfolding create_payment ◌>>=◌ read write give
  create_payment-Steps p = record {
    at = λ s. shopwise.unread s (record s { payments = s.payments ++ p ∷ [] }) refl refl;
  }

  -- A call of the orders' service is a call of its traces, or it throws and changes nothing.
  call_orders-Steps :
      (c : Trace.Call) (f : Orders.Store → Checked Orders.Store)
      → ((shop : Orders.Store) → Trace.run c shop ≡ kept shop (f shop))
      → Steps R (call_orders f)
  unfolding call_orders put_shop ◌>>=◌ read write throw
  call_orders-Steps c f h = record {
    at = λ s. elim (Checked-cases (f s.shop)) [
      | inl (shop, e) ↦
          let ran : Trace.run c s.shop ≡ shop = rw e at (h s.shop) in
          rw e (rw ran at (shopwise.orders c s))
      | inr (x, e) ↦ rw e (shopwise.chain.stay s)
    ];
  }

  pays-Steps : (id : RecordId) → Steps R (call_orders (mark_paid id))
  unfolding Trace.run
  pays-Steps id = call_orders-Steps (Trace.pay id) (mark_paid id) (λ shop. refl)

  pub reopens-Steps : (now id : ℕ) → Steps R (call_orders (reopen_for_retry now id))
  unfolding Trace.run
  reopens-Steps now id =
      call_orders-Steps (Trace.reopen now id) (reopen_for_retry now id) (λ shop. refl)

  fails-Steps : (id : RecordId) → Steps R (fail_order id)
  unfolding fail_order Trace.run
  fails-Steps id = Steps-write _ (λ s. shopwise.orders (Trace.fail id) s)

  upsert-Steps :
      (cfg : Config) (id : RecordId) (o : Option Order)
      → Steps {E = PaymentError} R (write (upsert_commission cfg id o))
  upsert-Steps cfg id none = unread-Steps _ (λ s. refl) (λ s. refl)
  upsert-Steps cfg id (some o) = unread-Steps _ (λ s. ground arith) (λ s. ground arith)

  oversold-Steps : (id : RecordId) → Steps R (alert_oversold_tiers id)
  unfolding alert_oversold_tiers
  oversold-Steps id = unread-Steps _ (λ s. refl) (λ s. refl)

  alert_if_other-Steps :
      (order_id id : RecordId) (other : Option (ℕ × Payment))
      → Steps R (alert_if_other order_id id other)
  unfolding alert_if_other
  alert_if_other-Steps order_id id none = search (steps_rules, chain-rule)
  alert_if_other-Steps order_id id (some r) = notify-Steps _

  pub demand-Steps : (id : RecordId) → Steps R (demand_payment id)
  unfolding demand_payment
  demand-Steps id = search (steps_rules, chain-rule)

  claim-Steps :
      (id : RecordId) (test : PaymentStatus → Bool) (change : Payment → Payment)
      → Steps R (claim id test change)
  unfolding claim
  claim-Steps id test change = search (steps_rules, chain-rule, update-Steps) depth 10

  ruleset shop_rules = (
    steps_rules, chain-rule, issue-rule, notify-Steps, update-Steps, create_payment-Steps,
    pays-Steps, reopens-Steps, fails-Steps, upsert-Steps, oversold-Steps, alert_if_other-Steps,
    demand-Steps, claim-Steps,
  )

  finish_success-Steps :
      (cfg : Config) (id : RecordId) (p : Payment) → Steps R (finish_success cfg id p)
  unfolding finish_success
  finish_success-Steps cfg id p = search shop_rules depth 14

  mark_payment_success-Steps :
      (cfg : Config) (id : RecordId) (receipt : Option ℕ)
      → Steps R (mark_payment_success cfg id receipt)
  unfolding mark_payment_success
  mark_payment_success-Steps cfg id receipt = search (shop_rules, finish_success-Steps) depth 14

  finish_unsuccessful-Steps :
      (now : ℕ) (id : RecordId) (u : Unsuccessful) (release : Bool) (p : Payment)
      → Steps R (finish_unsuccessful now id u release p)
  unfolding finish_unsuccessful
  finish_unsuccessful-Steps now id u release p = search shop_rules depth 14

  mark_payment_unsuccessful-Steps :
      (now : ℕ) (id : RecordId) (u : Unsuccessful) (release : Bool)
      → Steps R (mark_payment_unsuccessful now id u release)
  unfolding mark_payment_unsuccessful
  mark_payment_unsuccessful-Steps now id u release =
      search (shop_rules, finish_unsuccessful-Steps) depth 14

  Shop-IsHandled : IsHandled R
  Shop-IsHandled = record {
    chain = shopwise.chain;
    notifies = notify-Steps;
    polls = λ now id r v. update-Steps id _;
    verifies = λ id p. update-Steps id _;
    receives = λ id c. update-Steps id _;
    fills = λ id r. update-Steps id _;
    fails = mark_payment_unsuccessful-Steps;
  }

  pub retire-rule :
      (cfg : Config) (now : ℕ) (ask : Ask) (o : Option (ℕ × Payment))
      → Steps R (retire_existing cfg now ask o)
  retire-rule = retire_existing-Steps R Shop-IsHandled mark_payment_success-Steps

  send_push-Steps :
      (cfg : Config) (now : ℕ) (push : Option ℕ) (id : ℕ) → Steps R (send_push cfg now push id)
  unfolding send_push
  send_push-Steps cfg now none id = search shop_rules depth 10
  send_push-Steps cfg now (some request) id = search shop_rules depth 12

  start_payment-Steps :
      (cfg : Config) (now : ℕ) (push : Option ℕ) (order_id : ℕ) (order : Order)
      (live : Option (ℕ × Payment))
      → Steps R (start_payment cfg now push order_id order live)
  unfolding start_payment
  start_payment-Steps cfg now push order_id order (some r) = search shop_rules
  start_payment-Steps cfg now push order_id order none =
      search (shop_rules, send_push-Steps) depth 12

  perform_initiation-Steps :
      (cfg : Config) (now : ℕ) (ask : Ask) (push : Option ℕ) (user order_id : ℕ)
      → Steps R (perform_initiation cfg now ask push user order_id)
  unfolding perform_initiation
  perform_initiation-Steps cfg now ask push user order_id =
      search (shop_rules, retire-rule, start_payment-Steps) depth 16

  kept-second :
      (shop : Orders.Store) (r : Checked (Order × Orders.Store))
      → Trace.kept_pair shop r ≡ kept shop (second r)
  kept-second shop (ok r) = refl
  kept-second shop (err e) = refl

  create_order-Steps :
      (now : ℕ) (production : Bool) (percent user : ℕ) (dto : Orders.CreateOrderDto)
      → Steps R (create_order now production percent user dto)
  unfolding create_order Trace.run
  create_order-Steps now production percent user dto =
      call_orders-Steps (Trace.create_order production percent now user dto)
        (λ shop. second (create production percent now user dto shop))
        (λ shop. kept-second shop (create production percent now user dto shop))

  settling-rule :
      (cfg : Config) (now : ℕ) (call : Call) (s : Store)
      → is_settling call ≡ true
      → R s (run cfg now call s)
  settling-rule = run-Steps R Shop-IsHandled mark_payment_success-Steps

  pub run-Shopwise : (cfg : Config) (now : ℕ) (call : Call) (s : Store) → R s (run cfg now call s)
  unfolding run
  run-Shopwise cfg now (place_order production percent user dto) s =
      (create_order-Steps now production percent user dto).at s
  run-Shopwise cfg now (initiate ask push user order_id) s =
      (perform_initiation-Steps cfg now ask push user order_id).at s
  run-Shopwise cfg now call s = settling-rule cfg now call s refl

  -- Any sequence of calls.
  pub run_all-Shopwise :
      (cfg : Config) (calls : List (ℕ × Call)) (s : Store) → R s (run_all cfg calls s)
  unfolding run_all
  run_all-Shopwise cfg [] s = shopwise.chain.stay s
  run_all-Shopwise cfg ((now, call) ∷ calls) s =
      shopwise.chain.join s (run cfg now call s) (run_all cfg calls (run cfg now call s))
        (run-Shopwise cfg now call s) (run_all-Shopwise cfg calls (run cfg now call s))
