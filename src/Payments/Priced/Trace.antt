-- ===== src/Payments/Priced/Trace.antt =====
-- That a payment is for the total amount of its order, over sequences of calls.
use ticketflow_kenya.Base.{
  ℕ, not, ◌==◌, ◌≡◌, refl, false, List, [], ◌∷◌, Option, none, some, inl, inr, Option-cases,
}
use ticketflow_kenya.Base.Tables.{find_latest}
use ticketflow_kenya.Base.Action.{read, give, throw, demand, refuse_if, ◌>>=◌}
use ticketflow_kenya.Base.Action.Steps.{Steps, Steps-bind, steps_rules}
use ticketflow_kenya.Orders.{Order, find_order, is_paid}
use ticketflow_kenya.Payments.{
  Payment, Store, Config, not_your_order, order_already_paid, order_was_cancelled,
}
use ticketflow_kenya.Payments.Reconcile.{Ask}
use ticketflow_kenya.Payments.Initiate.{
  is_cancelled_order, is_live_for, retire_existing, start_payment, perform_initiation,
}
use ticketflow_kenya.Payments.Trace.{Call, initiate, run, run_all}
use ticketflow_kenya.Payments.Moves.{is_initiation, run-Moves}
use ticketflow_kenya.Payments.Shop.{run-Shopwise}
use ticketflow_kenya.Payments.Priced.{
  IsPriced, Lasts, Lasts-IsShopwise, SameDeal, SameDeal-IsQuiet, Moves-Prices, Knowing,
  Knowing-chain, retire-Knowing, reopen-Knowing, send_push-Knowing, create-Knowing,
}

start_payment-Knowing :
    (cfg : Config) (now : ℕ) (push : Option ℕ) (order_id : ℕ) (order : Order)
    (live : Option (ℕ × Payment))
    → Steps (Knowing order_id order.total_amount) (start_payment cfg now push order_id order live)
unfolding start_payment
start_payment-Knowing cfg now push order_id order (some r) =
    search (steps_rules, Knowing-chain order_id order.total_amount)
start_payment-Knowing cfg now push order_id order none =
    Steps-bind (Knowing-chain order_id order.total_amount) _ _
      (reopen-Knowing order_id order.total_amount now order_id)
      (λ _.
        Steps-bind (Knowing-chain order_id order.total_amount) _ _
          (create-Knowing now order_id order)
          (send_push-Knowing order_id order.total_amount cfg now push))

-- `performInitiation`, from the checks of the order on.
checked-Knowing :
    (cfg : Config) (now : ℕ) (ask : Ask) (push : Option ℕ) (user order_id : ℕ) (order : Order)
    → Steps (Knowing order_id order.total_amount) (
        refuse_if (not (order.user_id == user)) not_your_order >>= λ _.
        refuse_if (is_paid order.status) order_already_paid >>= λ _.
        refuse_if (is_cancelled_order order.status) order_was_cancelled >>= λ _.
        read (λ s. find_latest (λ p. p.created_at) (is_live_for order_id) s.payments)
        >>= λ existing. retire_existing cfg now ask existing >>= λ live.
            start_payment cfg now push order_id order live)
checked-Knowing cfg now ask push user order_id order =
    search
      (
        steps_rules,
        Knowing-chain order_id order.total_amount,
        retire-Knowing order_id order.total_amount,
        start_payment-Knowing,
      )
      depth 16

perform_initiation-IsPriced :
    (cfg : Config) (now : ℕ) (ask : Ask) (push : Option ℕ) (user order_id : ℕ) (s : Store)
    → IsPriced s
    → IsPriced (perform_initiation cfg now ask push user order_id s).1
unfolding perform_initiation read demand give throw ◌>>=◌
perform_initiation-IsPriced cfg now ask push user order_id s priced =
    elim (Option-cases (find_order order_id s.shop.orders)) [
      | inl e ↦ rw e priced
      | inr (order, e) ↦
          rw e (
            ((checked-Knowing cfg now ask push user order_id order).at s (order, e, refl)).1 priced)
    ]

-- No other call adds a payment.
other-IsPriced :
    (cfg : Config) (now : ℕ) (call : Call) (s : Store)
    → is_initiation call ≡ false
    → IsPriced s
    → IsPriced (run cfg now call s)
other-IsPriced cfg now call s h =
    (Moves-Prices s (run cfg now call s) (run-Shopwise Lasts Lasts-IsShopwise cfg now call s)
      (run-Moves SameDeal SameDeal-IsQuiet (λ receipt p. (refl, refl)) cfg now call s h)).1

run-IsPriced :
    (cfg : Config) (now : ℕ) (call : Call) (s : Store) → IsPriced s → IsPriced (run cfg now call s)
unfolding run
run-IsPriced cfg now (initiate ask push user order_id) s priced =
    perform_initiation-IsPriced cfg now ask push user order_id s priced
run-IsPriced cfg now call s priced = other-IsPriced cfg now call s refl priced

-- From tables where every payment is for an order that is there and for the order's total amount,
-- the same is true after any sequence of calls, whether they return or throw.
pub run_all-IsPriced :
    (cfg : Config) (calls : List (ℕ × Call)) (s : Store)
    → IsPriced s
    → IsPriced (run_all cfg calls s)
unfolding run_all
run_all-IsPriced cfg [] s priced = priced
run_all-IsPriced cfg ((now, call) ∷ calls) s priced =
    run_all-IsPriced cfg calls (run cfg now call s) (run-IsPriced cfg now call s priced)
