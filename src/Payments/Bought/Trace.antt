-- ===== src/Payments/Bought/Trace.antt =====
-- That an order is paid by a payment, over sequences of calls.
use ticketflow_kenya.Base.{
  ℕ, ◌≡◌, refl, Bool, true, List, [], ◌∷◌, ◌++◌, Option, none, some, inl, inr, Option-cases, length,
  Bool-cases,
}
use ticketflow_kenya.Base.Tables.{row_at, alter_at}
use ticketflow_kenya.Base.Action.{read, write, give, throw, demand, ◌>>=◌}
use ticketflow_kenya.Base.Action.Steps.{Steps, Steps-bind, steps_rules}
use ticketflow_kenya.Orders.{RecordId, Order, CreateOrderDto}
use ticketflow_kenya.Orders.Service.{create}
use ticketflow_kenya.Orders.Trace.{Checked-cases}
use ticketflow_kenya.Orders.PaidOrders.{create-PaidIn}
use ticketflow_kenya.Payments.{Payment, Store, Config, is_pending}
use ticketflow_kenya.Payments.Settle.{
  notify, update_payment, demand_payment, claim, matches, Unsuccessful, settle, finish_unsuccessful,
  mark_payment_unsuccessful,
}
use ticketflow_kenya.Payments.Reconcile.{Ask}
use ticketflow_kenya.Payments.Initiate.{
  retire_existing, new_payment, create_payment, send_push, pushed, start_payment,
  perform_initiation,
}
use ticketflow_kenya.Payments.Trace.{
  Call, place_order, initiate, second, create_order, run, run_all,
}
use ticketflow_kenya.Payments.Handlers.{IsHandled, is_settling, run-Steps, retire_existing-Steps}
use ticketflow_kenya.Payments.Moves.{claim-Moves}
use ticketflow_kenya.Payments.Status.{Follows, Follows-IsQuiet, create-Onward}
use ticketflow_kenya.Payments.Bought.{
  AreBought, Keeps, Keeps-chain, Onward-Keeps, Moves-Keeps, unpaying-Keeps, notify-Keeps,
  update-Keeps, demand-Keeps, fail_order-Keeps, reopen-Keeps,
}
use ticketflow_kenya.Payments.Bought.Success.{mark_payment_success-Keeps}

claim-Keeps : (id : RecordId) (u : Unsuccessful) → Steps Keeps (claim id is_pending (settle u))
claim-Keeps id u =
    Moves-Keeps _
      (claim-Moves Follows Follows-IsQuiet id is_pending (settle u) (Follows-IsQuiet.settled u))
      (unfold claim update_payment ◌>>=◌ read write give in
        λ s. elim (Bool-cases (matches is_pending (row_at id s.payments))) [
          | inl e ↦ rw e refl
          | inr e ↦ rw e refl
        ])

finish_unsuccessful-Keeps :
    (now : ℕ) (id : RecordId) (u : Unsuccessful) (release : Bool) (p : Payment)
    → Steps Keeps (finish_unsuccessful now id u release p)
unfolding finish_unsuccessful
finish_unsuccessful-Keeps now id u release p =
    search (steps_rules, Keeps-chain, notify-Keeps, fail_order-Keeps) depth 14

mark_payment_unsuccessful-Keeps :
    (now : ℕ) (id : RecordId) (u : Unsuccessful) (release : Bool)
    → Steps Keeps (mark_payment_unsuccessful now id u release)
unfolding mark_payment_unsuccessful
mark_payment_unsuccessful-Keeps now id u release =
    search (steps_rules, Keeps-chain, claim-Keeps, demand-Keeps, finish_unsuccessful-Keeps) depth 14

Keeps-IsHandled : IsHandled Keeps
Keeps-IsHandled = record {
  chain = Keeps-chain;
  notifies = notify-Keeps;
  polls = λ now id r v. update-Keeps id _ (λ p. Follows-IsQuiet.kept p _ refl refl refl);
  verifies = λ id p. update-Keeps id _ (λ q. Follows-IsQuiet.kept q _ refl refl refl);
  receives = λ id c. update-Keeps id _ (λ q. Follows-IsQuiet.kept q _ refl refl refl);
  fills = λ id r. update-Keeps id _ (λ q. Follows-IsQuiet.kept q _ refl refl refl);
  fails = mark_payment_unsuccessful-Keeps;
}

retire-Keeps :
    (cfg : Config) (now : ℕ) (ask : Ask) (o : Option (ℕ × Payment))
    → Steps Keeps (retire_existing cfg now ask o)
retire-Keeps = retire_existing-Steps Keeps Keeps-IsHandled mark_payment_success-Keeps

prompt-shop :
    (cfg : Config) (now : ℕ) (push : Option ℕ) (p : Payment) (s : Store)
    → ((create_payment p >>= send_push cfg now push) s).1.shop ≡ s.shop
unfolding create_payment send_push notify update_payment demand_payment demand ◌>>=◌ read write give
    throw
prompt-shop cfg now none p s = refl
prompt-shop cfg now (some request) p s =
    elim (Option-cases (
      row_at (length s.payments)
        (alter_at (length s.payments) (pushed cfg now request) (s.payments ++ p ∷ [])))) [
          | inl e ↦ rw e refl
          | inr (q, e) ↦ rw e refl
        ]

-- The new payment and its prompt.
prompt-Keeps :
    (cfg : Config) (now : ℕ) (push : Option ℕ) (p : Payment)
    → Steps Keeps (create_payment p >>= send_push cfg now push)
prompt-Keeps cfg now push p =
    Onward-Keeps _ (create-Onward cfg now push p) (prompt-shop cfg now push p)

start_payment-Keeps :
    (cfg : Config) (now : ℕ) (push : Option ℕ) (order_id : ℕ) (order : Order)
    (live : Option (ℕ × Payment))
    → Steps Keeps (start_payment cfg now push order_id order live)
unfolding start_payment
start_payment-Keeps cfg now push order_id order (some r) = search (steps_rules, Keeps-chain)
start_payment-Keeps cfg now push order_id order none =
    Steps-bind Keeps-chain _ _ (reopen-Keeps now order_id)
      (λ _. prompt-Keeps cfg now push (new_payment now order_id order))

perform_initiation-Keeps :
    (cfg : Config) (now : ℕ) (ask : Ask) (push : Option ℕ) (user order_id : ℕ)
    → Steps Keeps (perform_initiation cfg now ask push user order_id)
unfolding perform_initiation
perform_initiation-Keeps cfg now ask push user order_id =
    search (steps_rules, Keeps-chain, start_payment-Keeps, retire-Keeps) depth 16

create_order-Keeps :
    (now : ℕ) (production : Bool) (percent user : ℕ) (dto : CreateOrderDto)
    → Steps Keeps (create_order now production percent user dto)
unfolding create_order
create_order-Keeps now production percent user dto =
    unpaying-Keeps (λ shop. second (create production percent now user dto shop))
      (λ shop shop' e. elim (Checked-cases (create production percent now user dto shop)) [
        | inl ((o, s'), made) ↦
            let same : s' ≡ shop' = cc (rw made at e) in
            rw same at (create-PaidIn production percent now user dto shop s' o made)
        | inr (x, made) ↦ cc (rw made at e)
      ])

settling-Keeps :
    (cfg : Config) (now : ℕ) (call : Call) (s : Store)
    → is_settling call ≡ true
    → Keeps s (run cfg now call s)
settling-Keeps = run-Steps Keeps Keeps-IsHandled mark_payment_success-Keeps

run-Keeps : (cfg : Config) (now : ℕ) (call : Call) (s : Store) → Keeps s (run cfg now call s)
unfolding run
run-Keeps cfg now (place_order production percent user dto) s =
    (create_order-Keeps now production percent user dto).at s
run-Keeps cfg now (initiate ask push user order_id) s =
    (perform_initiation-Keeps cfg now ask push user order_id).at s
run-Keeps cfg now call s = settling-Keeps cfg now call s refl

-- From tables where every PAID order has a payment that is SUCCESS, the same is true after any
-- sequence of calls, whether they return or throw.
pub run_all-AreBought :
    (cfg : Config) (calls : List (ℕ × Call)) (s : Store)
    → AreBought s
    → AreBought (run_all cfg calls s)
unfolding run_all
run_all-AreBought cfg [] s bought = bought
run_all-AreBought cfg ((now, call) ∷ calls) s bought =
    let t = run cfg now call s in
    let (stays, gets) = run-Keeps cfg now call s in
    run_all-AreBought cfg calls t (λ k there. elim (gets k there) [
      | inl before ↦ stays k (bought k before)
      | inr now_bought ↦ now_bought
    ])
