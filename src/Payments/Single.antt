-- ===== src/Payments/Single.antt =====
-- How many payments of one order are pending, over sequences of calls.
use ticketflow_kenya.Base.{
  ℕ, ◌≡◌, refl, ap, true, false, not, List, [], ◌∷◌, ◌++◌, Option, none, some, Result, ok, err,
  ◌==◌, length, Option-cases, Bool-cases, inl, inr,
}
use ticketflow_kenya.Base.Tables.{row_at, row_at-snoc, find_latest}
use ticketflow_kenya.Base.Tables.Latest.{find_latest-some, find_latest-none}
use ticketflow_kenya.Base.Action.{read, write, give, throw, demand, refuse_if, ◌>>=◌, go_on}
use ticketflow_kenya.Base.Action.Steps.{Steps, steps_rules}
use ticketflow_kenya.Orders.{RecordId, Order, find_order, is_paid}
use ticketflow_kenya.Orders.Service.{reopen_for_retry}
use ticketflow_kenya.Payments.{Payment, Store, Config, PaymentError}
use ticketflow_kenya.Payments.Settle.{update_payment, call_orders}
use ticketflow_kenya.Payments.Reconcile.{Ask}
use ticketflow_kenya.Payments.Initiate.{
  is_cancelled_order, is_live_for, retire_existing, new_payment, create_payment, send_push,
  start_payment, pushed, push_failed, perform_initiation,
}
use ticketflow_kenya.Payments.Moves.{
  retire_existing-Moves, run-Moves, is_initiation, Moves, Moves-chain, notify-Moves,
  demand_payment-Moves, call_orders-Moves, update-Moves,
}
use ticketflow_kenya.Payments.Settled.{StaysRetired, StaysRetired-IsQuiet, StaysRetired-succeeds}
use ticketflow_kenya.Payments.Retire.{Clears, retire-Clears}
use ticketflow_kenya.Payments.Trace.{Call, initiate, run, run_all}
use ticketflow_kenya.Payments.Live.{
  IsSingle, IsFree, live-pending, live-order, Moves-IsSingle, Moves-IsFree, settled-IsFree,
}

-- After `retire_existing` on what was found, no payment to hand back means none is pending.
abbrev Frees : RecordId → Result PaymentError (Option (ℕ × Payment)) × Store → Type 0
Frees order (ok none, t) = IsFree order t
Frees order (ok (some live), t) = Unit
Frees order (err e, t) = Unit

retire-Moves :
    (cfg : Config) (now : ℕ) (ask : Ask) (o : Option (ℕ × Payment))
    → Steps (Moves StaysRetired) (retire_existing cfg now ask o)
retire-Moves = retire_existing-Moves StaysRetired StaysRetired-IsQuiet StaysRetired-succeeds

retire-Frees :
    (cfg : Config) (now : ℕ) (ask : Ask) (order : RecordId) (s : Store) (o : Option (ℕ × Payment))
    → IsSingle s
    → find_latest (λ p. p.created_at) (is_live_for order) s.payments ≡ o
    → Frees order (retire_existing cfg now ask o s)
unfolding retire_existing give
retire-Frees cfg now ask order s none single found =
    find_latest-none (λ p. p.created_at) (is_live_for order) s.payments found
retire-Frees cfg now ask order s (some (id, p)) single found =
    let (here, live) =
      find_latest-some (λ p. p.created_at) (is_live_for order) s.payments id p found in
    freed here live (retire_existing cfg now ask (some (id, p)) s)
      ((retire-Moves cfg now ask (some (id, p))).at s)
      (retire-Clears cfg now ask id p s here (live-pending order p live))
  where
    freed :
        row_at id s.payments ≡ some p
        → is_live_for order p ≡ true
        → (r : Result PaymentError (Option (ℕ × Payment)) × Store) → Moves StaysRetired s r.1
        → Clears id r
        → Frees order r
    freed here live (ok none, t) moves settled =
        settled-IsFree order id s t p single here live moves settled
    freed here live (ok (some l), t) moves settled = tt
    freed here live (err e, t) moves settled = tt

-- A new payment of an order that has none pending.
created-IsSingle :
    (now order : ℕ) (o : Order) (s : Store)
    → IsSingle s
    → IsFree order s
    → IsSingle (record s { payments = s.payments ++ new_payment now order o ∷ [] })
created-IsSingle now order o s single free at i j p q hp hq lp lq =
    elim (row_at-snoc i s.payments (new_payment now order o) p hp) [
      | inl old_i ↦ elim (row_at-snoc j s.payments (new_payment now order o) q hq) [
        | inl old_j ↦ single at i j p q old_i old_j lp lq
        | inr (j_new, new_j) ↦ absurd (clash i p q old_i lp new_j lq)
      ]
      | inr (i_new, new_i) ↦ elim (row_at-snoc j s.payments (new_payment now order o) q hq) [
        | inl old_j ↦ absurd (clash j q p old_j lq new_i lp)
        | inr (j_new, new_j) ↦ cc (i_new, j_new)
      ]
    ]
  where
    clash :
        (k : RecordId) (r new : Payment)
        → row_at k s.payments ≡ some r
        → is_live_for at r ≡ true
        → new_payment now order o ≡ new
        → is_live_for at new ≡ true
        → ⊥
    clash k r new here live same live_new =
        let its_order : new.order_id ≡ at = live-order at new live_new in
        let order_at : order ≡ at = cc (ap (λ (x : Payment). x.order_id) same, its_order) in
        cc (rw order_at at (free k r here), live)

push_failed-Moves : (id : ℕ) → Steps (Moves StaysRetired) (update_payment id push_failed)
push_failed-Moves id =
    update-Moves StaysRetired StaysRetired-IsQuiet id push_failed
      (λ p. record { was_pending = λ h. cc h; same_order = refl })

pushed-Moves :
    (cfg : Config) (now request id : ℕ)
    → Steps (Moves StaysRetired) (update_payment id (pushed cfg now request))
pushed-Moves cfg now request id =
    update-Moves StaysRetired StaysRetired-IsQuiet id (pushed cfg now request)
      (λ p. StaysRetired-IsQuiet.kept p (pushed cfg now request p) refl refl refl)

send_push-Moves :
    (cfg : Config) (now : ℕ) (push : Option ℕ) (id : ℕ)
    → Steps (Moves StaysRetired) (send_push cfg now push id)
unfolding send_push
send_push-Moves cfg now none id =
    search (steps_rules, Moves-chain, StaysRetired-IsQuiet, push_failed-Moves)
send_push-Moves cfg now (some request) id =
    search
      (
        steps_rules, Moves-chain, StaysRetired-IsQuiet, pushed-Moves, demand_payment-Moves,
        notify-Moves,
      )
      depth 12

send_push-IsSingle :
    (cfg : Config) (now : ℕ) (push : Option ℕ) (id : ℕ) (u : Store)
    → IsSingle u
    → IsSingle (send_push cfg now push id u).1
send_push-IsSingle cfg now push id u single =
    Moves-IsSingle u (send_push cfg now push id u).1 single ((send_push-Moves cfg now push id).at u)

-- The rest of an initiation, from tables with one pending payment at most.
start-IsSingle :
    (cfg : Config) (now : ℕ) (push : Option ℕ) (order_id : ℕ) (order : Order)
    (r : Result PaymentError (Option (ℕ × Payment)) × Store)
    → IsSingle r.1
    → Frees order_id r
    → IsSingle (go_on (start_payment cfg now push order_id order) r).1
unfolding start_payment ◌>>=◌ create_payment read write give
start-IsSingle cfg now push order_id order (ok (some live), t) single free = single
start-IsSingle cfg now push order_id order (err e, t) single free = single
start-IsSingle cfg now push order_id order (ok none, t) single free =
    reopened (call_orders (reopen_for_retry now order_id) t)
      ((call_orders-Moves StaysRetired StaysRetired-IsQuiet (reopen_for_retry now order_id)).at t)
  where
    reopened :
        (r : Result PaymentError Unit × Store)
        → Moves StaysRetired t r.1
        → IsSingle
            (go_on
              (λ _. create_payment (new_payment now order_id order) >>= send_push cfg now push)
              r).1
    reopened (err e, u) moves = Moves-IsSingle t u single moves
    reopened (ok x, u) moves =
        send_push-IsSingle cfg now push (length u.payments)
          (record u { payments = u.payments ++ new_payment now order_id order ∷ [] })
          (created-IsSingle now order_id order u (Moves-IsSingle t u single moves)
            (Moves-IsFree order_id t u free moves))

retired-IsSingle :
    (cfg : Config) (now : ℕ) (ask : Ask) (push : Option ℕ) (order_id : ℕ) (order : Order)
    (s : Store) (o : Option (ℕ × Payment))
    → IsSingle s
    → find_latest (λ p. p.created_at) (is_live_for order_id) s.payments ≡ o
    → IsSingle
        (go_on (start_payment cfg now push order_id order) (retire_existing cfg now ask o s)).1
retired-IsSingle cfg now ask push order_id order s o single found =
    start-IsSingle cfg now push order_id order (retire_existing cfg now ask o s)
      (Moves-IsSingle s (retire_existing cfg now ask o s).1 single
        ((retire-Moves cfg now ask o).at s))
      (retire-Frees cfg now ask order_id s o single found)

perform_initiation-IsSingle :
    (cfg : Config) (now : ℕ) (ask : Ask) (push : Option ℕ) (user order_id : ℕ) (s : Store)
    → IsSingle s
    → IsSingle (perform_initiation cfg now ask push user order_id s).1
unfolding perform_initiation ◌>>=◌ read demand refuse_if give throw
perform_initiation-IsSingle cfg now ask push user order_id s single =
    elim (Option-cases (find_order order_id s.shop.orders)) [
      | inl e ↦ rw e single
      | inr (order, e) ↦ elim (Bool-cases (not (order.user_id == user))) [
        | inl other ↦ rw (e, other) single
        | inr own ↦ elim (Bool-cases (is_paid order.status)) [
          | inl paid ↦ rw (e, own, paid) single
          | inr unpaid ↦ elim (Bool-cases (is_cancelled_order order.status)) [
            | inl gone ↦ rw (e, own, unpaid, gone) single
            | inr open_ ↦
                rw (e, own, unpaid, open_)
                  (retired-IsSingle cfg now ask push order_id order s
                    (find_latest (λ p. p.created_at) (is_live_for order_id) s.payments) single refl)
          ]
        ]
      ]
    ]

other-IsSingle :
    (cfg : Config) (now : ℕ) (call : Call) (s : Store)
    → is_initiation call ≡ false
    → IsSingle s
    → IsSingle (run cfg now call s)
other-IsSingle cfg now call s h single =
    Moves-IsSingle s (run cfg now call s) single
      (run-Moves StaysRetired StaysRetired-IsQuiet StaysRetired-succeeds cfg now call s h)

run-IsSingle :
    (cfg : Config) (now : ℕ) (call : Call) (s : Store) → IsSingle s → IsSingle (run cfg now call s)
unfolding run
run-IsSingle cfg now (initiate ask push user order_id) s single =
    perform_initiation-IsSingle cfg now ask push user order_id s single
run-IsSingle cfg now call s single = other-IsSingle cfg now call s refl single

-- From tables where no order has two pending payments, no sequence of calls leads to tables
-- where one has, whatever Daraja answers.
pub run_all-IsSingle :
    (cfg : Config) (calls : List (ℕ × Call)) (s : Store)
    → IsSingle s
    → IsSingle (run_all cfg calls s)
unfolding run_all
run_all-IsSingle cfg [] s single = single
run_all-IsSingle cfg ((now, call) ∷ calls) s single =
    run_all-IsSingle cfg calls (run cfg now call s) (run-IsSingle cfg now call s single)
