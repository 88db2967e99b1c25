-- ===== src/Payments/Status.antt =====
-- How the calls move the status of a payment.
use ticketflow_kenya.Base.{
  ℕ, ◌≡◌, refl, ◌∙◌, true, false, List, [], ◌∷◌, ◌++◌, ◌<◌, Option, none, some, length,
}
use ticketflow_kenya.Base.Tables.{row_at, row_at-alter_other, row_at-append, row_at-bound}
use ticketflow_kenya.Base.Action.{read, write, give, ◌>>=◌}
use ticketflow_kenya.Base.Action.Steps.{IsChain, Steps, Steps-bind, Steps-write, steps_rules}
use ticketflow_kenya.Orders.{RecordId, Order}
use ticketflow_kenya.Payments.{
  Payment, PaymentStatus, Notice, Store, Config, Act, is_pending, pending, success,
}
use ticketflow_kenya.Payments.Settle.{
  Unsuccessful, status_of, settle, succeed, update_payment, notify, demand_payment,
}
use ticketflow_kenya.Payments.Reconcile.{Ask}
use ticketflow_kenya.Payments.Initiate.{
  retire_existing, new_payment, create_payment, send_push, start_payment, perform_initiation,
}
use ticketflow_kenya.Payments.Moves.{
  retire_existing-Moves, run-Moves, is_initiation, Related, Moves, IsQuiet, call_orders-Moves,
}
use ticketflow_kenya.Payments.Trace.{Call, initiate, run, run_all}

infix 40 ◌⟶◌
-- The ways of a status: an unsuccessful payment may still succeed late, a success is final.
pub data ◌⟶◌ : PaymentStatus → PaymentStatus → Type 0 where
  same : (a : PaymentStatus) → a ⟶ a
  settle_pending : (b : PaymentStatus) → pending ⟶ b
  succeed_late : (a : PaymentStatus) → a ⟶ success

pub ⟶-success : (a b : PaymentStatus) → a ⟶ b → a ≡ success → b ≡ success
⟶-success a b (same _) h = h
⟶-success a b (settle_pending _) h = cc h
⟶-success a b (succeed_late _) h = refl

⟶-trans : (a b c : PaymentStatus) → a ⟶ b → b ⟶ c → a ⟶ c
⟶-trans a b c (same _) k = k
⟶-trans a b c (settle_pending _) k = settle_pending c
⟶-trans a b c (succeed_late _) k =
    let last : c ≡ success = ⟶-success success c k refl in rw last (succeed_late a)

-- A later row of the same payment.
pub record Follows (p q : Payment) : Type 0 where
  pub way : p.status ⟶ q.status
  pub same_order : q.order_id ≡ p.order_id
  pub same_amount : q.amount ≡ p.amount

settled-⟶ : (u : Unsuccessful) (p : Payment) → is_pending p.status ≡ true → Follows p (settle u p)
settled-⟶ u p h = record {
  way = from_pending p.status (status_of u) h;
  same_order = refl;
  same_amount = refl;
}
  where
    from_pending : (a b : PaymentStatus) → is_pending a ≡ true → a ⟶ b
    from_pending PaymentStatus.pending b h = settle_pending b
    from_pending PaymentStatus.success b h = cc
    from_pending PaymentStatus.failed b h = cc
    from_pending PaymentStatus.cancelled b h = cc
    from_pending PaymentStatus.expired b h = cc

pub Follows-IsQuiet : IsQuiet Follows
Follows-IsQuiet = record {
  whole = λ p. record { way = same p.status; same_order = refl; same_amount = refl };
  twice = λ p q r h k. record {
    way = ⟶-trans p.status q.status r.status h.way k.way;
    same_order = k.same_order ∙ h.same_order;
    same_amount = k.same_amount ∙ h.same_amount;
  };
  kept = λ p q st o a. record { way = rw st (same p.status); same_order = o; same_amount = a };
  settled = settled-⟶;
}

pub Follows-succeeds : (receipt : Option ℕ) (p : Payment) → Follows p (succeed receipt p)
Follows-succeeds receipt p = record {
  way = succeed_late p.status;
  same_order = refl;
  same_amount = refl;
}

-- Every row of the payments is still there, and has followed the ways of a status.
abbrev pub Onward : Store → Store → Type 0
Onward s t =
    (k : RecordId) (p : Payment)
    → row_at k s.payments ≡ some p
    → (q : Payment) × (row_at k t.payments ≡ some q) × Follows p q

pub Onward-chain : IsChain Onward
Onward-chain = record {
  stay = λ s k p h. (p, h, Follows-IsQuiet.whole p);
  join = λ s t u h i k p here.
      let (q, there, f) = h k p here in
      let (r, last, g) = i k q there in (r, last, Follows-IsQuiet.twice p q r f g);
}

pub Moves-Onward : (s t : Store) → Moves Follows s t → Onward s t
Moves-Onward s t h k p here = related (row_at k t.payments) refl (rw here at (h k))
  where
    related :
        (o : Option Payment)
        → row_at k t.payments ≡ o
        → Related Follows (some p) o
        → (q : Payment) × (row_at k t.payments ≡ some q) × Follows p q
    related none e f = absurd f
    related (some q) e f = (q, e, f)

lift : {A : Type 0} (m : Act A) → Steps (Moves Follows) m → Steps Onward m
lift m h = record { at = λ s. Moves-Onward s (m s).1 (h.at s) }

-- The rows before the new one stay as they are while the prompt is sent.
abbrev Below : ℕ → Store → Store → Type 0
Below n s t =
    (k : ℕ) (p : Payment) → k < n → row_at k s.payments ≡ some p → row_at k t.payments ≡ some p

Below-chain : (n : ℕ) → IsChain (Below n)
Below-chain n = record {
  stay = λ s k p below h. h;
  join = λ s t u h i k p below here. i k p below (h k p below here);
}

notify-Below : (n : ℕ) (notice : Notice) → Steps (Below n) (notify notice)
unfolding notify
notify-Below n notice = Steps-write _ (λ s k p below h. h)

update-Below : (n : ℕ) (change : Payment → Payment) → Steps (Below n) (update_payment n change)
unfolding update_payment
update-Below n change =
    Steps-write _ (λ s k p below h. rw (row_at-alter_other n change s.payments k below) h)

demand-Below : (n id : ℕ) → Steps (Below n) (demand_payment id)
unfolding demand_payment
demand-Below n id = search (steps_rules, Below-chain)

send_push-Below :
    (cfg : Config) (now : ℕ) (push : Option ℕ) (n : ℕ) → Steps (Below n) (send_push cfg now push n)
unfolding send_push
send_push-Below cfg now none n = search (steps_rules, Below-chain, update-Below)
send_push-Below cfg now (some request) n =
    search (steps_rules, Below-chain, update-Below, notify-Below, demand-Below) depth 12

pub create-Onward :
    (cfg : Config) (now : ℕ) (push : Option ℕ) (p : Payment)
    → Steps Onward (create_payment p >>= send_push cfg now push)
unfolding create_payment ◌>>=◌ read write give
create-Onward cfg now push p = record {
  at = λ s k q here.
      let grown = row_at-append k s.payments (p ∷ []) q here in
      let below = row_at-bound k s.payments q here in
      (
        q,
        (send_push-Below cfg now push (length s.payments)).at
            (record s { payments = s.payments ++ p ∷ [] }) k q below grown,
        Follows-IsQuiet.whole q,
      );
}

start_payment-Onward :
    (cfg : Config) (now : ℕ) (push : Option ℕ) (order_id : ℕ) (order : Order)
    (live : Option (ℕ × Payment))
    → Steps Onward (start_payment cfg now push order_id order live)
unfolding start_payment
start_payment-Onward cfg now push order_id order (some r) = search (steps_rules, Onward-chain)
start_payment-Onward cfg now push order_id order none =
    Steps-bind Onward-chain _ _ (lift _ (call_orders-Moves Follows Follows-IsQuiet _))
      (λ _. create-Onward cfg now push (new_payment now order_id order))

retire_existing-Onward :
    (cfg : Config) (now : ℕ) (ask : Ask) (o : Option (ℕ × Payment))
    → Steps Onward (retire_existing cfg now ask o)
retire_existing-Onward cfg now ask o =
    lift _ (retire_existing-Moves Follows Follows-IsQuiet Follows-succeeds cfg now ask o)

perform_initiation-Onward :
    (cfg : Config) (now : ℕ) (ask : Ask) (push : Option ℕ) (user order_id : ℕ)
    → Steps Onward (perform_initiation cfg now ask push user order_id)
unfolding perform_initiation
perform_initiation-Onward cfg now ask push user order_id =
    search (steps_rules, Onward-chain, start_payment-Onward, retire_existing-Onward) depth 16

other-Onward :
    (cfg : Config) (now : ℕ) (call : Call) (s : Store)
    → is_initiation call ≡ false
    → Onward s (run cfg now call s)
other-Onward cfg now call s h =
    Moves-Onward s (run cfg now call s)
      (run-Moves Follows Follows-IsQuiet Follows-succeeds cfg now call s h)

run-Onward : (cfg : Config) (now : ℕ) (call : Call) (s : Store) → Onward s (run cfg now call s)
unfolding run
run-Onward cfg now (initiate ask push user order_id) s =
    (perform_initiation-Onward cfg now ask push user order_id).at s
run-Onward cfg now call s = other-Onward cfg now call s refl

-- Over any sequence of calls, whether they return or throw, every payment is still there, with
-- its order and its amount; its status is the same, or it was pending, or it has become SUCCESS. So
-- a payment that is SUCCESS stays so, and none returns to pending.
pub payments_follow :
    (cfg : Config) (calls : List (ℕ × Call)) (s : Store) → Onward s (run_all cfg calls s)
unfolding run_all
payments_follow cfg [] s = Onward-chain.stay s
payments_follow cfg ((now, call) ∷ calls) s =
    Onward-chain.join s (run cfg now call s) (run_all cfg calls (run cfg now call s))
      (run-Onward cfg now call s) (payments_follow cfg calls (run cfg now call s))
