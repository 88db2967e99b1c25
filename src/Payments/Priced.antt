-- ===== src/Payments/Priced.antt =====
-- That a payment is for the total amount of its order: the parts of an initiation.
pub mod Trace
use ticketflow_kenya.Base.{ℕ, ◌≡◌, refl, ◌∙◌, Option, none, some, inl, inr}
use ticketflow_kenya.Base.Tables.{row_at, row_at-snoc}
use ticketflow_kenya.Base.Action.{read, write, give, ◌>>=◌}
use ticketflow_kenya.Base.Action.Steps.{IsChain, Steps, steps_rules}
use ticketflow_kenya.Orders.{RecordId, Order}
use ticketflow_kenya.Orders.Service.{reopen_for_retry}
use ticketflow_kenya.Orders.Totals.{IsOf, run-IsOf}
use ticketflow_kenya.Payments.{Payment, Store, Config, Notice, Act}
use ticketflow_kenya.Payments.Settle.{notify, update_payment, demand_payment, call_orders}
use ticketflow_kenya.Payments.Reconcile.{Ask}
use ticketflow_kenya.Payments.Initiate.{
  retire_existing, new_payment, create_payment, pushed, push_failed, send_push,
}
use ticketflow_kenya.Payments.Moves.{
  Moves, IsQuiet, Related, update-Moves, notify-Moves, demand_payment-Moves, call_orders-Moves,
  retire_existing-Moves,
}
use ticketflow_kenya.Payments.Shop.{
  IsShopwise, reopens-Steps, retire-rule, notify-Steps, update-Steps, demand-Steps,
}
use ticketflow_kenya.Payments.Issued.{issue_tickets-shop}

-- Every payment is for an order that is there, and for its total amount.
abbrev pub IsPriced : Store → Type 0
IsPriced s =
    (i : RecordId) (p : Payment)
    → row_at i s.payments ≡ some p
    → IsOf p.order_id p.amount s.shop.orders

-- The orders stay, with their amounts.
abbrev pub Lasts : Store → Store → Type 0
Lasts s t = (k : RecordId) (total : ℕ) → IsOf k total s.shop.orders → IsOf k total t.shop.orders

pub Lasts-IsShopwise : IsShopwise Lasts
Lasts-IsShopwise = record {
  chain = record {
    stay = λ s k total h. h;
    join = λ s t u h i k total there. i k total (h k total there);
  };
  unread = λ s t shop tickets k total there. rw shop there;
  orders = λ c s k total there. run-IsOf c s.shop k total there;
  issues = λ id. record { at = λ s k total there. rw (issue_tickets-shop id s) there };
}

-- The row of a payment keeps its order and its amount.
abbrev pub SameDeal : Payment → Payment → Type 0
SameDeal p q = (q.order_id ≡ p.order_id) × (q.amount ≡ p.amount)

pub SameDeal-IsQuiet : IsQuiet SameDeal
SameDeal-IsQuiet = record {
  whole = λ p. (refl, refl);
  twice = λ p q r (a, b) (c, d). (c ∙ a, d ∙ b);
  kept = λ p q status order amount. (order, amount);
  settled = λ u p pending. (refl, refl);
}

-- Both, and what follows for the prices.
abbrev Prices : Store → Store → Type 0
Prices s t = Lasts s t × (IsPriced s → IsPriced t)

pub Moves-Prices : (s t : Store) → Lasts s t → Moves SameDeal s t → Prices s t
Moves-Prices s t lasts moves = (
  lasts,
  λ priced i q here. from_row priced i q (row_at i s.payments) refl (rw here at (moves i)),
)
  where
    from_row :
        IsPriced s
        → (i : RecordId) (q : Payment) (o : Option Payment) → row_at i s.payments ≡ o
        → Related SameDeal o (some q)
        → IsOf q.order_id q.amount t.shop.orders
    from_row priced i q none e f = absurd f
    from_row priced i q (some p) e (order, amount) =
        rw (order, amount) (lasts p.order_id p.amount (priced i p e))

-- While the order that is tried is there, for this amount.
abbrev pub Knowing : RecordId → ℕ → Store → Store → Type 0
Knowing k total s t = IsOf k total s.shop.orders → Prices s t

module _ (k : RecordId) (total : ℕ) where
  pub Knowing-chain : IsChain (Knowing k total)
  Knowing-chain = record {
    stay = λ s there. (λ j n h. h, λ priced. priced);
    join = λ s t u h i there.
        let (lasts, keeps) = h there in
        let (lasts2, keeps2) = i (lasts k total there) in
        (λ j n before. lasts2 j n (lasts j n before), λ priced. keeps2 (keeps priced));
  }

  both-Knowing :
      {A : Type 0} (m : Act A)
      → Steps Lasts m
      → Steps (Moves SameDeal) m
      → Steps (Knowing k total) m
  both-Knowing m h i = record { at = λ s there. Moves-Prices s (m s).1 (h.at s) (i.at s) }

  pub retire-Knowing :
      (cfg : Config) (now : ℕ) (ask : Ask) (o : Option (ℕ × Payment))
      → Steps (Knowing k total) (retire_existing cfg now ask o)
  retire-Knowing cfg now ask o =
      both-Knowing _ (retire-rule Lasts Lasts-IsShopwise cfg now ask o)
        (retire_existing-Moves SameDeal SameDeal-IsQuiet (λ receipt p. (refl, refl)) cfg now ask o)

  pub reopen-Knowing :
      (now id : ℕ) → Steps (Knowing k total) (call_orders (reopen_for_retry now id))
  reopen-Knowing now id =
      both-Knowing _ (reopens-Steps Lasts Lasts-IsShopwise now id)
        (call_orders-Moves SameDeal SameDeal-IsQuiet _)

  notify-Knowing : (n : Notice) → Steps (Knowing k total) (notify n)
  notify-Knowing n =
      both-Knowing _ (notify-Steps Lasts Lasts-IsShopwise n)
        (notify-Moves SameDeal SameDeal-IsQuiet n)

  push-Knowing :
      (cfg : Config) (now request id : ℕ)
      → Steps (Knowing k total) (update_payment id (pushed cfg now request))
  push-Knowing cfg now request id =
      both-Knowing _ (update-Steps Lasts Lasts-IsShopwise id _)
        (update-Moves SameDeal SameDeal-IsQuiet id _ (λ p. (refl, refl)))

  push_failed-Knowing : (id : ℕ) → Steps (Knowing k total) (update_payment id push_failed)
  push_failed-Knowing id =
      both-Knowing _ (update-Steps Lasts Lasts-IsShopwise id _)
        (update-Moves SameDeal SameDeal-IsQuiet id _ (λ p. (refl, refl)))

  demand-Knowing : (id : ℕ) → Steps (Knowing k total) (demand_payment id)
  demand-Knowing id =
      both-Knowing _ (demand-Steps Lasts Lasts-IsShopwise id)
        (demand_payment-Moves SameDeal SameDeal-IsQuiet id)

  pub send_push-Knowing :
      (cfg : Config) (now : ℕ) (push : Option ℕ) (id : ℕ)
      → Steps (Knowing k total) (send_push cfg now push id)
  unfolding send_push
  send_push-Knowing cfg now none id = search (steps_rules, Knowing-chain, push_failed-Knowing)
  send_push-Knowing cfg now (some request) id =
      search (steps_rules, Knowing-chain, push-Knowing, demand-Knowing, notify-Knowing) depth 12

-- The new payment is for the amount of the order that was read.
pub create-Knowing :
    (now order_id : ℕ) (order : Order)
    → Steps (Knowing order_id order.total_amount) (create_payment (new_payment now order_id order))
unfolding create_payment ◌>>=◌ read write give
create-Knowing now order_id order = record {
  at = λ s there. (
    λ j n h. h,
    λ priced i q here. elim (row_at-snoc i s.payments (new_payment now order_id order) q here) [
      | inl before ↦ priced i q before
      | inr (last, same) ↦ rw (← same) there
    ],
  );
}
