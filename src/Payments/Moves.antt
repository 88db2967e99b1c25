-- ===== src/Payments/Moves.antt =====
-- What the calls do to the rows of the payments, for a relation between an old and a new row.
use ticketflow_kenya.Base.{
  ℕ, zero, suc, ◌≡◌, refl, Bool, true, false, not, List, [], ◌∷◌, Option, none, some, Result, ok,
  err, Bool-cases, inl, inr, arith, if◌then◌else◌,
}
use ticketflow_kenya.Base.Tables.{row_at, alter_at}
use ticketflow_kenya.Base.Action.{give, read, write, ◌>>=◌}
use ticketflow_kenya.Base.Action.Steps.{IsChain, Steps, Steps-write, Steps-bind, steps_rules}
use ticketflow_kenya.Orders.{RecordId, Checked}
use ticketflow_kenya.Orders
use ticketflow_kenya.Tickets.{Ticket, TicketError}
use ticketflow_kenya.Payments.{
  Payment, PaymentStatus, Notice, Store, Config, PaymentError, is_pending, is_success,
}
use ticketflow_kenya.Payments.Settle.{
  notify, update_payment, demand_payment, matches, claim, put_shop, call_orders, put_tickets,
  issue_tickets, upsert_commission, alert_oversold_tiers, alert_if_other, finish_success, succeed,
  mark_payment_success, Unsuccessful, settle, fail_order, finish_unsuccessful,
  mark_payment_unsuccessful,
}
use ticketflow_kenya.Payments.Reconcile.{Ask}
use ticketflow_kenya.Payments.Initiate.{retire_existing}
use ticketflow_kenya.Payments.Trace.{Call, place_order, initiate, create_order, run}
use ticketflow_kenya.Payments.Handlers.{IsHandled, is_settling, run-Steps, retire_existing-Steps}

abbrev pub is_initiation : Call → Bool
is_initiation (initiate ask push user order_id) = true
is_initiation _ = false

-- A row that is there stays there, changed as `F` says, and no other appears.
abbrev pub Related : (Payment → Payment → Type 0) → Option Payment → Option Payment → Type 0
Related F none none = Unit
Related F none (some q) = ⊥
Related F (some p) none = ⊥
Related F (some p) (some q) = F p q

abbrev pub Moves : (Payment → Payment → Type 0) → Store → Store → Type 0
Moves F s t = (k : RecordId) → Related F (row_at k s.payments) (row_at k t.payments)

-- A relation that allows the changes which do not make a payment successful.
pub record IsQuiet (F : Payment → Payment → Type 0) : Type 0 where
  pub whole : (p : Payment) → F p p
  pub twice : (p q r : Payment) → F p q → F q r → F p r
  pub kept :
      (p q : Payment) → q.status ≡ p.status → q.order_id ≡ p.order_id → q.amount ≡ p.amount → F p q
  pub settled : (u : Unsuccessful) (p : Payment) → is_pending p.status ≡ true → F p (settle u p)

module _ (F : Payment → Payment → Type 0) (quiet : IsQuiet F) where
  Related-refl : (o : Option Payment) → Related F o o
  Related-refl none = tt
  Related-refl (some p) = quiet.whole p

  Related-trans : (a b c : Option Payment) → Related F a b → Related F b c → Related F a c
  Related-trans none none none h i = tt
  Related-trans (some p) (some q) (some r) h i = quiet.twice p q r h i
  Related-trans none (some q) c h i = absurd h
  Related-trans (some p) none c h i = absurd h
  Related-trans none none (some r) h i = absurd i
  Related-trans (some p) (some q) none h i = absurd i

  pub Moves-chain : IsChain (Moves F)
  Moves-chain = record {
    stay = λ s k. Related-refl (row_at k s.payments);
    join = λ s t u h i k.
        Related-trans (row_at k s.payments) (row_at k t.payments) (row_at k u.payments) (h k) (i k);
  }

  alter_at-Related :
      (id : RecordId) (change : Payment → Payment) (ps : List Payment)
      → ((p : Payment) → row_at id ps ≡ some p → F p (change p))
      → (k : RecordId) → Related F (row_at k ps) (row_at k (alter_at id change ps))
  alter_at-Related id change [] h k = tt
  alter_at-Related zero change (p ∷ ps) h zero = h p refl
  alter_at-Related zero change (p ∷ ps) h (suc k) = Related-refl (row_at k ps)
  alter_at-Related (suc id) change (p ∷ ps) h zero = quiet.whole p
  alter_at-Related (suc id) change (p ∷ ps) h (suc k) = alter_at-Related id change ps h k

  -- A write that leaves the payments alone.
  pub write-Moves :
      (f : Store → Store)
      → ((s : Store) → (f s).payments ≡ s.payments)
      → Steps {E = PaymentError} (Moves F) (write f)
  write-Moves f h = Steps-write f (λ s k. rw (h s) (Related-refl (row_at k s.payments)))

  pub update-Moves :
      (id : RecordId) (change : Payment → Payment)
      → ((p : Payment) → F p (change p))
      → Steps (Moves F) (update_payment id change)
  unfolding update_payment
  update-Moves id change h = Steps-write _ (λ s. alter_at-Related id change s.payments (λ p _. h p))

  pub notify-Moves : (n : Notice) → Steps (Moves F) (notify n)
  unfolding notify
  notify-Moves n = write-Moves _ (λ s. refl)

  pub demand_payment-Moves : (id : RecordId) → Steps (Moves F) (demand_payment id)
  unfolding demand_payment
  demand_payment-Moves id = search (steps_rules, Moves-chain)

  pub claim-Moves :
      (id : RecordId) (test : PaymentStatus → Bool) (change : Payment → Payment)
      → ((p : Payment) → test p.status ≡ true → F p (change p))
      → Steps (Moves F) (claim id test change)
  unfolding claim update_payment ◌>>=◌ read write give
  claim-Moves id test change h = record {
    at = λ s. elim (Bool-cases (matches test (row_at id s.payments))) [
      | inl e ↦ rw e (alter_at-Related id change s.payments (λ p here. h p (rw here at e)))
      | inr e ↦ rw e (Moves-chain.stay s)
    ];
  }

  put_shop-Moves : (r : Checked Orders.Store) → Steps (Moves F) (put_shop r)
  unfolding put_shop
  put_shop-Moves (ok shop) = write-Moves _ (λ s. refl)
  put_shop-Moves (err e) = search (steps_rules, Moves-chain)

  pub call_orders-Moves :
      (call : Orders.Store → Checked Orders.Store) → Steps (Moves F) (call_orders call)
  unfolding call_orders
  call_orders-Moves call = search (steps_rules, Moves-chain, put_shop-Moves)

  put_tickets-Moves :
      (r : Result TicketError (List Ticket × List Ticket)) → Steps (Moves F) (put_tickets r)
  unfolding put_tickets
  put_tickets-Moves (ok (issued, all)) = write-Moves _ (λ s. refl)
  put_tickets-Moves (err e) = search (steps_rules, Moves-chain)

  issue_tickets-Moves : (id : RecordId) → Steps (Moves F) (issue_tickets id)
  unfolding issue_tickets
  issue_tickets-Moves id = search (steps_rules, Moves-chain, put_tickets-Moves)

  alert_if_other-Moves :
      (order_id id : RecordId) (other : Option (ℕ × Payment))
      → Steps (Moves F) (alert_if_other order_id id other)
  unfolding alert_if_other
  alert_if_other-Moves order_id id none = search (steps_rules, Moves-chain)
  alert_if_other-Moves order_id id (some r) = notify-Moves _

  upsert-Moves :
      (cfg : Config) (id : RecordId) (o : Option Orders.Order)
      → Steps {E = PaymentError} (Moves F) (write (upsert_commission cfg id o))
  upsert-Moves cfg id none = write-Moves _ (λ s. refl)
  upsert-Moves cfg id (some o) = write-Moves _ (λ s. ground arith)

  alert_oversold_tiers-Moves : (id : RecordId) → Steps (Moves F) (alert_oversold_tiers id)
  unfolding alert_oversold_tiers
  alert_oversold_tiers-Moves id = write-Moves _ (λ s. refl)

  fail_order-Moves : (id : RecordId) → Steps (Moves F) (fail_order id)
  unfolding fail_order
  fail_order-Moves id = write-Moves _ (λ s. refl)

  ruleset tail_rules = (
    steps_rules, Moves-chain, notify-Moves, demand_payment-Moves, call_orders-Moves,
    issue_tickets-Moves, alert_if_other-Moves, upsert-Moves, alert_oversold_tiers-Moves,
    fail_order-Moves,
  )

  pub finish_success-Moves :
      (cfg : Config) (id : RecordId) (p : Payment) → Steps (Moves F) (finish_success cfg id p)
  unfolding finish_success
  finish_success-Moves cfg id p = search tail_rules depth 14

  pub finish_unsuccessful-Moves :
      (now : ℕ) (id : RecordId) (u : Unsuccessful) (release : Bool) (p : Payment)
      → Steps (Moves F) (finish_unsuccessful now id u release p)
  unfolding finish_unsuccessful
  finish_unsuccessful-Moves now id u release p = search tail_rules depth 14

  -- What follows the claim.
  pub claimed_unsuccessful-Moves :
      (now : ℕ) (id : RecordId) (u : Unsuccessful) (release claimed : Bool)
      → Steps (Moves F) (
          demand_payment id >>= λ p.
          if claimed then finish_unsuccessful now id u release p else give p)
  claimed_unsuccessful-Moves now id u release claimed =
      search (tail_rules, finish_unsuccessful-Moves) depth 14

  pub claimed_success-Moves :
      (cfg : Config) (id : RecordId) (claimed : Bool)
      → Steps
          (Moves F)
          (demand_payment id >>= λ p. if claimed then finish_success cfg id p else give p)
  claimed_success-Moves cfg id claimed = search (tail_rules, finish_success-Moves) depth 14

  pub mark_payment_unsuccessful-Moves :
      (now : ℕ) (id : RecordId) (u : Unsuccessful) (release : Bool)
      → Steps (Moves F) (mark_payment_unsuccessful now id u release)
  unfolding mark_payment_unsuccessful
  mark_payment_unsuccessful-Moves now id u release =
      Steps-bind Moves-chain _ _ (claim-Moves id is_pending (settle u) (quiet.settled u))
        (claimed_unsuccessful-Moves now id u release)

  pub Moves-IsHandled : IsHandled (Moves F)
  Moves-IsHandled = record {
    chain = Moves-chain;
    notifies = notify-Moves;
    polls = λ now id r v. update-Moves id _ (λ p. quiet.kept p _ refl refl refl);
    verifies = λ id p. update-Moves id _ (λ q. quiet.kept q _ refl refl refl);
    receives = λ id c. update-Moves id _ (λ q. quiet.kept q _ refl refl refl);
    fills = λ id r. update-Moves id _ (λ q. quiet.kept q _ refl refl refl);
    fails = mark_payment_unsuccessful-Moves;
  }

  module _ (succeeds : (receipt : Option ℕ) (p : Payment) → F p (succeed receipt p)) where
    pub mark_payment_success-Moves :
        (cfg : Config) (id : RecordId) (receipt : Option ℕ)
        → Steps (Moves F) (mark_payment_success cfg id receipt)
    unfolding mark_payment_success
    mark_payment_success-Moves cfg id receipt =
        Steps-bind Moves-chain _ _
          (claim-Moves id (λ status. not (is_success status)) (succeed receipt)
            (λ p _. succeeds receipt p))
          (claimed_success-Moves cfg id)

    settling-Moves :
        (cfg : Config) (now : ℕ) (call : Call) (s : Store)
        → is_settling call ≡ true
        → Moves F s (run cfg now call s)
    settling-Moves = run-Steps (Moves F) Moves-IsHandled mark_payment_success-Moves

    pub retire_existing-Moves :
        (cfg : Config) (now : ℕ) (ask : Ask) (o : Option (ℕ × Payment))
        → Steps (Moves F) (retire_existing cfg now ask o)
    retire_existing-Moves =
        retire_existing-Steps (Moves F) Moves-IsHandled mark_payment_success-Moves

    -- Every call but an initiation, which may add a row.
    pub run-Moves :
        (cfg : Config) (now : ℕ) (call : Call) (s : Store)
        → is_initiation call ≡ false
        → Moves F s (run cfg now call s)
    unfolding run create_order
    run-Moves cfg now (place_order production percent user dto) s h = (call_orders-Moves _).at s
    run-Moves cfg now (initiate ask push user order_id) s h = cc
    run-Moves cfg now call s h = settling-Moves cfg now call s refl
