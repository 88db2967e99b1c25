-- ===== src/Orders/Trace.antt =====
-- Sequences of calls of `OrdersService`.
use ticketflow_kenya.Base.{
  ℕ, ◌+◌, ◌≡◌, refl, Bool, true, List, [], ◌∷◌, some, ok, err, arith, Option-cases, Bool-cases, inl,
  inr, ◌⊎◌,
}
use ticketflow_kenya.Orders.{
  RecordId, CreateOrderDto, Order, OrderStatus, OrderError, Checked, Store, find_order, set_status,
  is_pending,
}
use ticketflow_kenya.Orders.Service.{create, reopen_for_retry, mark_paid, mark_failed}
use ticketflow_kenya.Orders.Stock.{wanted, release_items-Lowered}
use ticketflow_kenya.Orders.Consistent.{
  held, IsConsistent, held-set_status, Raised-IsConsistent, Lowered-IsConsistent,
}
use ticketflow_kenya.Orders.Operations.{
  create-Grows, released, mark_failed-pending, reserved-grown, reopen-eq-ok, mark_paid-eq-ok,
}

-- The calls that change the tables, with their arguments and the clock.
pub data Call : Type 0 where
  create_order : Bool → ℕ → ℕ → RecordId → CreateOrderDto → Call
  reopen : ℕ → RecordId → Call
  pay fail : RecordId → Call

-- The tables after a call that returns, or the old ones after one that throws.
abbrev pub kept : Store → Checked Store → Store
kept s (ok s') = s'
kept s (err e) = s

abbrev pub kept_pair : Store → Checked (Order × Store) → Store
kept_pair s (ok r) = r.1
kept_pair s (err e) = s

unfoldable pub run : Call → Store → Store
run (create_order production percent now user dto) s =
    kept_pair s (create production percent now user dto s)
run (reopen now id) s = kept s (reopen_for_retry now id s)
run (pay id) s = kept s (mark_paid id s)
run (fail id) s = mark_failed id s

unfoldable pub run_all : List Call → Store → Store
run_all [] s = s
run_all (c ∷ cs) s = run_all cs (run c s)

pub Checked-cases {ℓ} :
    {A : Type ℓ} (m : Checked A) → ((a : A) × (m ≡ ok a)) ⊎ ((e : OrderError) × (m ≡ err e))
Checked-cases (ok a) = inl (a, refl)
Checked-cases (err e) = inr (e, refl)

create_order-IsConsistent :
    (production : Bool) (percent now user : ℕ) (dto : CreateOrderDto) (s : Store)
    → IsConsistent s
    → IsConsistent (run (create_order production percent now user dto) s)
unfolding run
create_order-IsConsistent production percent now user dto s c =
    elim (Checked-cases (create production percent now user dto s)) [
      | inl ((o, s'), e) ↦
          let g = create-Grows production percent now user dto s s' o e in
          rw e (Raised-IsConsistent s s' o.items c g.raised g.grown)
      | inr (x, e) ↦ rw e c
    ]

reopen-IsConsistent :
    (now id : ℕ) (s : Store) → IsConsistent s → IsConsistent (run (reopen now id) s)
unfolding run
reopen-IsConsistent now id s c = elim (Checked-cases (reopen_for_retry now id s)) [
  | inl (s', e) ↦
      let (o, here, what) = reopen-eq-ok now id s s' e in
      rw e (elim what [
        | inl same ↦ rw same c
        | inr (failed, reserved, orders) ↦ Raised-IsConsistent s s' o.items c reserved.raised (λ k.
            rw orders (reserved-grown id OrderStatus.pending s o here (rw failed refl) refl k))
      ])
  | inr (x, e) ↦ rw e c
]

pay-IsConsistent : (id : ℕ) (s : Store) → IsConsistent s → IsConsistent (run (pay id) s)
unfolding run
pay-IsConsistent id s c = elim (Checked-cases (mark_paid id s)) [
  | inl (s', e) ↦
      let (o, here, what) = mark_paid-eq-ok id s s' e in
      rw e (elim what [
        | inl (holding, types, same) ↦ λ k t h. rw (same k) (c k t (rw types at h))
        | inr (free, raised, orders) ↦
            Raised-IsConsistent s s' o.items c raised
              (λ k. rw orders (reserved-grown id OrderStatus.paid s o here free refl k))
      ])
  | inr (x, e) ↦ rw e c
]

-- `markFailed` changes nothing or releases a pending order.
pub mark_failed-cases :
    (id : ℕ) (s : Store)
    → (mark_failed id s ≡ s)
      ⊎ ((o : Order) × (find_order id s.orders ≡ some o) × (o.status ≡ OrderStatus.pending))
unfolding mark_failed
mark_failed-cases id s = elim (Option-cases (find_order id s.orders)) [
  | inl e ↦ inl (rw e refl)
  | inr (o, e) ↦ elim (Bool-cases (is_pending o.status)) [
    | inl p ↦ inr (o, e, is_pending→eq o.status p)
    | inr p ↦ inl (rw (e, p) refl)
  ]
]
  where
    is_pending→eq : (status : OrderStatus) → is_pending status ≡ true → status ≡ OrderStatus.pending
    is_pending→eq OrderStatus.pending h = refl
    is_pending→eq OrderStatus.paid h = cc
    is_pending→eq OrderStatus.failed h = cc
    is_pending→eq OrderStatus.cancelled h = cc

fail-IsConsistent : (id : ℕ) (s : Store) → IsConsistent s → IsConsistent (run (fail id) s)
unfolding run
fail-IsConsistent id s c = elim (mark_failed-cases id s) [
  | inl same ↦ rw same c
  | inr (o, here, pending) ↦ rw (mark_failed-pending id s o here pending) (
      Lowered-IsConsistent s (released id o s) o.items c
        (release_items-Lowered o.items s.ticket_types)
        (λ k.
          let moved : held k (set_status id OrderStatus.failed s.orders) + wanted k o.items
              ≡ held k s.orders + 0 =
            rw pending at (held-set_status k id OrderStatus.failed s.orders o here) in
          omega (arith, moved)))
]

run-IsConsistent : (call : Call) (s : Store) → IsConsistent s → IsConsistent (run call s)
run-IsConsistent (create_order production percent now user dto) s c =
    create_order-IsConsistent production percent now user dto s c
run-IsConsistent (reopen now id) s c = reopen-IsConsistent now id s c
run-IsConsistent (pay id) s c = pay-IsConsistent id s c
run-IsConsistent (fail id) s c = fail-IsConsistent id s c

-- After any sequence of calls from tables where every counter `quantitySold` is exactly what the
-- pending and paid orders hold of that ticket type, every counter still is.
pub run_all-IsConsistent :
    (calls : List Call) (s : Store) → IsConsistent s → IsConsistent (run_all calls s)
unfolding run_all
run_all-IsConsistent [] s c = c
run_all-IsConsistent (call ∷ calls) s c =
    run_all-IsConsistent calls (run call s) (run-IsConsistent call s c)
