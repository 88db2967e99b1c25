-- ===== src/Payments/Live.antt =====
-- The pending payments of an order, over a change that makes none pending.
use ticketflow_kenya.Base.{◌≡◌, true, false, some, ◌==◌, ==_iff, Option-cases, Bool-cases, inl, inr}
use ticketflow_kenya.Base.Tables.{row_at}
use ticketflow_kenya.Orders.{RecordId}
use ticketflow_kenya.Payments.{Payment, Store, is_pending}
use ticketflow_kenya.Payments.Initiate.{is_live_for}
use ticketflow_kenya.Payments.Moves.{Moves}
use ticketflow_kenya.Payments.Settled.{StaysRetired, IsSettled}

-- No two payments of one order are pending.
abbrev pub IsSingle : Store → Type 0
IsSingle s =
    (order i j : RecordId) (p q : Payment)
    → row_at i s.payments ≡ some p
    → row_at j s.payments ≡ some q
    → is_live_for order p ≡ true
    → is_live_for order q ≡ true
    → i ≡ j

-- No payment of the order is pending.
abbrev pub IsFree : RecordId → Store → Type 0
IsFree order s =
    (k : RecordId) (p : Payment) → row_at k s.payments ≡ some p → is_live_for order p ≡ false

live-kept :
    (order : RecordId) (p q : Payment)
    → StaysRetired p q
    → is_live_for order q ≡ true
    → is_live_for order p ≡ true
live-kept order p q f h = elim (Bool-cases (q.order_id == order)) [
  | inl e ↦ rw (f.same_order, e) (f.was_pending (rw e at h))
  | inr e ↦ cc (rw e at h)
]

pub live-pending :
    (order : RecordId) (q : Payment) → is_live_for order q ≡ true → is_pending q.status ≡ true
live-pending order q l = elim (Bool-cases (q.order_id == order)) [
  | inl e ↦ rw e at l
  | inr e ↦ cc (rw e at l)
]

pub live-order : (order : RecordId) (q : Payment) → is_live_for order q ≡ true → q.order_id ≡ order
live-order order q l = elim (Bool-cases (q.order_id == order)) [
  | inl e ↦ (==_iff q.order_id order).0 e
  | inr e ↦ cc (rw e at l)
]

-- A pending payment after the calls was a pending payment of the order before them.
live-before :
    (order k : RecordId) (s t : Store) (q : Payment)
    → Moves StaysRetired s t
    → row_at k t.payments ≡ some q
    → is_live_for order q ≡ true
    → (p : Payment) × (row_at k s.payments ≡ some p) × (is_live_for order p ≡ true)
live-before order k s t q moves here live = elim (Option-cases (row_at k s.payments)) [
  | inl e ↦ absurd (rw (e, here) at (moves k))
  | inr (p, e) ↦
      let f : StaysRetired p q = rw (e, here) at (moves k) in (p, e, live-kept order p q f live)
]

pub Moves-IsSingle : (s t : Store) → IsSingle s → Moves StaysRetired s t → IsSingle t
Moves-IsSingle s t single moves order i j p q hp hq lp lq =
    let (p', hp', lp') = live-before order i s t p moves hp lp in
    let (q', hq', lq') = live-before order j s t q moves hq lq in
    single order i j p' q' hp' hq' lp' lq'

pub Moves-IsFree :
    (order : RecordId) (s t : Store) → IsFree order s → Moves StaysRetired s t → IsFree order t
Moves-IsFree order s t free moves k q here = elim (Bool-cases (is_live_for order q)) [
  | inl live ↦ let (p, e, l) = live-before order k s t q moves here live in cc (free k p e, l)
  | inr dead ↦ dead
]

-- The only pending payment of an order is settled.
pub settled-IsFree :
    (order id : RecordId) (s t : Store) (p : Payment)
    → IsSingle s
    → row_at id s.payments ≡ some p
    → is_live_for order p ≡ true
    → Moves StaysRetired s t
    → IsSettled id t
    → IsFree order t
settled-IsFree order id s t p single here live moves settled k q there =
    elim (Bool-cases (is_live_for order q)) [
      | inl l ↦
          let (r, e, lr) = live-before order k s t q moves there l in
          let at_id : k ≡ id = single order k id r p e here lr live in
          cc (settled q (rw at_id at there), live-pending order q l)
      | inr dead ↦ dead
    ]
