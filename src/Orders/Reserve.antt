-- ===== src/Orders/Reserve.antt =====
-- What it means that the loops of `create` and `reserveItems` return.
use ticketflow_kenya.Base.{
  ℕ, ◌+◌, ◌≤◌, ◌≡◌, refl, Bool, true, false, List, [], ◌∷◌, Option, none, some, ok, >>=-eq-ok,
  arith, ◌==◌, Bool-cases, inl, inr, ==_iff, throw_if, ◌>>◌,
}
use ticketflow_kenya.Base.Int.{◌-ℤ◌}
use ticketflow_kenya.Orders.{
  RecordId, TicketType, OrderItemDto, OrderItem, TicketTypes, OrderError, Checked,
}
use ticketflow_kenya.Orders.Service.{
  found, add_sold, update_row, is_short, order_item, check_item, create_item, create_items,
  reserve_item, reserve_all,
}
use ticketflow_kenya.Orders.Stock.{Raised, Raised-none, Raised-cons}

-- No ticket type has sold more than it has.
abbrev pub IsWithin : TicketTypes → Type 0
IsWithin types = (k : RecordId) (t : TicketType) → types k ≡ some t → t.quantity_sold ≤ t.quantity

pub found-eq-ok {ℓ} :
    {A : Type ℓ} (e : OrderError) (o : Option A) {a : A} → found e o ≡ ok a → o ≡ some a
found-eq-ok e none h = cc
found-eq-ok e (some a) h = cc

pub throw_if-eq-ok : (b : Bool) (e : OrderError) {u : Unit {0}} → throw_if b e ≡ ok u → b ≡ false
throw_if-eq-ok false e h = refl
throw_if-eq-ok true e h = cc

pub >>-eq-ok {ℓ} :
    {A : Type ℓ} (b : Bool) (e : OrderError) (next : Checked A) {a : A}
    → (throw_if b e >> next) ≡ ok a
    → (b ≡ false) × (next ≡ ok a)
>>-eq-ok false e next h = (refl, h)
>>-eq-ok true e next h = cc

not_short : (t : TicketType) (n : ℕ) → is_short t n ≡ false → t.quantity_sold + n ≤ t.quantity
unfolding ◌-ℤ◌
not_short t n h = ground arith

pub update_row-IsWithin :
    (types : TicketTypes) (id n : ℕ) (t : TicketType)
    → types id ≡ some t
    → t.quantity_sold + n ≤ t.quantity
    → IsWithin types
    → IsWithin (update_row id (add_sold n) types)
update_row-IsWithin types id n t here fits within k u h = elim (Bool-cases (k == id)) [
  | inl e ↦
      let same : k ≡ id = (==_iff k id).0 e in
      let now : some (add_sold n t) ≡ some u = cc (rw (same, here) at (rw e at h)) in
      let same_row : add_sold n t ≡ u = cc now in rw (← same_row) fits
  | inr e ↦ within k u (rw e at h)
]

-- A call that reserves the items: every counter has grown by them, and none over its limit.
pub record Reserved (types : TicketTypes) (items : List OrderItem) (types' : TicketTypes)
    : Type 0 where
  pub raised : Raised types items types'
  pub within : IsWithin types → IsWithin types'

reserve_item-eq-ok :
    (i : OrderItem) (types types' : TicketTypes)
    → reserve_item false i types ≡ ok types'
    → (t : TicketType) × (types i.ticket_type_id ≡ some t)
      × (t.quantity_sold + i.quantity ≤ t.quantity)
      × (types' ≡ update_row i.ticket_type_id (add_sold i.quantity) types)
unfolding reserve_item
reserve_item-eq-ok i types types' h =
    let (t, here, rest) =
      >>=-eq-ok (found OrderError.ticket_type_gone (types i.ticket_type_id)) _ h in
    let (fits, done) = >>-eq-ok (is_short t i.quantity) OrderError.sold_out _ rest in
    (t, found-eq-ok _ _ here, not_short t i.quantity fits, cc done)

-- A late payment reserves whatever is left.
reserve_late-eq-ok :
    (i : OrderItem) (types types' : TicketTypes)
    → reserve_item true i types ≡ ok types'
    → types' ≡ update_row i.ticket_type_id (add_sold i.quantity) types
unfolding reserve_item
reserve_late-eq-ok i types types' h =
    let (t, here, done) =
      >>=-eq-ok (found OrderError.ticket_type_gone (types i.ticket_type_id)) _ h in
    cc done

pub reserve_all-Reserved :
    (items : List OrderItem) (types types' : TicketTypes)
    → reserve_all false items types ≡ ok types'
    → Reserved types items types'
unfolding reserve_all
reserve_all-Reserved [] types types' h =
    let same : types ≡ types' = cc h in
    rw (← same) (record { raised = Raised-none types; within = λ w. w })
reserve_all-Reserved (i ∷ items) types types' h =
    let (types1, first, rest) = >>=-eq-ok (reserve_item false i types) _ h in
    let (t, here, fits, same) = reserve_item-eq-ok i types types1 first in
    let r = reserve_all-Reserved items types1 types' rest in
    record {
      raised = Raised-cons types types' i items (rw same at r.raised);
      within = λ w.
          r.within (rw same (update_row-IsWithin types i.ticket_type_id i.quantity t here fits w));
    }

pub reserve_all-Raised :
    (items : List OrderItem) (types types' : TicketTypes)
    → reserve_all true items types ≡ ok types'
    → Raised types items types'
unfolding reserve_all
reserve_all-Raised [] types types' h =
    let same : types ≡ types' = cc h in rw (← same) (Raised-none types)
reserve_all-Raised (i ∷ items) types types' h =
    let (types1, first, rest) = >>=-eq-ok (reserve_item true i types) _ h in
    Raised-cons types types' i items (
      rw (reserve_late-eq-ok i types types1 first) at (reserve_all-Raised items types1 types' rest))

second_guard :
    (a b c d : Bool) (e f g k : OrderError) {u : Unit {0}}
    → (throw_if a e >> throw_if b f >> throw_if c g >> throw_if d k) ≡ ok u
    → b ≡ false
second_guard true b c d e f g k h = cc
second_guard false true c d e f g k h = cc
second_guard false false c d e f g k h = refl

check_item-fits :
    (event now : ℕ) (d : OrderItemDto) (t : TicketType) {u : Unit {0}}
    → check_item event now d t ≡ ok u
    → is_short t d.quantity ≡ false
unfolding check_item
check_item-fits event now d t h = second_guard _ (is_short t d.quantity) _ _ _ _ _ _ h

create_item-eq-ok :
    (event now : ℕ) (d : OrderItemDto) (i : OrderItem) (types types' : TicketTypes)
    → create_item event now d types ≡ ok (i, types')
    → (t : TicketType) × (types i.ticket_type_id ≡ some t)
      × (t.quantity_sold + i.quantity ≤ t.quantity)
      × (types' ≡ update_row i.ticket_type_id (add_sold i.quantity) types)
unfolding create_item check_item
create_item-eq-ok event now d i types types' h =
    let (t, here, rest) =
      >>=-eq-ok (found (OrderError.ticket_type_not_found d.ticket_type_id) (types d.ticket_type_id))
        _ h in
    let (u, checked, done) = >>=-eq-ok (check_item event now d t) _ rest in
    let same_item : order_item d t ≡ i = cc done in
    let same : update_row d.ticket_type_id (add_sold d.quantity) types ≡ types' = cc done in
    rw (← same_item, ← same)
      (
        t,
        found-eq-ok _ _ here,
        not_short t d.quantity (check_item-fits event now d t checked),
        refl,
      )

pub create_items-Reserved :
    (event now : ℕ) (dtos : List OrderItemDto) (items : List OrderItem) (types types' : TicketTypes)
    → create_items event now dtos types ≡ ok (items, types')
    → Reserved types items types'
unfolding create_items
create_items-Reserved event now [] items types types' h =
    let same_items : [] ≡ items = cc h in
    let same : types ≡ types' = cc h in
    rw (← same_items, ← same) (record { raised = Raised-none types; within = λ w. w })
create_items-Reserved event now (d ∷ dtos) items types types' h =
    let ((i, types1), first, h1) = >>=-eq-ok (create_item event now d types) _ h in
    let ((is, types2), rest, h2) = >>=-eq-ok (create_items event now dtos types1) _ h1 in
    let (t, here, fits, same) = create_item-eq-ok event now d i types types1 first in
    let r = create_items-Reserved event now dtos is types1 types2 rest in
    let same_items : i ∷ is ≡ items = cc h2 in
    let same_types : types2 ≡ types' = cc h2 in
    rw (← same_items, ← same_types)
      (record {
        raised = Raised-cons types types2 i is (rw same at r.raised);
        within = λ w.
            r.within
              (rw same (update_row-IsWithin types i.ticket_type_id i.quantity t here fits w));
      })
