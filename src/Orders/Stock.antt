-- ===== src/Orders/Stock.antt =====
-- What the loops of `OrdersService` do to the counters of the ticket types.
use ticketflow_kenya.Base.{
  ℕ, ◌+◌, ◌≡◌, refl, ap, ◌∙◌, List, [], ◌∷◌, Option, none, some, arith, ◌==◌, if◌then◌else◌,
  Bool-cases, inl, inr,
}
use ticketflow_kenya.Orders.{RecordId, TicketType, OrderItem, TicketTypes}
use ticketflow_kenya.Orders.Service.{add_sold, lower_sold, map_row, update_row, release_items}

-- How many tickets of a type some items want.
unfoldable pub wanted : RecordId → List OrderItem → ℕ
wanted k [] = 0
wanted k (i ∷ is) = (if k == i.ticket_type_id then i.quantity else 0) + wanted k is

-- The counters have grown by the items, or have been lowered by them.
abbrev pub Raised : TicketTypes → List OrderItem → TicketTypes → Type 0
Raised types items types' =
    (k : RecordId) → types' k ≡ map_row (add_sold (wanted k items)) (types k)

abbrev pub Lowered : TicketTypes → List OrderItem → TicketTypes → Type 0
Lowered types items types' =
    (k : RecordId) → types' k ≡ map_row (lower_sold (wanted k items)) (types k)

add_none : (o : Option TicketType) → o ≡ map_row (add_sold 0) o
add_none none = refl
add_none (some t) = ap (λ n. some (record t { quantity_sold = n })) (omega arith)

lower_none : (o : Option TicketType) → o ≡ map_row (lower_sold 0) o
lower_none none = refl
lower_none (some t) = ap (λ n. some (record t { quantity_sold = n })) (omega arith)

add_both :
    (a b : ℕ) (o : Option TicketType)
    → map_row (add_sold b) (map_row (add_sold a) o) ≡ map_row (add_sold (a + b)) o
add_both a b none = refl
add_both a b (some t) = ap (λ n. some (record t { quantity_sold = n })) (omega arith)

lower_both :
    (a b : ℕ) (o : Option TicketType)
    → map_row (lower_sold b) (map_row (lower_sold a) o) ≡ map_row (lower_sold (a + b)) o
lower_both a b none = refl
lower_both a b (some t) = ap (λ n. some (record t { quantity_sold = n })) (omega arith)

pub Raised-none : (types : TicketTypes) → Raised types [] types
unfolding wanted
Raised-none types k = add_none (types k)

pub Raised-cons :
    (types types' : TicketTypes) (i : OrderItem) (is : List OrderItem)
    → Raised (update_row i.ticket_type_id (add_sold i.quantity) types) is types'
    → Raised types (i ∷ is) types'
unfolding wanted
Raised-cons types types' i is h k = elim (Bool-cases (k == i.ticket_type_id)) [
  | inl e ↦ h k ∙ rw e (add_both i.quantity (wanted k is) (types k))
  | inr e ↦ h k ∙ rw e (ap (λ n. map_row (add_sold n) (types k)) (omega arith))
]

pub release_items-Lowered :
    (is : List OrderItem) (types : TicketTypes) → Lowered types is (release_items is types)
unfolding wanted release_items
release_items-Lowered [] types k = lower_none (types k)
release_items-Lowered (i ∷ is) types k = elim (Bool-cases (k == i.ticket_type_id)) [
  | inl e ↦ release_items-Lowered is _ k ∙ rw e (lower_both i.quantity (wanted k is) (types k))
  | inr e ↦
      release_items-Lowered is _ k ∙ rw e (ap (λ n. map_row (lower_sold n) (types k)) (omega arith))
]
