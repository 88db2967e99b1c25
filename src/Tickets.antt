-- ===== src/Tickets.antt =====
-- The issue of tickets: `TicketsService.generateForOrder` of
-- backend/src/tickets/tickets.service.ts. The code, the QR image and its signature, which are drawn
-- at random or computed by a library, and the attendee's name are left out, and so is the email,
-- which is sent after the call has returned.
pub mod Exact
use ticketflow_kenya.Base.{
  ℕ, zero, suc, Bool, true, false, not, List, [], ◌∷◌, ◌++◌, ◌==◌, if◌then◌else◌, Result, ok, err,
  Option, none, some,
}
use ticketflow_kenya.Orders.{RecordId, Order, OrderItem, is_paid}

pub record Ticket : Type 0 where
  pub order_id : RecordId
  pub ticket_type_id : RecordId
  pub user_id : RecordId

pub data TicketError : Type 0 where
  order_not_found order_not_paid : TicketError

abbrev pub ticket_of : RecordId → Order → OrderItem → Ticket
ticket_of id order item = record {
  order_id = id;
  ticket_type_id = item.ticket_type_id;
  user_id = order.user_id;
}

-- `for (let i = 0; i < item.quantity; i++)`
abbrev pub units : ℕ → Ticket → List Ticket
units zero t = []
units (suc n) t = t ∷ units n t

-- `planned`, as the rows that are created from it.
unfoldable pub planned : RecordId → Order → List OrderItem → List Ticket
planned id order [] = []
planned id order (item ∷ items) =
    units item.quantity (ticket_of id order item) ++ planned id order items

-- `tx.ticket.findMany({ where: { orderId } })`
unfoldable pub tickets_of : RecordId → List Ticket → List Ticket
tickets_of id [] = []
tickets_of id (t ∷ ts) = let rest = tickets_of id ts in if t.order_id == id then t ∷ rest else rest

-- The transaction: the tickets already there, or new ones.
abbrev pub issue : List Ticket → List Ticket → List Ticket → List Ticket × List Ticket
issue (t ∷ ts) new all = (t ∷ ts, all)
issue [] new all = (new, all ++ new)

-- The tickets that are returned, and the table of all tickets.
unfoldable pub generate_for_order :
    RecordId → Option Order → List Ticket → Result TicketError (List Ticket × List Ticket)
generate_for_order id none all = err order_not_found
generate_for_order id (some order) all =
    if is_paid order.status
    then ok (issue (tickets_of id all) (planned id order order.items) all)
    else err order_not_paid
