-- ===== src/Checkins.antt =====
-- Checking tickets in at the gate: `CheckinsService` of backend/src/checkins/checkins.service.ts, with
-- `verifyQrSignature` of backend/src/tickets/tickets.service.ts. A ticket's id is its position in the
-- table. A call reads its snapshot of the tables first and claims the ticket later, so the two parts
-- are two functions, between which other gates may act. The HMAC of the signatures is an argument.
pub mod Once
pub mod Admission
mod Tests
use ticketflow_kenya.Base.{
  ℕ, zero, suc, ◌+◌, Bool, true, false, not, ◌&&◌, ◌||◌, List, [], ◌∷◌, ◌++◌, Option, none, some,
  ◌==◌, if◌then◌else◌,
}
use ticketflow_kenya.Base.Tables.{row_at, put_at}
use ticketflow_kenya.Orders.{OrderStatus, is_paid}

abbrev pub RecordId : Type 0
RecordId = ℕ

pub data TicketStatus : Type 0 where
  active used cancelled refunded : TicketStatus

pub data Method : Type 0 where
  qr manual : Method

-- The fields of a ticket and of its order that are read.
pub record Ticket : Type 0 where
  pub ticket_code : ℕ
  pub qr_signature : Option ℕ
  pub status : TicketStatus
  pub order_event_id : RecordId
  pub order_status : OrderStatus

pub record CheckIn : Type 0 where
  pub ticket_id : RecordId
  pub event_id : RecordId
  pub scanned_by_id : RecordId
  pub method : Method

pub data Reason : Type 0 where
  wrong_event bad_signature unpaid already_used : Reason

-- The audit log's entries.
pub data AuditEntry : Type 0 where
  scan_rejected : RecordId → RecordId → Reason → AuditEntry
  ticket_checked_in : RecordId → RecordId → AuditEntry

-- The tables; `organizers` gives the user that manages an event.
pub record Store : Type 0 where
  pub organizers : RecordId → Option RecordId
  pub tickets : List Ticket
  pub check_ins : List CheckIn
  pub audit : List AuditEntry

pub record Request : Type 0 where
  pub ticket_code : ℕ
  pub event_id : RecordId
  pub scanned_by : RecordId
  pub method : Method
  pub signature : Option ℕ

pub data CheckInError : Type 0 where
  event_not_found not_manager ticket_not_found : CheckInError
  refused : Reason → CheckInError
  not_admissible : TicketStatus → CheckInError

-- What a call has decided on its snapshot: to throw, after an entry in the log or without one, or to
-- claim a ticket.
pub data Decision : Type 0 where
  fail : CheckInError → Decision
  reject : RecordId → Reason → Decision
  claim : RecordId → Decision

-- `findUnique` by the ticket's code, with the ticket's id.
abbrev pub shifted : Option (RecordId × Ticket) → Option (RecordId × Ticket)
shifted none = none
shifted (some (i, t)) = some (suc i, t)

unfoldable pub find_code : ℕ → List Ticket → Option (RecordId × Ticket)
find_code code [] = none
find_code code (t ∷ ts) = if t.ticket_code == code then some (0, t) else shifted (find_code code ts)

abbrev pub is_used : TicketStatus → Bool
is_used TicketStatus.used = true
is_used _ = false

abbrev pub is_active : TicketStatus → Bool
is_active TicketStatus.active = true
is_active _ = false

abbrev pub is_qr : Method → Bool
is_qr qr = true
is_qr manual = false

-- `ticket.checkIn`
unfoldable pub has_check_in : RecordId → List CheckIn → Bool
has_check_in id [] = false
has_check_in id (c ∷ cs) = c.ticket_id == id || has_check_in id cs

module _ (sign : ℕ → RecordId → ℕ) where
  -- `storedSignature || this.signQrPayload(ticketCode, eventId)`
  abbrev pub expected_signature : ℕ → RecordId → Option ℕ → ℕ
  expected_signature code event none = sign code event
  expected_signature code event (some stored) = stored

  unfoldable pub verify_qr_signature : ℕ → RecordId → Option ℕ → Option ℕ → Bool
  verify_qr_signature code event none stored = false
  verify_qr_signature code event (some sig) stored = sig == expected_signature code event stored

  -- The checks on a ticket that was found.
  unfoldable pub decide_ticket : Request → RecordId → Ticket → List CheckIn → Decision
  decide_ticket r id t check_ins =
      if not (t.order_event_id == r.event_id)
      then reject id wrong_event
      else if is_qr r.method
          && not (verify_qr_signature t.ticket_code r.event_id r.signature t.qr_signature)
      then reject id bad_signature
      else if not (is_paid t.order_status)
      then reject id unpaid
      else if is_used t.status || has_check_in id check_ins
      then reject id already_used
      else if not (is_active t.status)
      then fail (not_admissible t.status)
      else claim id

  abbrev pub decide_found : Request → Option (RecordId × Ticket) → List CheckIn → Decision
  decide_found r none check_ins = fail ticket_not_found
  decide_found r (some (id, t)) check_ins = decide_ticket r id t check_ins

  abbrev pub decide_event : Request → Option RecordId → Store → Decision
  decide_event r none s = fail event_not_found
  decide_event r (some owner) s =
      if not (owner == r.scanned_by)
      then fail not_manager
      else decide_found r (find_code r.ticket_code s.tickets) s.check_ins

  -- The reading part of `performCheckIn`.
  unfoldable pub decide : Request → Store → Decision
  decide r s = decide_event r (s.organizers r.event_id) s

abbrev pub logged : AuditEntry → Store → Store
logged e s = record s { audit = s.audit ++ e ∷ [] }

abbrev pub new_check_in : Request → RecordId → CheckIn
new_check_in r id = record {
  ticket_id = id;
  event_id = r.event_id;
  scanned_by_id = r.scanned_by;
  method = r.method;
}

-- The ticket becomes USED and the check-in is stored, when the ticket is still active.
abbrev pub claim_found : Request → RecordId → Option Ticket → Store → Bool × Store
claim_found r id none s = (false, logged (scan_rejected r.scanned_by id already_used) s)
claim_found r id (some t) s =
    if is_active t.status
    then (
      true,
      logged (ticket_checked_in r.scanned_by id) (record s {
        tickets = put_at id (record t { status = TicketStatus.used }) s.tickets;
        check_ins = s.check_ins ++ new_check_in r id ∷ [];
      }),
    )
    else (false, logged (scan_rejected r.scanned_by id already_used) s)

-- The writing part of `performCheckIn`: whether the ticket was admitted, and the new tables.
unfoldable pub finish : Request → Decision → Store → Bool × Store
finish r (fail e) s = (false, s)
finish r (reject id reason) s = (false, logged (scan_rejected r.scanned_by id reason) s)
finish r (claim id) s = claim_found r id (row_at id s.tickets) s
