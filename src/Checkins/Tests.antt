-- ===== src/Checkins/Tests.antt =====
-- Runs of `CheckinsService` on concrete tickets.
use ticketflow_kenya.Base.{ℕ, ◌+◌, ◌≡◌, refl, [], ◌∷◌, List, none, some, arith}
use ticketflow_kenya.Orders.{OrderStatus}
use ticketflow_kenya.Checkins.{
  RecordId, TicketStatus, Ticket, Method, Store, Request, Decision, claim, find_code, has_check_in,
  verify_qr_signature, decide_ticket, decide,
}
use ticketflow_kenya.Checkins.Once.{IsOnce, check_in_count, finish_all, finish_all-IsOnce}
use ticketflow_kenya.Checkins.Admission.{IsAdmissible, decide-IsAdmissible}

abbrev test_sign : ℕ → RecordId → ℕ
test_sign code event = code + event

abbrev test_ticket : Ticket
test_ticket = record {
  ticket_code = 40;
  qr_signature = none;
  status = TicketStatus.active;
  order_event_id = 2;
  order_status = OrderStatus.paid;
}

abbrev test_store : Store
test_store = record {
  organizers = λ _. some 7;
  tickets = test_ticket ∷ [];
  check_ins = [];
  audit = [];
}

abbrev test_request : Request
test_request = record {
  ticket_code = 40;
  event_id = 2;
  scanned_by = 7;
  method = Method.qr;
  signature = some 42;
}

test_decided : decide test_sign test_request test_store ≡ claim 0
unfolding decide decide_ticket find_code has_check_in verify_qr_signature
test_decided = refl

decide-IsAdmissible_example : (t : Ticket) × IsAdmissible test_sign test_request 0 t test_store
decide-IsAdmissible_example = decide-IsAdmissible test_sign test_request test_store 0 test_decided

-- Two gates that decided at the same instant to claim the same ticket.
abbrev two_gates : List (Request × Decision)
two_gates = (test_request, claim 0) ∷ (test_request, claim 0) ∷ []

test_store-IsOnce : IsOnce test_store
unfolding check_in_count
test_store-IsOnce id t h = omega arith

finish_all-IsOnce_example : IsOnce (finish_all two_gates test_store)
finish_all-IsOnce_example = finish_all-IsOnce two_gates test_store test_store-IsOnce
