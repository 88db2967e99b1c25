-- ===== src/Payments/Trace.antt =====
-- Sequences of calls of the payments' endpoints, of the sweep, and of the placing of orders.
use ticketflow_kenya.Base.{ℕ, Bool, List, [], ◌∷◌, Option, ok, err}
use ticketflow_kenya.Orders.{RecordId, CreateOrderDto, Order, Checked}
use ticketflow_kenya.Orders
use ticketflow_kenya.Orders.Service.{create}
use ticketflow_kenya.Payments.{Store, Config, Act}
use ticketflow_kenya.Payments.Settle.{call_orders}
use ticketflow_kenya.Payments.Reconcile.{Ask}
use ticketflow_kenya.Payments.Callback.{CallbackContext, StkCallback, handle_mpesa_callback}
use ticketflow_kenya.Payments.Initiate.{
  perform_initiation, mock_mark_success, sweep_pending_payments,
}
use ticketflow_kenya.Payments.Reads.{get_status}

-- A call, with its arguments, the clock and what Daraja answers.
pub data Call : Type 0 where
  place_order : Bool → ℕ → RecordId → CreateOrderDto → Call
  initiate : Ask → Option ℕ → RecordId → RecordId → Call
  callback : Ask → CallbackContext → Option StkCallback → Call
  status : Ask → RecordId → Bool → RecordId → Call
  sweep : Ask → Call
  mock_success : ℕ → RecordId → Call

abbrev pub second {ℓ} : {A : Type ℓ} → Checked (A × Orders.Store) → Checked Orders.Store
second (ok r) = ok r.1
second (err e) = err e

-- `OrdersService.create`
unfoldable pub create_order : ℕ → Bool → ℕ → RecordId → CreateOrderDto → Act (Unit {0})
create_order now in_production percent user dto =
    call_orders (λ shop. second (create in_production percent now user dto shop))

-- The tables after the call, whether it returns or throws.
unfoldable pub run : Config → ℕ → Call → Store → Store
run cfg now (place_order production percent user dto) s =
    (create_order now production percent user dto s).1
run cfg now (initiate ask push user order_id) s =
    (perform_initiation cfg now ask push user order_id s).1
run cfg now (callback ask ctx body) s = (handle_mpesa_callback cfg now ask ctx body s).1
run cfg now (status ask user is_admin id) s = (get_status cfg now ask user is_admin id s).1
run cfg now (sweep ask) s = (sweep_pending_payments cfg now ask s).1
run cfg now (mock_success receipt id) s = (mock_mark_success cfg receipt id s).1

-- The calls with the times they are made at.
unfoldable pub run_all : Config → List (ℕ × Call) → Store → Store
run_all cfg [] s = s
run_all cfg ((now, call) ∷ calls) s = run_all cfg calls (run cfg now call s)
