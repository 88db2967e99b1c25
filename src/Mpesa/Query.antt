-- ===== src/Mpesa/Query.antt =====
-- `queryStkStatus`: how the status query's HTTP answer is read.
use ticketflow_kenya.Base.{true, false}
use ticketflow_kenya.Mpesa.{MpesaOutcome, ResultCode, absent, StkQueryResult, classify}

-- What `queryStkStatus` sees of the HTTP exchange, which the library makes: a body with its
-- `ResultCode`, or an error, of which only matters whether its body has the code of a
-- transaction in flight.
pub data QueryAnswer : Type 0 where
  body : ResultCode → QueryAnswer
  in_flight_error other_error : QueryAnswer

abbrev pub not_available : StkQueryResult
not_available = record {
  outcome = MpesaOutcome.processing;
  result_code = absent;
  unavailable = true;
}

abbrev pub answered : MpesaOutcome → ResultCode → StkQueryResult
answered o c = record { outcome = o; result_code = c; unavailable = false }

unfoldable pub query_stk_status : QueryAnswer → StkQueryResult
query_stk_status (body ResultCode.absent) = not_available
query_stk_status (body c) = answered (classify c) c
query_stk_status in_flight_error = answered MpesaOutcome.processing absent
query_stk_status other_error = not_available
