-- ===== src/Mpesa/Tests.antt =====
-- Runs of the M-Pesa client against concrete answers.
use ticketflow_kenya.Base.{ℕ, zero, suc, ◌≡◌, refl, true, Option, none, some, Result, ok, err}
use ticketflow_kenya.Base.Action.{read, write, give, throw, demand, refuse_if, on_error, ◌>>=◌}
use ticketflow_kenya.Mpesa.{ResultCode, MpesaOutcome, classify, look_up}
use ticketflow_kenya.Mpesa.Client.{
  CallError, Client, TokenBody, no_response, response, is_transient, with_retry, get_token, post,
  keep_token, request_token, token_or_request, generate_access_token, authorized, initiate_stk_push,
}
use ticketflow_kenya.Mpesa.Retries.{IsTried, with_retry-IsTried}
use ticketflow_kenya.Mpesa.Push.{IsCareful, push-IsCareful}

abbrev idle : Client
idle = record { cached_token = none; token_requests = 0; posts = 0 }

abbrev tokens : ℕ → Result CallError TokenBody
tokens n = ok (record { access_token = some n; expires_in = none })

-- The first request is lost, its retry refused for its token, the third lost again.
abbrev answers : ℕ → Result CallError (Option ℕ)
answers zero = err no_response
answers (suc zero) = err (response 401 none)
answers (suc (suc zero)) = err no_response
answers (suc (suc (suc n))) = ok (some 31)

fourth_push : (initiate_stk_push true 2 1_000 tokens answers idle).0 ≡ ok 31
unfolding initiate_stk_push authorized generate_access_token token_or_request request_token
    keep_token with_retry get_token post on_error refuse_if demand give throw read write ◌>>=◌
fourth_push = refl

cancelled_code : classify (ResultCode.code 1_032) ≡ MpesaOutcome.cancelled
unfolding look_up
cancelled_code = refl

with_retry-IsTried_example :
    IsTried answers is_transient 2 0 (with_retry (post answers) is_transient 2 idle)
with_retry-IsTried_example = with_retry-IsTried answers is_transient 2 idle

push-IsCareful_example :
    IsCareful 2 1_000 tokens answers 0 (initiate_stk_push true 2 1_000 tokens answers idle).1
push-IsCareful_example = push-IsCareful 2 1_000 tokens answers true idle
