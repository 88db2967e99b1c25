-- ===== src/Mpesa/Client.antt =====
-- The calls of Daraja: `withRetry`, `generateAccessToken`, `authorized`, `initiateStkPush` and
-- `queryStkStatus`. What Daraja answers to each request is an argument: a function of the number of
-- requests made before it. The payload and the delays are left out.
use ticketflow_kenya.Base.{
  ℕ, zero, suc, ◌+◌, ◌*◌, ◌-◌, Bool, true, false, not, ◌||◌, Option, none, some, Result, ok, err,
  ◌==◌, ltb, leb, if◌then◌else◌,
}
use ticketflow_kenya.Base.Action.{
  Action, give, throw, read, write, demand, refuse_if, on_error, ◌>>=◌, ◌>>◌,
}
use ticketflow_kenya.Mpesa.{ResultCode, StkQueryResult}
use ticketflow_kenya.Mpesa.Query.{QueryAnswer, body, in_flight_error, other_error, query_stk_status}

-- The `errorCode` of an error's body: the one of QUERY_IN_FLIGHT_ERROR_CODES, or another.
pub data ErrorCode : Type 0 where
  in_flight other_code : ErrorCode

-- An error: an HTTP request without a response, or with its status and `errorCode`, or one that
-- is not axios's.
pub data CallError : Type 0 where
  no_response : CallError
  response : ℕ → Option ErrorCode → CallError
  not_configured no_access_token no_checkout_request_id other_fault : CallError

pub record CachedToken : Type 0 where
  pub value : ℕ
  pub expires_at : ℕ

-- The service's cache, and how many requests of each kind it has made.
pub record Client : Type 0 where
  pub cached_token : Option CachedToken
  pub token_requests : ℕ
  pub posts : ℕ

-- The body of a token's answer; `expires_in` is none when it is missing or not a positive number.
pub record TokenBody : Type 0 where
  pub access_token : Option ℕ
  pub expires_in : Option ℕ

abbrev pub Call : Type 0 → Type 0
Call A = Action CallError Client A

-- `isTransient`
abbrev pub is_transient : CallError → Bool
is_transient no_response = true
is_transient (response status (some code)) = false
is_transient (response status none) = (status == 429) || leb 500 status
is_transient _ = false

-- `axios.isAxiosError(error) && !error.response`
abbrev pub is_unanswered : CallError → Bool
is_unanswered no_response = true
is_unanswered _ = false

-- The status 401 or 403.
abbrev pub is_rejected : CallError → Bool
is_rejected (response status code) = (status == 401) || (status == 403)
is_rejected _ = false

-- `withRetry`, by the number of attempts that are left after this one.
unfoldable pub with_retry : {A : Type 0} → Call A → (CallError → Bool) → ℕ → Call A
with_retry fn retry_on zero = fn
with_retry fn retry_on (suc left) =
    on_error fn (λ e. if retry_on e then with_retry fn retry_on left else throw e)

unfoldable pub get_token : (ℕ → Result CallError TokenBody) → Call TokenBody
get_token answers c = (answers c.token_requests, record c { token_requests = c.token_requests + 1 })

unfoldable pub post : {A : Type 0} → (ℕ → Result CallError A) → Call A
post answers c = (answers c.posts, record c { posts = c.posts + 1 })

abbrev pub forget_token : Client → Client
forget_token c = record c { cached_token = none }

abbrev pub lifetime_of : Option ℕ → ℕ
lifetime_of none = 3_599
lifetime_of (some seconds) = seconds

-- `Math.max(lifetimeSeconds - 120, 60)`
abbrev pub safe_lifetime : ℕ → ℕ
safe_lifetime lifetime = if ltb (lifetime - 120) 60 then 60 else lifetime - 120

unfoldable pub keep_token : ℕ → TokenBody → Option ℕ → Call ℕ
keep_token now answer none = write forget_token >> throw no_access_token
keep_token now answer (some token) = do
  write (λ c. record c {
    cached_token = some (record {
      value = token;
      expires_at = now + safe_lifetime (lifetime_of answer.expires_in) * 1_000;
    });
  })
  give token

unfoldable pub request_token : ℕ → ℕ → (ℕ → Result CallError TokenBody) → Call ℕ
request_token max_retries now tokens = do
  answer ← with_retry (get_token tokens) is_transient max_retries
  keep_token now answer answer.access_token

abbrev pub valid_token : ℕ → Option CachedToken → Option ℕ
valid_token now none = none
valid_token now (some t) = if ltb now t.expires_at then some t.value else none

unfoldable pub token_or_request : ℕ → ℕ → (ℕ → Result CallError TokenBody) → Option ℕ → Call ℕ
token_or_request max_retries now tokens (some token) = give token
token_or_request max_retries now tokens none = request_token max_retries now tokens

unfoldable pub generate_access_token : ℕ → ℕ → (ℕ → Result CallError TokenBody) → Bool → Call ℕ
generate_access_token max_retries now tokens force_refresh = do
  cached ← read (λ c. valid_token now c.cached_token)
  token_or_request max_retries now tokens (if force_refresh then none else cached)

unfoldable pub authorized :
    {A : Type 0} → ℕ → ℕ → (ℕ → Result CallError TokenBody) → (ℕ → Call A) → Call A
authorized max_retries now tokens call =
    on_error (generate_access_token max_retries now tokens false >>= call) (λ e.
      if is_rejected e
      then write forget_token >> (generate_access_token max_retries now tokens true >>= call)
      else throw e)

-- `initiateStkPush`: the checkout request id.
unfoldable pub initiate_stk_push :
    Bool → ℕ → ℕ → (ℕ → Result CallError TokenBody) → (ℕ → Result CallError (Option ℕ)) → Call ℕ
initiate_stk_push configured max_retries now tokens answers = do
  refuse_if (not configured) not_configured
  request ← authorized max_retries now tokens (λ token. with_retry (post answers) is_unanswered 1)
  demand no_checkout_request_id request

abbrev pub error_answer : CallError → QueryAnswer
error_answer (response status (some in_flight)) = in_flight_error
error_answer _ = other_error

abbrev pub query_answer : Result CallError ResultCode → QueryAnswer
query_answer (ok c) = body c
query_answer (err e) = error_answer e

-- `queryStkStatus`, which never throws.
unfoldable pub query :
    Bool
    → ℕ
    → ℕ
    → (ℕ → Result CallError TokenBody)
    → (ℕ → Result CallError ResultCode)
    → Client
    → StkQueryResult × Client
query configured max_retries now tokens answers c =
    let (r, d) =
      (refuse_if (not configured) not_configured
          >> authorized max_retries now tokens
              (λ token. with_retry (post answers) is_transient max_retries))
        c in
    (query_stk_status (query_answer r), d)
