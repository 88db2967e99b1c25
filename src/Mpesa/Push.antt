-- ===== src/Mpesa/Push.antt =====
-- Which requests of an STK push are made after another one.
use ticketflow_kenya.Base.{
  ℕ, zero, suc, ◌+◌, ◌≡◌, refl, ap, sym, ◌∙◌, ◌≤◌, ◌<◌, Bool, true, false, ◌||◌, Option, none, some,
  Result, ok, err, ◌⊎◌, inl, inr, Bool-cases, arith, if◌then◌else◌,
}
use ticketflow_kenya.Base.Action.{
  give, throw, write, demand, refuse_if, on_error, caught, go_on, ◌>>=◌, ◌>>◌,
}
use ticketflow_kenya.Base.Action.Steps.{
  IsChain, Steps, Steps-on_error, Steps-if, Steps-throw, steps_rules,
}
use ticketflow_kenya.Mpesa.Client.{
  CallError, Client, TokenBody, Call, is_transient, is_unanswered, is_rejected, with_retry,
  get_token, post, forget_token, keep_token, request_token, token_or_request, generate_access_token,
  authorized, initiate_stk_push, no_checkout_request_id,
}
use ticketflow_kenya.Mpesa.Retries.{IsTried, with_retry-IsTried}

-- No post is made.
abbrev SamePosts : Client → Client → Type 0
SamePosts c d = d.posts ≡ c.posts

SamePosts-chain : IsChain SamePosts
SamePosts-chain = record { stay = λ c. refl; join = λ c d e h i. i ∙ h }

get_token-SamePosts : (tokens : ℕ → Result CallError TokenBody) → Steps SamePosts (get_token tokens)
unfolding get_token
get_token-SamePosts tokens = record { at = λ c. refl }

retry_token-SamePosts :
    (tokens : ℕ → Result CallError TokenBody) (retries : ℕ)
    → Steps SamePosts (with_retry (get_token tokens) is_transient retries)
unfolding with_retry
retry_token-SamePosts tokens zero = get_token-SamePosts tokens
retry_token-SamePosts tokens (suc retries) =
    Steps-on_error SamePosts-chain _ _ (get_token-SamePosts tokens) (λ e.
      Steps-if (is_transient e) _ _ (λ _. retry_token-SamePosts tokens retries)
        (λ _. Steps-throw SamePosts-chain e))

keep_token-SamePosts :
    (now : ℕ) (answer : TokenBody) (token : Option ℕ)
    → Steps SamePosts (keep_token now answer token)
unfolding keep_token write throw give ◌>>=◌
keep_token-SamePosts now answer none = record { at = λ c. refl }
keep_token-SamePosts now answer (some token) = record { at = λ c. refl }

token_or_request-SamePosts :
    (retries now : ℕ) (tokens : ℕ → Result CallError TokenBody) (cached : Option ℕ)
    → Steps SamePosts (token_or_request retries now tokens cached)
unfolding token_or_request request_token
token_or_request-SamePosts retries now tokens (some token) = search (steps_rules, SamePosts-chain)
token_or_request-SamePosts retries now tokens none =
    search (steps_rules, SamePosts-chain, retry_token-SamePosts, keep_token-SamePosts)

generate-SamePosts :
    (retries now : ℕ) (tokens : ℕ → Result CallError TokenBody) (force : Bool)
    → Steps SamePosts (generate_access_token retries now tokens force)
unfolding generate_access_token
generate-SamePosts retries now tokens force =
    search (steps_rules, SamePosts-chain, token_or_request-SamePosts)

-- A request that Daraja did not answer, or refused for its token.
abbrev pub may_replay : CallError → Bool
may_replay e = is_unanswered e || is_rejected e

module _ (max_retries now : ℕ) (tokens : ℕ → Result CallError TokenBody)
    (answers : ℕ → Result CallError (Option ℕ)) where
  -- A token, then the request with its retry.
  abbrev attempt_push : Bool → Call (Option ℕ)
  attempt_push force = generate_access_token max_retries now tokens force >>= λ token.
      with_retry (post answers) is_unanswered 1

  abbrev IsPhase : ℕ → Result CallError (Option ℕ) × Client → Type 0
  IsPhase first r = ((r.1).posts ≡ first) ⊎ IsTried answers is_unanswered 1 first r

  attempt_push-IsPhase : (force : Bool) (c : Client) → IsPhase c.posts (attempt_push force c)
  unfolding ◌>>=◌
  attempt_push-IsPhase force c =
      after (generate_access_token max_retries now tokens force c)
        ((generate-SamePosts max_retries now tokens force).at c)
    where
      after :
          (r : Result CallError ℕ × Client)
          → SamePosts c r.1
          → IsPhase c.posts (go_on (λ token. with_retry (post answers) is_unanswered 1) r)
      after (ok token, d) h = inr (rw (← h) (with_retry-IsTried answers is_unanswered 1 d))
      after (err e, d) h = inl h

  -- At most four requests, each but the last unanswered or refused for its token.
  pub record IsCareful (first : ℕ) (c : Client) : Type 0 where
    pub few : c.posts ≤ first + 4
    pub replayed :
        (i : ℕ)
        → first ≤ i
        → suc i < c.posts
        → (e : CallError) × (answers i ≡ err e) × (may_replay e ≡ true)

  unanswered-may_replay : (e : CallError) → is_unanswered e ≡ true → may_replay e ≡ true
  unanswered-may_replay e h = rw h refl

  rejected-may_replay : (e : CallError) → is_rejected e ≡ true → may_replay e ≡ true
  rejected-may_replay e h = ground arith

  phase-few :
      (first : ℕ) (r : Result CallError (Option ℕ) × Client)
      → IsPhase first r
      → (r.1).posts ≤ first + 2
  phase-few first r (inl same) = omega (arith, same)
  phase-few first r (inr tried) = omega (arith, tried.bounded)

  phase-IsCareful :
      (first : ℕ) (r : Result CallError (Option ℕ) × Client) → IsPhase first r → IsCareful first r.1
  phase-IsCareful first r (inl same) = record {
    few = omega (arith, same);
    replayed = λ i low high. absurd (omega (arith, same, low, high));
  }
  phase-IsCareful first r (inr tried) = record {
    few = omega (arith, tried.bounded);
    replayed = λ i low high.
        let (e, answer, h) = tried.retried i low high in (e, answer, unanswered-may_replay e h);
  }

  -- Where a request stands that is followed by another, when there are two phases.
  place : (i b : ℕ) → (suc i < b) ⊎ ((suc i ≡ b) ⊎ (b ≤ i))
  place i zero = inr (inr (omega arith))
  place zero (suc zero) = inr (inl refl)
  place zero (suc (suc b)) = inl (omega arith)
  place (suc i) (suc b) = elim (place i b) [
    | inl h ↦ inl (omega (arith, h))
    | inr (inl h) ↦ inr (inl (ap suc h))
    | inr (inr h) ↦ inr (inr (omega (arith, h)))
  ]

  two-IsCareful :
      (first : ℕ) (e : CallError) (d : Client) (r : Result CallError (Option ℕ) × Client)
      → IsPhase first (err e, d)
      → is_rejected e ≡ true
      → IsPhase d.posts r
      → IsCareful first r.1
  two-IsCareful first e d r (inl same) rejected second =
      rw same at (phase-IsCareful d.posts r second)
  two-IsCareful first e d r (inr tried) rejected second =
      let later = phase-IsCareful d.posts r second in
      record {
        few = omega (arith, phase-few d.posts r second, tried.bounded);
        replayed = λ i low high. elim (place i d.posts) [
          | inl h ↦
              let (f, answer, u) = tried.retried i low h in (f, answer, unanswered-may_replay f u)
          | inr (inl h) ↦ (e, sym (tried.last i h), rejected-may_replay e rejected)
          | inr (inr h) ↦ later.replayed i h high
        ];
      }

  retried :
      {first : ℕ} (e : CallError) (d : Client)
      → IsPhase first (err e, d)
      → is_rejected e ≡ true
      → IsCareful first ((write forget_token >> attempt_push true) d).1
  unfolding write ◌>>=◌
  retried {first} e d phase h =
      two-IsCareful first e d _ phase h (attempt_push-IsPhase true (forget_token d))

  thrown :
      {first : ℕ} (e : CallError) (d : Client)
      → IsPhase first (err e, d)
      → IsCareful first (throw {A = Option ℕ} e d).1
  unfolding throw
  thrown {first} e d phase = phase-IsCareful first (err e, d) phase

  -- What `authorized` makes of its two phases.
  authorized-IsCareful :
      (c : Client)
      → IsCareful c.posts
          (authorized max_retries now tokens
            (λ token. with_retry (post answers) is_unanswered 1)
            c).1
  unfolding authorized on_error
  authorized-IsCareful c = after (attempt_push false c) (attempt_push-IsPhase false c)
    where
      after :
          (r : Result CallError (Option ℕ) × Client)
          → IsPhase c.posts r
          → IsCareful c.posts
              (caught
                (λ e. if is_rejected e then write forget_token >> attempt_push true else throw e)
                r).1
      after (ok v, d) phase = phase-IsCareful c.posts (ok v, d) phase
      after (err e, d) phase = elim (Bool-cases (is_rejected e)) [
        | inl h ↦ rw h (retried e d phase h)
        | inr h ↦ rw h (thrown e d phase)
      ]

  -- `initiateStkPush` posts the push at most four times, whatever Daraja answers, and posts it again
  -- only after a request that got no response or was refused with 401 or 403: a push that
  -- Daraja has answered otherwise is never sent a second time.
  pub push-IsCareful :
      (configured : Bool) (c : Client)
      → IsCareful c.posts (initiate_stk_push configured max_retries now tokens answers c).1
  unfolding initiate_stk_push refuse_if throw give demand ◌>>=◌
  push-IsCareful false c = record {
    few = omega arith;
    replayed = λ i low high. absurd (omega (arith, low, high));
  }
  push-IsCareful true c =
      demanded
        (authorized max_retries now tokens (λ token. with_retry (post answers) is_unanswered 1) c)
        (authorized-IsCareful c)
    where
      demanded :
          (r : Result CallError (Option ℕ) × Client)
          → IsCareful c.posts r.1
          → IsCareful c.posts (go_on (λ request. demand no_checkout_request_id request) r).1
      demanded (ok none, d) h = h
      demanded (ok (some v), d) h = h
      demanded (err e, d) h = h
