-- ===== src/Mpesa/Retries.antt =====
-- How often a request is made, and after which answers.
use ticketflow_kenya.Base.{
  ℕ, zero, suc, ◌+◌, ◌≡◌, refl, ap, sym, ◌∙◌, ◌≤◌, ◌<◌, Bool, true, Result, ok, err, ◌⊎◌, inl, inr,
  Bool-cases, arith, if◌then◌else◌,
}
use ticketflow_kenya.Base.Action.{throw, on_error, caught}
use ticketflow_kenya.Mpesa.Client.{CallError, Client, with_retry, post}

-- What `withRetry` does with a request: it is made, at most once more than there are retries; every answer
-- but the last was an error to retry on; the result is the last answer; and an error to retry on is
-- the result only when no retry is left.
pub record IsTried {A : Type 0} (answers : ℕ → Result CallError A) (retry_on : CallError → Bool)
    (retries : ℕ) (first : ℕ) (r : Result CallError A × Client) : Type 0 where
  pub made : first < (r.1).posts
  pub bounded : (r.1).posts ≤ first + suc retries
  pub retried :
      (i : ℕ)
      → first ≤ i
      → suc i < (r.1).posts
      → (e : CallError) × (answers i ≡ err e) × (retry_on e ≡ true)
  pub last : (i : ℕ) → suc i ≡ (r.1).posts → r.0 ≡ answers i
  pub exhausted :
      (e : CallError) → r.0 ≡ err e → retry_on e ≡ true → (r.1).posts ≡ first + suc retries

first-or-later : (a i : ℕ) → a ≤ i → (i ≡ a) ⊎ (a + 1 ≤ i)
first-or-later zero zero h = inl refl
first-or-later zero (suc i) h = inr (omega arith)
first-or-later (suc a) zero h = absurd (omega (arith, h))
first-or-later (suc a) (suc i) h = elim (first-or-later a i (omega (arith, h))) [
  | inl e ↦ inl (ap suc e)
  | inr l ↦ inr (omega (arith, l))
]

same_error : {A : Type 0} (e f : CallError) → Path (Result CallError A) (err e) (err f) → e ≡ f
same_error e f h = cc h

module _ {A : Type 0} (answers : ℕ → Result CallError A) (retry_on : CallError → Bool) where
  -- One request, whose answer is not retried.
  once :
      (retries : ℕ) (c : Client)
      → ((e : CallError) → answers c.posts ≡ err e → retry_on e ≡ true → retries ≡ 0)
      → IsTried answers retry_on retries c.posts (post answers c)
  unfolding post
  once retries c over = record {
    made = omega arith;
    bounded = omega arith;
    retried = λ i low high. absurd (omega (arith, low, high));
    last = λ i e. let same : c.posts ≡ i = omega (arith, e) in rw same refl;
    exhausted = λ e h again. let none_left = over e h again in omega (arith, none_left);
  }

  -- Another request after an answer that is retried.
  again :
      (retries : ℕ) (first : ℕ) (e : CallError) (r : Result CallError A × Client)
      → answers first ≡ err e
      → retry_on e ≡ true
      → IsTried answers retry_on retries (first + 1) r
      → IsTried answers retry_on (suc retries) first r
  again retries first e r answer h tried = record {
    made = omega (arith, tried.made);
    bounded = omega (arith, tried.bounded);
    retried = λ i low high. elim (first-or-later first i low) [
      | inl here ↦ (e, rw (sym here) at answer, h)
      | inr later ↦ tried.retried i later high
    ];
    last = tried.last;
    exhausted = λ f failed h'. let all = tried.exhausted f failed h' in omega (arith, all);
  }

  -- `withRetry` ends after at most one request more than its retries, and returns the first answer
  -- that is not an error to retry on, or the last answer; it makes no request after that answer.
  pub with_retry-IsTried :
      (retries : ℕ) (c : Client)
      → IsTried answers retry_on retries c.posts (with_retry (post answers) retry_on retries c)
  unfolding with_retry on_error post throw
  with_retry-IsTried zero c = once 0 c (λ e h again. refl)
  with_retry-IsTried (suc retries) c =
      by_answer (answers c.posts) refl
        (with_retry-IsTried retries (record c { posts = c.posts + 1 }))
    where
      by_answer :
          (a : Result CallError A)
          → answers c.posts ≡ a
          → IsTried answers retry_on retries
              (c.posts + 1)
              (with_retry (post answers) retry_on retries (record c { posts = c.posts + 1 }))
          → IsTried answers retry_on (suc retries) c.posts (
              caught
                (λ e. if retry_on e then with_retry (post answers) retry_on retries else throw e)
                (post answers c))
      by_answer (ok v) h rest = rw h (rw h at (once (suc retries) c (λ e h' again. cc (h, h'))))
      by_answer (err e) h rest = elim (Bool-cases (retry_on e)) [
        | inl t ↦ rw (h, t) (again retries c.posts e _ h t rest)
        | inr f ↦
            rw (h, f)
              (rw h at (
                once (suc retries) c (λ e' h' t.
                  let same : e ≡ e' = same_error e e' (sym h ∙ h') in cc (rw same at f, t))))
      ]
