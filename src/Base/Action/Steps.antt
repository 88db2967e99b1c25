-- ===== src/Base/Action/Steps.antt =====
-- Relations between the state before a call and the state after it, one rule for each way to build
-- a call.
use mathlib.Core.Path.{◌≡◌, refl}
use mathlib.Core.Bool.{Bool, true, false}
use mathlib.Core.Option.{Option, none, some}
use ticketflow_kenya.Base.Errors.{Result, ok, err}
use ticketflow_kenya.Base.Tests.{if◌then◌else◌}
use ticketflow_kenya.Base.Action.{
  Action, give, throw, read, write, demand, refuse_if, ◌>>=◌, go_on, attempt, on_error, caught,
}

-- A relation that the empty call satisfies, and two calls in a row.
pub record IsChain {ℓ} {S : Type ℓ} (R : S → S → Type ℓ) : Type ℓ where
  pub stay : (s : S) → R s s
  pub join : (s t u : S) → R s t → R t u → R s u

-- Whether it returns or throws, the call takes each state to one that is related.
pub record Steps {ℓ} {E S A : Type ℓ} (R : S → S → Type ℓ) (m : Action E S A) : Type ℓ where
  pub at : (s : S) → R s (m s).1

module _ {ℓ} {E S A : Type ℓ} {R : S → S → Type ℓ} where
  pub Steps-give : IsChain R → (a : A) → Steps {E = E} R (give a)
  unfolding give
  Steps-give chain a = record { at = λ s. chain.stay s }

  pub Steps-throw : IsChain R → (e : E) → Steps {A = A} R (throw e)
  unfolding throw
  Steps-throw chain e = record { at = λ s. chain.stay s }

  pub Steps-read : IsChain R → (f : S → A) → Steps {E = E} R (read f)
  unfolding read
  Steps-read chain f = record { at = λ s. chain.stay s }

  pub Steps-demand : IsChain R → (e : E) (o : Option A) → Steps R (demand e o)
  unfolding demand
  Steps-demand chain e none = Steps-throw chain e
  Steps-demand chain e (some a) = record { at = λ s. unfold give in chain.stay s }

  pub Steps-attempt : (m : Action E S A) → Steps R m → Steps R (attempt m)
  unfolding attempt
  Steps-attempt m h = record { at = h.at }

  Steps-caught :
      IsChain R
      → (s : S) (handler : E → Action E S A) (p : Result E A × S) → R s p.1
      → ((e : E) → Steps R (handler e))
      → R s (caught handler p).1
  Steps-caught chain s handler (ok a, t) h after = h
  Steps-caught chain s handler (err e, t) h after = chain.join s t _ h ((after e).at t)

  pub Steps-on_error :
      IsChain R
      → (first : Action E S A) (handler : E → Action E S A) → Steps R first
      → ((e : E) → Steps R (handler e))
      → Steps R (on_error first handler)
  unfolding on_error
  Steps-on_error chain first handler h after = record {
    at = λ s. Steps-caught chain s handler (first s) (h.at s) after;
  }

  pub Steps-if :
      (b : Bool) (m n : Action E S A)
      → (b ≡ true → Steps R m)
      → (b ≡ false → Steps R n)
      → Steps R (if b then m else n)
  Steps-if true m n hm hn = hm refl
  Steps-if false m n hm hn = hn refl

module _ {ℓ} {E S : Type ℓ} {R : S → S → Type ℓ} where
  pub Steps-write : (f : S → S) → ((s : S) → R s (f s)) → Steps {E = E} R (write f)
  unfolding write
  Steps-write f h = record { at = h }

  pub Steps-refuse_if : IsChain R → (b : Bool) (e : E) → Steps R (refuse_if b e)
  unfolding refuse_if
  Steps-refuse_if chain true e = Steps-throw chain e
  Steps-refuse_if chain false e = Steps-give chain tt

module _ {ℓ} {E S A B : Type ℓ} {R : S → S → Type ℓ} where
  Steps-go_on :
      IsChain R
      → (s : S) (next : A → Action E S B) (p : Result E A × S) → R s p.1
      → ((a : A) → Steps R (next a))
      → R s (go_on next p).1
  Steps-go_on chain s next (ok a, t) h after = chain.join s t _ h ((after a).at t)
  Steps-go_on chain s next (err e, t) h after = h

  pub Steps-bind :
      IsChain R
      → (first : Action E S A) (next : A → Action E S B) → Steps R first
      → ((a : A) → Steps R (next a))
      → Steps R (first >>= next)
  unfolding ◌>>=◌
  Steps-bind chain first next h after = record {
    at = λ s. Steps-go_on chain s next (first s) (h.at s) after;
  }

pub ruleset steps_rules = (
  Steps-give, Steps-throw, Steps-read, Steps-demand, Steps-if, Steps-refuse_if, Steps-attempt,
  Steps-bind,
)
