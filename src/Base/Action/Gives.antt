-- ===== src/Base/Action/Gives.antt =====
-- What a call returns, when it returns.
use mathlib.Core.Path.{◌≡◌, refl}
use mathlib.Core.Bool.{Bool, true, false}
use ticketflow_kenya.Base.Errors.{Result, ok, err}
use ticketflow_kenya.Base.Tests.{if◌then◌else◌}
use ticketflow_kenya.Base.Action.{Action, give, ◌>>=◌, go_on}
use ticketflow_kenya.Base.Action.Steps.{IsChain, Steps}

abbrev pub Given {ℓ} : {E A : Type ℓ} → (A → Type ℓ) → Result E A → Type ℓ
Given P (ok a) = P a
Given P (err e) = Unit

-- Whatever the call returns satisfies `P`.
pub record Gives {ℓ} {E S A : Type ℓ} (P : A → Type ℓ) (m : Action E S A) : Type ℓ where
  pub at : (s : S) → Given P (m s).0

module _ {ℓ} {E S A : Type ℓ} {P : A → Type ℓ} where
  pub Gives-give : (a : A) → P a → Gives {E = E} {S = S} P (give a)
  unfolding give
  Gives-give a h = record { at = λ s. h }

  pub Gives-if :
      (b : Bool) (m n : Action E S A)
      → (b ≡ true → Gives P m)
      → (b ≡ false → Gives P n)
      → Gives P (if b then m else n)
  Gives-if true m n hm hn = hm refl
  Gives-if false m n hm hn = hn refl

module _ {ℓ} {E S A B : Type ℓ} {P : B → Type ℓ} where
  Given-go_on :
      (next : A → Action E S B) (r : Result E A × S)
      → ((a : A) → Gives P (next a))
      → Given P (go_on next r).0
  Given-go_on next (ok a, t) h = (h a).at t
  Given-go_on next (err e, t) h = tt

  pub Gives-bind :
      (first : Action E S A) (next : A → Action E S B)
      → ((a : A) → Gives P (next a))
      → Gives P (first >>= next)
  unfolding ◌>>=◌
  Gives-bind first next h = record { at = λ s. Given-go_on next (first s) h }

module _ {ℓ} {E S A B : Type ℓ} {R : S → S → Type ℓ} {P : A → Type ℓ} where
  -- The rest of a block may use what is known of the value that the first call returned.
  pub Steps-bind-Gives :
      IsChain R
      → (first : Action E S A) (next : A → Action E S B) → Steps R first
      → Gives P first
      → ((a : A) → P a → Steps R (next a))
      → Steps R (first >>= next)
  unfolding ◌>>=◌
  Steps-bind-Gives chain first next h given after = record {
    at = λ s. joined s (first s) (h.at s) (given.at s);
  }
    where
      joined : (s : S) (r : Result E A × S) → R s r.1 → Given P r.0 → R s (go_on next r).1
      joined s (ok a, t) h p = chain.join s t (go_on next (ok a, t)).1 h ((after a p).at t)
      joined s (err e, t) h p = h
