-- ===== src/Base/Action.antt =====
-- Calls that read and write a state and may throw. A throw undoes nothing that was written before it.
pub mod Steps
pub mod Gives
use mathlib.Core.Path.{◌≡◌}
use mathlib.Core.Bool.{Bool, true, false}
use mathlib.Core.Option.{Option, none, some}
use ticketflow_kenya.Base.Errors.{Result, ok, err}

abbrev pub Action {ℓ} : Type ℓ → Type ℓ → Type ℓ → Type ℓ
Action E S A = S → Result E A × S

module _ {ℓ} {E S A : Type ℓ} where
  unfoldable pub give : A → Action E S A
  give a s = (ok a, s)

  unfoldable pub throw : E → Action E S A
  throw e s = (err e, s)

  unfoldable pub read : (S → A) → Action E S A
  read f s = (ok (f s), s)

  -- `findUniqueOrThrow`, and `if (!row) throw e;`
  unfoldable pub demand : E → Option A → Action E S A
  demand e none = throw e
  demand e (some a) = give a

module _ {ℓ} {E S : Type ℓ} where
  unfoldable pub write : (S → S) → Action E S (Unit {ℓ})
  write f s = (ok tt, f s)

  -- `if (test) throw e;`
  unfoldable pub refuse_if : Bool → E → Action E S (Unit {ℓ})
  refuse_if true e = throw e
  refuse_if false e = give tt

module _ {ℓ} {E S A B : Type ℓ} where
  abbrev pub go_on : (A → Action E S B) → Result E A × S → Result E B × S
  go_on next (ok a, s) = next a s
  go_on next (err e, s) = (err e, s)

  infixl 5 ◌>>=◌ ◌>>◌
  unfoldable pub ◌>>=◌ : Action E S A → (A → Action E S B) → Action E S B
  ◌>>=◌ first next s = go_on next (first s)

  abbrev pub ◌>>◌ : Action E S A → Action E S B → Action E S B
  first >> last = first >>= λ _. last

module _ {ℓ} {E S A : Type ℓ} where
  -- `try { await first; } catch {}`
  unfoldable pub attempt : Action E S A → Action E S (Unit {ℓ})
  attempt first s = (ok tt, (first s).1)

module _ {ℓ} {E S A : Type ℓ} where
  abbrev pub caught : (E → Action E S A) → Result E A × S → Result E A × S
  caught handler (ok a, s) = (ok a, s)
  caught handler (err e, s) = handler e s

  -- `try { return await first; } catch (e) { … }`
  unfoldable pub on_error : Action E S A → (E → Action E S A) → Action E S A
  on_error first handler s = caught handler (first s)
