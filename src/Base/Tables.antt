-- ===== src/Base/Tables.antt =====
-- A table as the list of its rows, where the id of a row is its position.
pub mod Latest
use Prim.Native.Nat.{ℕ, zero, suc, ◌<◌}
use mathlib.Core.Path.{◌≡◌, refl, ap}
use mathlib.Core.Logic.{◌⊎◌, inl, inr}
use mathlib.Core.Bool.{Bool, true, false}
use mathlib.Core.Option.{Option, none, some}
use mathlib.Core.List.{List, [], ◌∷◌, ◌++◌}
use native.Mathlib.Omega.{arith}
use ticketflow_kenya.Base.Lists.{All, length}
use ticketflow_kenya.Base.Tests.{ltb, if◌then◌else◌, Bool-cases}

module _ {ℓ} {Row : Type ℓ} where
  -- `findUnique` by id.
  abbrev pub row_at : ℕ → List Row → Option Row
  row_at i [] = none
  row_at zero (r ∷ rs) = some r
  row_at (suc i) (r ∷ rs) = row_at i rs

  -- `update` by id: the row is replaced.
  abbrev pub put_at : ℕ → Row → List Row → List Row
  put_at i new [] = []
  put_at zero new (r ∷ rs) = new ∷ rs
  put_at (suc i) new (r ∷ rs) = r ∷ put_at i new rs

  pub row_at-put_at :
      (i : ℕ) (new : Row) (rs : List Row) {r : Row}
      → row_at i rs ≡ some r
      → row_at i (put_at i new rs) ≡ some new
  row_at-put_at i new [] h = cc
  row_at-put_at zero new (r ∷ rs) h = refl
  row_at-put_at (suc i) new (r ∷ rs) h = row_at-put_at i new rs h

pub row_at-All {ℓ κ} :
    {Row : Type ℓ} (P : Row → Type κ) (i : ℕ) (rs : List Row) {r : Row}
    → All P rs
    → row_at i rs ≡ some r
    → P r
row_at-All P i [] all h = cc
row_at-All P zero (x ∷ rs) {r} all h = let same : x ≡ r = cc h in rw (← same) all.0
row_at-All P (suc i) (x ∷ rs) all h = row_at-All P i rs all.1 h

pub put_at-All {ℓ κ} :
    {Row : Type ℓ} (P : Row → Type κ) (i : ℕ) (new : Row) (rs : List Row)
    → All P rs
    → P new
    → All P (put_at i new rs)
put_at-All P i new [] all p = tt
put_at-All P zero new (x ∷ rs) all p = (p, all.1)
put_at-All P (suc i) new (x ∷ rs) all p = (all.0, put_at-All P i new rs all.1 p)

module _ {ℓ} {Row : Type ℓ} where
  -- `update` by id: some fields of the row are changed.
  abbrev pub alter_at : ℕ → (Row → Row) → List Row → List Row
  alter_at i change [] = []
  alter_at zero change (r ∷ rs) = change r ∷ rs
  alter_at (suc i) change (r ∷ rs) = r ∷ alter_at i change rs

  abbrev pub next_id : Option (ℕ × Row) → Option (ℕ × Row)
  next_id none = none
  next_id (some (i, r)) = some (suc i, r)

  -- `findFirst`: the first row that passes the test, with its id.
  unfoldable pub find_row : (ℕ → Row → Bool) → List Row → Option (ℕ × Row)
  find_row test [] = none
  find_row test (r ∷ rs) =
      let rest = next_id (find_row (λ i. test (suc i)) rs) in if test 0 r then some (0, r) else rest

  abbrev pub later : (Row → ℕ) → ℕ × Row → Option (ℕ × Row) → Option (ℕ × Row)
  later at r none = some r
  later at r (some s) = if ltb (at s.1) (at r.1) then some r else some s

  -- `findFirst` in descending order of a time.
  unfoldable pub find_latest : (Row → ℕ) → (Row → Bool) → List Row → Option (ℕ × Row)
  find_latest at test [] = none
  find_latest at test (r ∷ rs) =
      let rest = next_id (find_latest at test rs) in if test r then later at (0, r) rest else rest

module _ {ℓ} {Row : Type ℓ} where
  -- A row of a table is one of the first `length` rows, and appending keeps it.
  pub row_at-bound : (k : ℕ) (rs : List Row) (r : Row) → row_at k rs ≡ some r → k < length rs
  row_at-bound k [] r h = cc
  row_at-bound zero (x ∷ rs) r h = omega arith
  row_at-bound (suc k) (x ∷ rs) r h = omega (arith, row_at-bound k rs r h)

  pub row_at-append :
      (k : ℕ) (rs more : List Row) (r : Row) → row_at k rs ≡ some r → row_at k (rs ++ more) ≡ some r
  row_at-append k [] more r h = cc
  row_at-append zero (x ∷ rs) more r h = h
  row_at-append (suc k) (x ∷ rs) more r h = row_at-append k rs more r h

  -- The rows of a longer table, when one is appended.
  pub row_at-snoc :
      (k : ℕ) (rs : List Row) (new r : Row)
      → row_at k (rs ++ new ∷ []) ≡ some r
      → (row_at k rs ≡ some r) ⊎ ((k ≡ length rs) × (new ≡ r))
  row_at-snoc zero [] new r h = inr (refl, cc h)
  row_at-snoc (suc k) [] new r h = cc
  row_at-snoc zero (x ∷ rs) new r h = inl h
  row_at-snoc (suc k) (x ∷ rs) new r h = elim (row_at-snoc k rs new r h) [
    | inl e ↦ inl e
    | inr (e, same) ↦ inr (ap suc e, same)
  ]

  pub row_at-alter_other :
      (i : ℕ) (change : Row → Row) (rs : List Row) (k : ℕ)
      → k < i
      → row_at k (alter_at i change rs) ≡ row_at k rs
  row_at-alter_other i change [] k h = refl
  row_at-alter_other zero change (x ∷ rs) k h = absurd (omega (arith, h))
  row_at-alter_other (suc i) change (x ∷ rs) zero h = refl
  row_at-alter_other (suc i) change (x ∷ rs) (suc k) h =
      row_at-alter_other i change rs k (omega arith)

  pub row_at-alter_at :
      (i : ℕ) (change : Row → Row) (rs : List Row) (r : Row)
      → row_at i rs ≡ some r
      → row_at i (alter_at i change rs) ≡ some (change r)
  row_at-alter_at i change [] r h = cc
  row_at-alter_at zero change (x ∷ rs) r h = let same : x ≡ r = cc h in rw same refl
  row_at-alter_at (suc i) change (x ∷ rs) r h = row_at-alter_at i change rs r h
