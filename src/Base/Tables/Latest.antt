-- ===== src/Base/Tables/Latest.antt =====
-- What `findFirst` finds.
use Prim.Native.Nat.{ℕ, zero, suc}
use mathlib.Core.Path.{◌≡◌, refl}
use mathlib.Core.Logic.{inl, inr}
use mathlib.Core.Bool.{Bool, true, false}
use mathlib.Core.Option.{Option, none, some}
use mathlib.Core.List.{List, [], ◌∷◌}
use native.Mathlib.Omega.{arith}
use ticketflow_kenya.Base.Tests.{ltb, Bool-cases}
use ticketflow_kenya.Base.Tables.{row_at, next_id, later, find_row, find_latest}

module _ {ℓ} {Row : Type ℓ} where
  -- What `find_latest` finds is a row that passes the test; when it finds none, no row does.
  pub find_latest-some :
      (at : Row → ℕ) (test : Row → Bool) (rs : List Row) (i : ℕ) (r : Row)
      → find_latest at test rs ≡ some (i, r)
      → (row_at i rs ≡ some r) × (test r ≡ true)
  unfolding find_latest
  find_latest-some at test [] i r h = cc
  find_latest-some at test (x ∷ rs) i r h = elim (Bool-cases (test x)) [
    | inl e ↦ taken (find_latest-some at test rs) e (find_latest at test rs) refl (rw e at h)
    | inr e ↦ passed (find_latest-some at test rs) (find_latest at test rs) refl (rw e at h)
  ]
    where
      passed :
          ((j : ℕ) (s : Row)
            → find_latest at test rs ≡ some (j, s)
            → (row_at j rs ≡ some s) × (test s ≡ true))
          → (o : Option (ℕ × Row)) → find_latest at test rs ≡ o
          → next_id o ≡ some (i, r)
          → (row_at i (x ∷ rs) ≡ some r) × (test r ≡ true)
      passed before none e h = cc
      passed before (some (j, s)) e h =
          let index : suc j ≡ i = cc h in
          let row : s ≡ r = cc h in rw (← index, ← row) (before j s e)

      taken :
          ((j : ℕ) (s : Row)
            → find_latest at test rs ≡ some (j, s)
            → (row_at j rs ≡ some s) × (test s ≡ true))
          → test x ≡ true
          → (o : Option (ℕ × Row)) → find_latest at test rs ≡ o
          → later at (0, x) (next_id o) ≡ some (i, r)
          → (row_at i (x ∷ rs) ≡ some r) × (test r ≡ true)
      taken before t none e h =
          let index : 0 ≡ i = cc h in let row : x ≡ r = cc h in rw (← index, ← row) (refl, t)
      taken before t (some (j, s)) e h = elim (Bool-cases (ltb (at s) (at x))) [
        | inl older ↦
            let first : some (0, x) ≡ some (i, r) = rw older at h in
            let index : 0 ≡ i = cc first in
            let row : x ≡ r = cc first in rw (← index, ← row) (refl, t)
        | inr newer ↦ passed before (some (j, s)) e (rw newer at h)
      ]

  pub find_latest-none :
      (at : Row → ℕ) (test : Row → Bool) (rs : List Row)
      → find_latest at test rs ≡ none
      → (i : ℕ) (r : Row) → row_at i rs ≡ some r
      → test r ≡ false
  unfolding find_latest
  find_latest-none at test [] h i r here = cc
  find_latest-none at test (x ∷ rs) h i r here = elim (Bool-cases (test x)) [
    | inl e ↦ absurd (never (next_id (find_latest at test rs)) (rw e at h))
    | inr e ↦
        by_id (find_latest-none at test rs) i e (unchanged (find_latest at test rs) (rw e at h))
          here
  ]
    where
      never : (o : Option (ℕ × Row)) → later at (0, x) o ≡ none → ⊥
      never none h = cc
      never (some s) h = ground arith

      unchanged : (o : Option (ℕ × Row)) → next_id o ≡ none → o ≡ none
      unchanged none h = refl
      unchanged (some s) h = cc

      by_id :
          (find_latest at test rs ≡ none
            → (i : ℕ) (r : Row) → row_at i rs ≡ some r
            → test r ≡ false)
          → (i : ℕ) → test x ≡ false
          → find_latest at test rs ≡ none
          → row_at i (x ∷ rs) ≡ some r
          → test r ≡ false
      by_id before zero e h here = let row : x ≡ r = cc here in rw (← row) e
      by_id before (suc i) e h here = before h i r here

module _ {ℓ} {Row : Type ℓ} where
  -- When `find_row` finds none, no row passes the test.
  pub find_row-none :
      (test : ℕ → Row → Bool) (rs : List Row)
      → find_row test rs ≡ none
      → (i : ℕ) (r : Row) → row_at i rs ≡ some r
      → test i r ≡ false
  unfolding find_row
  find_row-none test [] h i r here = cc
  find_row-none test (x ∷ rs) h i r here = elim (Bool-cases (test 0 x)) [
    | inl e ↦ cc (rw e at h)
    | inr e ↦
        by_id (find_row-none (λ j. test (suc j)) rs) i e
          (unchanged (find_row (λ j. test (suc j)) rs) (rw e at h)) here
  ]
    where
      unchanged : (o : Option (ℕ × Row)) → next_id o ≡ none → o ≡ none
      unchanged none h = refl
      unchanged (some s) h = cc

      by_id :
          (find_row (λ j. test (suc j)) rs ≡ none
            → (j : ℕ) (s : Row) → row_at j rs ≡ some s
            → test (suc j) s ≡ false)
          → (i : ℕ) → test 0 x ≡ false
          → find_row (λ j. test (suc j)) rs ≡ none
          → row_at i (x ∷ rs) ≡ some r
          → test i r ≡ false
      by_id before zero e h here = let row : x ≡ r = cc here in rw (← row) e
      by_id before (suc i) e h here = before h i r here

module _ {ℓ} {Row : Type ℓ} where
  -- What `find_row` finds is a row of the table.
  pub find_row-some :
      (test : ℕ → Row → Bool) (rs : List Row) (i : ℕ) (r : Row)
      → find_row test rs ≡ some (i, r)
      → row_at i rs ≡ some r
  unfolding find_row
  find_row-some test [] i r h = cc
  find_row-some test (x ∷ rs) i r h = elim (Bool-cases (test 0 x)) [
    | inl e ↦
        let first : some (0, x) ≡ some (i, r) = rw e at h in
        let index : 0 ≡ i = cc first in let row : x ≡ r = cc first in rw (← index, ← row) refl
    | inr e ↦
        passed (find_row-some (λ j. test (suc j)) rs) (find_row (λ j. test (suc j)) rs) refl
          (rw e at h)
  ]
    where
      passed :
          ((j : ℕ) (s : Row) → find_row (λ j. test (suc j)) rs ≡ some (j, s) → row_at j rs ≡ some s)
          → (o : Option (ℕ × Row)) → find_row (λ j. test (suc j)) rs ≡ o
          → next_id o ≡ some (i, r)
          → row_at i (x ∷ rs) ≡ some r
      passed before none e h = cc
      passed before (some (j, s)) e h =
          let index : suc j ≡ i = cc h in
          let row : s ≡ r = cc h in rw (← index, ← row) (before j s e)
