-- ===== src/Base/Sums.antt =====
-- The sum of an integer measure over a list.
use mathlib.Core.Path.{◌≡◌}
use mathlib.Core.List.{List, [], ◌∷◌, ◌++◌}
use ticketflow_kenya.Base.Int.{ℤ, pos, ◌+ℤ◌, int_laws}

module _ {ℓ} {A : Type ℓ} where
  abbrev pub sum_of : (A → ℤ) → List A → ℤ
  sum_of f [] = pos 0
  sum_of f (x ∷ xs) = f x +ℤ sum_of f xs

  pub sum_of-append :
      (f : A → ℤ) (xs ys : List A) → sum_of f (xs ++ ys) ≡ sum_of f xs +ℤ sum_of f ys
  sum_of-append f [] ys = omega int_laws
  sum_of-append f (x ∷ xs) ys = rw (sum_of-append f xs ys) (omega int_laws)

  pub sum_of-snoc : (f : A → ℤ) (xs : List A) (y : A) → sum_of f (xs ++ y ∷ []) ≡ sum_of f xs +ℤ f y
  sum_of-snoc f [] y = omega int_laws
  sum_of-snoc f (x ∷ xs) y = rw (sum_of-snoc f xs y) (omega int_laws)
