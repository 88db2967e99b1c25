-- ===== src/Tax/Money/Rounding.antt =====
-- Division with rounding: how far the result lies from the exact quotient, and its sign.
use ticketflow_kenya.Base.{
  ℕ, zero, suc, ◌+◌, ◌-◌, ◌*◌, ◌≤◌, ◌<◌, ◌≡◌, sym, ◌⊎◌, ap, ◌∙◌, Bool, differ, true, false, ok,
  arith,
}
use ticketflow_kenya.Base.Int.{
  ℤ, pos, negsuc, ◌-ℤ◌, ◌*ℤ◌, -ℤ◌, abs_ℕ, neg_ℕ, pos-*, negsuc-*, ltb_ℤ,
}
use ticketflow_kenya.Tax.Money.{
  RoundingMode, signed, half_up, down, rounded_abs, divide_big_int_with_rounding,
}

-- On absolute values: the nearest integer, a tie going up.
pub rounded_abs_nearest :
    (n d : ℕ)
    → 0 < d
    → (2 * n < 2 * (rounded_abs half_up n d * d) + d)
      × (2 * (rounded_abs half_up n d * d) ≤ 2 * n + d)
unfolding rounded_abs
rounded_abs_nearest n d h = grind arith

pub rounded_abs_down :
    (n d : ℕ) → 0 < d → (rounded_abs down n d * d ≤ n) × (n < rounded_abs down n d * d + d)
unfolding rounded_abs
rounded_abs_down n d h = grind arith

abbrev pub is_neg : ℤ → Bool
is_neg n = ltb_ℤ n (pos 0)

pub signed-abs : (n : ℤ) → signed (is_neg n) (abs_ℕ n) ≡ n
signed-abs n = ground arith

is_neg-pos : (n : ℕ) → is_neg (pos n) ≡ false
is_neg-pos n = ground arith

is_neg-negsuc : (n : ℕ) → is_neg (negsuc n) ≡ true
is_neg-negsuc n = ground arith

-- The sign of a product, for a factor with the sign of a quotient.
signed-* : (s t : Bool) (r m : ℕ) → signed (differ s t) r *ℤ signed t m ≡ signed s (r * m)
unfolding ◌*ℤ◌
signed-* true true zero m = ground arith
signed-* true true (suc r) zero = ground arith
signed-* true true (suc r) (suc m) = grind arith
signed-* true false zero m = ground arith
signed-* true false (suc r) m = grind arith
signed-* false true zero m = ground arith
signed-* false true (suc r) zero = ground arith
signed-* false true (suc r) (suc m) = grind arith
signed-* false false r m = grind arith

distance_signed : (s : Bool) (x y : ℕ) → abs_ℕ (signed s x -ℤ signed s y) ≡ x - y + (y - x)
unfolding ◌-ℤ◌
distance_signed s x y = ground arith

pub abs-signed : (s : Bool) (x : ℕ) → abs_ℕ (signed s x) ≡ x
abs-signed s x = ground arith

-- A quotient times its denominator has the sign of the numerator.
quotient-* :
    (n d : ℤ) (r : ℕ)
    → signed (differ (is_neg n) (is_neg d)) r *ℤ d ≡ signed (is_neg n) (r * abs_ℕ d)
quotient-* n d r =
    ap (λ e. signed (differ (is_neg n) (is_neg d)) r *ℤ e) (sym (signed-abs d))
    ∙ signed-* (is_neg n) (is_neg d) r (abs_ℕ d)

-- What a successful division returns, and that its denominator is not 0.
pub divide-eq-ok :
    (n d q : ℤ) (mode : RoundingMode)
    → divide_big_int_with_rounding n d mode ≡ ok q
    → (0 < abs_ℕ d)
      × (q ≡ signed (differ (is_neg n) (is_neg d)) (rounded_abs mode (abs_ℕ n) (abs_ℕ d)))
unfolding divide_big_int_with_rounding
divide-eq-ok n d q mode h = ground arith

-- The distance of a quotient from the exact value, scaled by the denominator.
distance_quotient :
    (n d : ℤ) (r : ℕ)
    → abs_ℕ (signed (differ (is_neg n) (is_neg d)) r *ℤ d -ℤ n)
      ≡ r * abs_ℕ d - abs_ℕ n + (abs_ℕ n - r * abs_ℕ d)
distance_quotient n d r =
    ap (λ e. abs_ℕ (e -ℤ n)) (quotient-* n d r)
    ∙ ap (λ e. abs_ℕ (signed (is_neg n) (r * abs_ℕ d) -ℤ e)) (sym (signed-abs n))
    ∙ distance_signed (is_neg n) (r * abs_ℕ d) (abs_ℕ n)

-- HALF_UP returns, for any signs of numerator and denominator, an integer nearest to the exact
-- quotient, and of two equally near the one farther from zero.
pub divide_half_up_nearest :
    (n d q : ℤ)
    → divide_big_int_with_rounding n d half_up ≡ ok q
    → (2 * abs_ℕ (q *ℤ d -ℤ n) < abs_ℕ d)
      ⊎ ((2 * abs_ℕ (q *ℤ d -ℤ n) ≡ abs_ℕ d) × (abs_ℕ n ≤ abs_ℕ (q *ℤ d)))
divide_half_up_nearest n d q h =
    let (p, e) = divide-eq-ok n d q half_up h in
    rw e (
      rw
        (
          distance_quotient n d (rounded_abs half_up (abs_ℕ n) (abs_ℕ d)),
          quotient-* n d (rounded_abs half_up (abs_ℕ n) (abs_ℕ d)),
          abs-signed,
        )
        (omega (arith, rounded_abs_nearest (abs_ℕ n) (abs_ℕ d) p)))

-- DOWN truncates toward zero: less than one unit is dropped, and never past the exact quotient.
pub divide_down_truncates :
    (n d q : ℤ)
    → divide_big_int_with_rounding n d down ≡ ok q
    → (abs_ℕ (q *ℤ d) ≤ abs_ℕ n) × (abs_ℕ (q *ℤ d -ℤ n) < abs_ℕ d)
divide_down_truncates n d q h =
    let (p, e) = divide-eq-ok n d q down h in
    rw e (
      rw
        (
          distance_quotient n d (rounded_abs down (abs_ℕ n) (abs_ℕ d)),
          quotient-* n d (rounded_abs down (abs_ℕ n) (abs_ℕ d)),
          abs-signed,
        )
        (omega (arith, rounded_abs_down (abs_ℕ n) (abs_ℕ d) p)))

-- `divideBigIntWithRounding` of a multiple by a positive denominator: the sign is the multiplicand's.
rounded_abs-zero : (mode : RoundingMode) (d : ℕ) → rounded_abs mode 0 (suc d) ≡ 0
unfolding rounded_abs
rounded_abs-zero half_up d = ground arith
rounded_abs-zero down d = ground arith

divide-pos :
    (x d : ℕ) (mode : RoundingMode)
    → divide_big_int_with_rounding (pos x) (pos (suc d)) mode
      ≡ ok (pos (rounded_abs mode x (suc d)))
unfolding divide_big_int_with_rounding
divide-pos x d mode = ground arith

divide-neg_ℕ :
    (x d : ℕ) (mode : RoundingMode)
    → divide_big_int_with_rounding (neg_ℕ x) (pos (suc d)) mode
      ≡ ok (neg_ℕ (rounded_abs mode x (suc d)))
unfolding divide_big_int_with_rounding
divide-neg_ℕ zero d mode = ground (arith, rounded_abs-zero mode d)
divide-neg_ℕ (suc x) d mode = ground arith

pub divide-multiple :
    (n : ℤ) (k d : ℕ) (mode : RoundingMode)
    → divide_big_int_with_rounding (n *ℤ pos k) (pos (suc d)) mode
      ≡ ok (signed (is_neg n) (rounded_abs mode (abs_ℕ n * k) (suc d)))
divide-multiple (pos a) k d mode = rw (pos-* a k, is_neg-pos) (divide-pos (a * k) d mode)
divide-multiple (negsuc a) k d mode =
    rw (negsuc-* a k, is_neg-negsuc) (divide-neg_ℕ (suc a * k) d mode)
