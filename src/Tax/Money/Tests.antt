-- ===== src/Tax/Money/Tests.antt =====
-- Runs of the functions of backend/src/tax/domain/money/money.ts on concrete amounts.
use ticketflow_kenya.Base.{◌≡◌, refl, ◌+◌, ◌*◌, ◌<◌, ◌≤◌, ◌⊎◌, ok, err}
use ticketflow_kenya.Base.Int.{pos, neg_ℕ, ◌+ℤ◌, ◌-ℤ◌, ◌*ℤ◌, abs_ℕ}
use ticketflow_kenya.Tax.Errors.{division_by_zero}
use ticketflow_kenya.Tax.Money.{
  half_up, down, signed, rounded_abs, divide_big_int_with_rounding, ExclusiveSum, InclusiveSplit,
  add_vat_to_exclusive, extract_vat_from_inclusive,
}
use ticketflow_kenya.Tax.Money.Rounding.{is_neg, divide_half_up_nearest, divide_down_truncates}
use ticketflow_kenya.Tax.Money.Vat.{extract-add_vat, extract_vat_nearest}

half_up_7_2 : divide_big_int_with_rounding (neg_ℕ 7) (pos 2) half_up ≡ ok (neg_ℕ 4)
unfolding divide_big_int_with_rounding rounded_abs
half_up_7_2 = refl

down_7_2 : divide_big_int_with_rounding (neg_ℕ 7) (pos 2) down ≡ ok (neg_ℕ 3)
unfolding divide_big_int_with_rounding rounded_abs
down_7_2 = refl

by_zero : divide_big_int_with_rounding (pos 1) (pos 0) down ≡ err division_by_zero
unfolding divide_big_int_with_rounding
by_zero = refl

divide_half_up_nearest_example :
    (2 * abs_ℕ (neg_ℕ 4 *ℤ pos 2 -ℤ neg_ℕ 7) < abs_ℕ (pos 2))
    ⊎ ((2 * abs_ℕ (neg_ℕ 4 *ℤ pos 2 -ℤ neg_ℕ 7) ≡ abs_ℕ (pos 2))
        × (abs_ℕ (neg_ℕ 7) ≤ abs_ℕ (neg_ℕ 4 *ℤ pos 2)))
divide_half_up_nearest_example = divide_half_up_nearest (neg_ℕ 7) (pos 2) (neg_ℕ 4) half_up_7_2

divide_down_truncates_example :
    (abs_ℕ (neg_ℕ 3 *ℤ pos 2) ≤ abs_ℕ (neg_ℕ 7))
    × (abs_ℕ (neg_ℕ 3 *ℤ pos 2 -ℤ neg_ℕ 7) < abs_ℕ (pos 2))
divide_down_truncates_example = divide_down_truncates (neg_ℕ 7) (pos 2) (neg_ℕ 3) down_7_2

extract-add_vat_example :
    (sum : ExclusiveSum) × (add_vat_to_exclusive (pos 999) 1_600 half_up ≡ ok sum)
    × (sum.gross_minor ≡ pos 999 +ℤ sum.vat_minor)
    × (extract_vat_from_inclusive sum.gross_minor 1_600 half_up
        ≡ ok (record { net_minor = pos 999; vat_minor = sum.vat_minor }))
extract-add_vat_example = extract-add_vat (pos 999) 1_600

extract_vat_nearest_example :
    (split : InclusiveSplit) × (extract_vat_from_inclusive (neg_ℕ 999) 1_600 half_up ≡ ok split)
    × (split.net_minor ≡ signed (is_neg (neg_ℕ 999)) (abs_ℕ split.net_minor))
    × (2 * (abs_ℕ (neg_ℕ 999) * 10_000)
        < 2 * (abs_ℕ split.net_minor * (10_000 + 1_600)) + (10_000 + 1_600))
    × (2 * (abs_ℕ split.net_minor * (10_000 + 1_600))
        ≤ 2 * (abs_ℕ (neg_ℕ 999) * 10_000) + (10_000 + 1_600))
    × (abs_ℕ split.net_minor ≤ abs_ℕ (neg_ℕ 999))
    × (split.net_minor +ℤ split.vat_minor ≡ neg_ℕ 999)
extract_vat_nearest_example = extract_vat_nearest (neg_ℕ 999) 1_600
