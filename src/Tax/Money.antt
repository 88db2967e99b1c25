-- ===== src/Tax/Money.antt =====
-- Exact money arithmetic: backend/src/tax/domain/money/money.ts. A `bigint` is an integer ℤ; a
-- rate in basis points is a natural number (the DTOs of the rates demand an integer of at least 0).
pub mod Rounding
pub mod Vat
mod Tests
use ticketflow_kenya.Base.{
  ℕ, ◌+◌, ◌*◌, ◌/◌, ◌%◌, Bool, true, false, List, [], ◌∷◌, ok, err, ◌>>=◌, leb, ◌==◌, if◌then◌else◌,
  differ,
}
use ticketflow_kenya.Base.Int.{ℤ, pos, ◌+ℤ◌, ◌-ℤ◌, ◌*ℤ◌, -ℤ◌, abs_ℕ, neg_ℕ, ltb_ℤ}
use ticketflow_kenya.Tax.Errors.{Checked, currency_mismatch, division_by_zero}

pub data CurrencyCode : Type 0 where
  kes : CurrencyCode

pub record Money : Type 0 where
  pub currency : CurrencyCode
  pub minor_units : ℤ

pub data RoundingMode : Type 0 where
  half_up down : RoundingMode

abbrev pub bps_denominator : ℕ
bps_denominator = 10_000

-- `money(minorUnits, currency)`, with the arguments in the source's order.
abbrev pub money : ℤ → CurrencyCode → Money
money n c = record { currency = c; minor_units = n }

abbrev pub zero_kes : Money
zero_kes = money (pos 0) kes

abbrev pub currency_eq : CurrencyCode → CurrencyCode → Bool
currency_eq kes kes = true

unfoldable pub assert_same_currency : Money → Money → Checked (Unit {0})
assert_same_currency a b =
    if currency_eq a.currency b.currency then ok tt else err currency_mismatch

-- The assertion of `addMoney` and `subMoney` cannot throw, as `CurrencyCode` has one value.
abbrev pub add_money : Money → Money → Money
add_money a b = money (a.minor_units +ℤ b.minor_units) a.currency

abbrev pub sub_money : Money → Money → Money
sub_money a b = money (a.minor_units -ℤ b.minor_units) a.currency

-- The `reduce` of `sumMoney`, from an accumulator.
unfoldable pub sum_from : Money → List Money → Money
sum_from acc [] = acc
sum_from acc (m ∷ ms) = sum_from (add_money acc m) ms

abbrev pub sum_money : List Money → CurrencyCode → Money
sum_money items currency = sum_from (money (pos 0) currency) items

abbrev pub negate_money : Money → Money
negate_money a = money (-ℤ◌ a.minor_units) a.currency

abbrev pub is_negative : Money → Bool
is_negative a = ltb_ℤ a.minor_units (pos 0)

abbrev pub multiply_money_by_int : Money → ℤ → Money
multiply_money_by_int a factor = money (a.minor_units *ℤ factor) a.currency

-- The `switch` on the mode, over the absolute values.
unfoldable pub rounded_abs : RoundingMode → ℕ → ℕ → ℕ
rounded_abs down n d = n / d
rounded_abs half_up n d = if leb d (n % d * 2) then n / d + 1 else n / d

-- The absolute value with the sign put back.
abbrev pub signed : Bool → ℕ → ℤ
signed true n = neg_ℕ n
signed false n = pos n

unfoldable pub divide_big_int_with_rounding : ℤ → ℤ → RoundingMode → Checked ℤ
divide_big_int_with_rounding numerator denominator mode =
    if abs_ℕ denominator == 0
    then err division_by_zero
    else ok (
        signed (differ (ltb_ℤ numerator (pos 0)) (ltb_ℤ denominator (pos 0)))
          (rounded_abs mode (abs_ℕ numerator) (abs_ℕ denominator)))

unfoldable pub percentage_of_minor : ℤ → ℕ → RoundingMode → Checked ℤ
percentage_of_minor amount rate mode =
    divide_big_int_with_rounding (amount *ℤ pos rate) (pos bps_denominator) mode

unfoldable pub percentage_of_money : Money → ℕ → RoundingMode → Checked Money
percentage_of_money a rate mode = do
  minor ← percentage_of_minor a.minor_units rate mode
  ok (money minor a.currency)

-- The result `{ netMinor, vatMinor }` of `extractVatFromInclusive`.
pub record InclusiveSplit : Type 0 where
  pub net_minor : ℤ
  pub vat_minor : ℤ

unfoldable pub extract_vat_from_inclusive : ℤ → ℕ → RoundingMode → Checked InclusiveSplit
extract_vat_from_inclusive gross rate mode = do
  net ←
      divide_big_int_with_rounding (gross *ℤ pos bps_denominator) (pos bps_denominator +ℤ pos rate)
        mode
  ok (record { net_minor = net; vat_minor = gross -ℤ net })

-- The result `{ grossMinor, vatMinor }` of `addVatToExclusive`.
pub record ExclusiveSum : Type 0 where
  pub gross_minor : ℤ
  pub vat_minor : ℤ

unfoldable pub add_vat_to_exclusive : ℤ → ℕ → RoundingMode → Checked ExclusiveSum
add_vat_to_exclusive net rate mode = do
  vat ← percentage_of_minor net rate mode
  ok (record { gross_minor = net +ℤ vat; vat_minor = vat })
