-- ===== src/Tax/Fees/Split.antt =====
-- The split of an amount into net and VAT in closed form.
use ticketflow_kenya.Base.{ℕ, ◌≡◌, refl, Bool, true, false, ok, arith}
use ticketflow_kenya.Base.Int.{pos, ◌+ℤ◌, ◌-ℤ◌, ◌≤ℤ◌, int_laws}
use ticketflow_kenya.Tax.Money.{Money, money, RoundingMode, percentage_of_money}
use ticketflow_kenya.Tax.Money.Vat.{
  net_of, vat_of, extract-eq, add-eq, percentage-eq, net_of-bounds, vat_of-nonneg,
}
use ticketflow_kenya.Tax.Types.{
  FeeCalculation, fixed, percentage, TicketPricingMode, vat_inclusive, vat_exclusive,
}
use ticketflow_kenya.Tax.Fees.{FeeVatResult, resolve_fee_amount, split_by_mode, apply_fee_vat}

-- The net and the VAT add up to the gross.
abbrev pub IsExact : FeeVatResult → Type 0
IsExact r = r.net.minor_units +ℤ r.vat.minor_units ≡ r.gross.minor_units

-- None of the three amounts is negative.
pub record IsNonneg (r : FeeVatResult) : Type 0 where
  pub gross_nonneg : pos 0 ≤ℤ r.gross.minor_units
  pub net_nonneg : pos 0 ≤ℤ r.net.minor_units
  pub vat_nonneg : pos 0 ≤ℤ r.vat.minor_units

-- The result of `split_by_mode`, in closed form.
abbrev pub split_of : Money → TicketPricingMode → ℕ → RoundingMode → FeeVatResult
split_of a vat_inclusive rate rounding = record {
  gross = a;
  net = money (net_of a.minor_units rate rounding) a.currency;
  vat = money (a.minor_units -ℤ net_of a.minor_units rate rounding) a.currency;
}
split_of a vat_exclusive rate rounding = record {
  gross = money (a.minor_units +ℤ vat_of a.minor_units rate rounding) a.currency;
  net = a;
  vat = money (vat_of a.minor_units rate rounding) a.currency;
}

pub split_by_mode-eq :
    (a : Money) (m : TicketPricingMode) (rate : ℕ) (rounding : RoundingMode)
    → split_by_mode a m rate rounding ≡ ok (split_of a m rate rounding)
unfolding split_by_mode
split_by_mode-eq a vat_inclusive rate rounding = rw extract-eq
split_by_mode-eq a vat_exclusive rate rounding = rw add-eq

pub split_of-IsExact :
    (a : Money) (m : TicketPricingMode) (rate : ℕ) (rounding : RoundingMode)
    → IsExact (split_of a m rate rounding)
split_of-IsExact a vat_inclusive rate rounding = omega int_laws
split_of-IsExact a vat_exclusive rate rounding = omega int_laws

pub split_of-IsNonneg :
    (a : Money) (m : TicketPricingMode) (rate : ℕ) (rounding : RoundingMode)
    → pos 0 ≤ℤ a.minor_units
    → IsNonneg (split_of a m rate rounding)
split_of-IsNonneg a vat_inclusive rate rounding h =
    omega (int_laws, net_of-bounds a.minor_units rate rounding h)
split_of-IsNonneg a vat_exclusive rate rounding h =
    omega (int_laws, vat_of-nonneg a.minor_units rate rounding h)

-- The result of `apply_fee_vat`, in closed form.
abbrev pub fee_of : Money → TicketPricingMode → Bool → ℕ → RoundingMode → FeeVatResult
fee_of a m false rate rounding = record { gross = a; net = a; vat = money (pos 0) a.currency }
fee_of a m true rate rounding = split_of a m rate rounding

pub apply_fee_vat-eq :
    (a : Money) (m : TicketPricingMode) (reg : Bool) (rate : ℕ) (rounding : RoundingMode)
    → apply_fee_vat a m reg rate rounding ≡ ok (fee_of a m reg rate rounding)
unfolding apply_fee_vat
apply_fee_vat-eq a m false rate rounding = refl
apply_fee_vat-eq a m true rate rounding = split_by_mode-eq a m rate rounding

pub fee_of-IsExact :
    (a : Money) (m : TicketPricingMode) (reg : Bool) (rate : ℕ) (rounding : RoundingMode)
    → IsExact (fee_of a m reg rate rounding)
fee_of-IsExact a m false rate rounding = omega int_laws
fee_of-IsExact a m true rate rounding = split_of-IsExact a m rate rounding

pub fee_of-IsNonneg :
    (a : Money) (m : TicketPricingMode) (reg : Bool) (rate : ℕ) (rounding : RoundingMode)
    → pos 0 ≤ℤ a.minor_units
    → IsNonneg (fee_of a m reg rate rounding)
fee_of-IsNonneg a m false rate rounding h = omega arith
fee_of-IsNonneg a m true rate rounding h = split_of-IsNonneg a m rate rounding h

-- The amount of a fee, in closed form.
abbrev pub amount_of : FeeCalculation → Money → RoundingMode → Money
amount_of (fixed amount) base rounding = amount
amount_of (percentage rate) base rounding =
    money (vat_of base.minor_units rate rounding) base.currency

pub resolve_fee_amount-eq :
    (c : FeeCalculation) (base : Money) (rounding : RoundingMode)
    → resolve_fee_amount c base rounding ≡ ok (amount_of c base rounding)
unfolding resolve_fee_amount percentage_of_money
resolve_fee_amount-eq (fixed amount) base rounding = refl
resolve_fee_amount-eq (percentage rate) base rounding = rw percentage-eq
