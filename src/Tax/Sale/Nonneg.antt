-- ===== src/Tax/Sale/Nonneg.antt =====
-- The signs of the amounts that a sale calculation computes.
use ticketflow_kenya.Base.{List, [], ◌∷◌, Option, none, some, arith, All, inl, inr, Bool-cases}
use ticketflow_kenya.Base.Int.{ℤ, pos, negsuc, ◌*ℤ◌, ◌≤ℤ◌, int_laws}
use ticketflow_kenya.Tax.Money.{Money, money}
use ticketflow_kenya.Tax.Money.Vat.{vat_of-nonneg}
use ticketflow_kenya.Tax.Types.{FeeCalculation, fixed, percentage, is_registered}
use ticketflow_kenya.Tax.Fees.Split.{IsNonneg, split_of-IsNonneg, fee_of-IsNonneg, amount_of}
use ticketflow_kenya.Tax.Sale.{
  ServiceFee, TicketSaleLineInput, CalculateTicketSaleTaxInput, TicketSaleTaxRates,
}
use ticketflow_kenya.Tax.Sale.Lines.{
  TicketTotals, no_totals, or_else, listed_price, is_charged, add_charged, add_uncharged,
}
use ticketflow_kenya.Tax.Sale.Closed.{
  next_totals, all_totals, fee_result, order_totals, order_booking, order_commission,
}

abbrev pub IsNonnegMoney : Money → Type 0
IsNonnegMoney m = pos 0 ≤ℤ m.minor_units

abbrev pub IsNonnegLine : TicketSaleLineInput → Type 0
IsNonnegLine line = IsNonnegMoney line.unit_ticket_price × (pos 0 ≤ℤ line.quantity)

-- A fixed fee is not negative; a percentage never is.
abbrev pub IsNonnegCalculation : FeeCalculation → Type 0
IsNonnegCalculation (fixed amount) = IsNonnegMoney amount
IsNonnegCalculation (percentage rate) = Unit

abbrev pub IsNonnegFee : Option ServiceFee → Type 0
IsNonnegFee none = Unit
IsNonnegFee (some fee) = IsNonnegCalculation fee.calculation

abbrev pub IsNonnegCharge : Option Money → Type 0
IsNonnegCharge none = Unit
IsNonnegCharge (some m) = IsNonnegMoney m

-- Prices, quantities, fixed fees and the processor's charge of an input are not negative.
pub record IsNonnegInput (input : CalculateTicketSaleTaxInput) : Type 0 where
  pub lines : All IsNonnegLine input.ticket_lines
  pub booking : IsNonnegFee input.customer_booking_fee
  pub commission : IsNonnegFee input.organizer_commission
  pub charge : IsNonnegCharge input.processor_charge

product_nonneg : (a b : ℤ) → pos 0 ≤ℤ a → pos 0 ≤ℤ b → pos 0 ≤ℤ a *ℤ b
unfolding ◌*ℤ◌
product_nonneg (pos a) (pos b) h k = ground arith
product_nonneg (negsuc a) b h k = absurd (omega arith)
product_nonneg (pos a) (negsuc b) h k = absurd (omega arith)

-- The face value and the proceeds so far are not negative.
abbrev pub TotalsNonneg : TicketTotals → Type 0
TotalsNonneg t =
    IsNonnegMoney t.ticket_face_value_gross × IsNonnegMoney t.organizer_ticket_proceeds_gross

next_totals-nonneg :
    (input : CalculateTicketSaleTaxInput) (rates : TicketSaleTaxRates) (t : TicketTotals)
    (line : TicketSaleLineInput)
    → IsNonnegLine line
    → TotalsNonneg t
    → TotalsNonneg (next_totals input rates t line)
unfolding next_totals add_charged add_uncharged
next_totals-nonneg input rates t line (price, quantity) h =
    let listed = product_nonneg _ _ price quantity in
    elim (Bool-cases (is_charged input line)) [
      | inl charged ↦ rw charged (
          omega (
            int_laws,
            h,
            listed,
            (split_of-IsNonneg (listed_price line) line.ticket_pricing_mode
                rates.organizer_vat_rate_bps rates.organizer_rounding_mode listed).gross_nonneg,
          ))
      | inr uncharged ↦ rw uncharged (omega (int_laws, h, listed))
    ]

all_totals-nonneg :
    (input : CalculateTicketSaleTaxInput) (rates : TicketSaleTaxRates) (t : TicketTotals)
    (lines : List TicketSaleLineInput)
    → All IsNonnegLine lines
    → TotalsNonneg t
    → TotalsNonneg (all_totals input rates t lines)
unfolding all_totals
all_totals-nonneg input rates t [] hs h = h
all_totals-nonneg input rates t (line ∷ lines) (k, hs) h =
    all_totals-nonneg input rates (next_totals input rates t line) lines hs
      (next_totals-nonneg input rates t line k h)

fee_result-IsNonneg :
    (input : CalculateTicketSaleTaxInput) (rates : TicketSaleTaxRates) (face : Money)
    (fee : Option ServiceFee)
    → IsNonnegMoney face
    → IsNonnegFee fee
    → IsNonneg (fee_result input rates face fee)
unfolding fee_result
fee_result-IsNonneg input rates face none h k = omega arith
fee_result-IsNonneg input rates face (some fee) h k =
    fee_of-IsNonneg (amount_of fee.calculation face rates.ticket_flow_rounding_mode)
      fee.pricing_mode (is_registered input.ticket_flow_vat_registration_status)
      rates.ticket_flow_vat_rate_bps rates.ticket_flow_rounding_mode
      (amount_nonneg fee.calculation k)
  where
    amount_nonneg :
        (c : FeeCalculation)
        → IsNonnegCalculation c
        → IsNonnegMoney (amount_of c face rates.ticket_flow_rounding_mode)
    amount_nonneg (fixed amount) k' = k'
    amount_nonneg (percentage rate) k' = vat_of-nonneg face.minor_units rate _ h

module _ (input : CalculateTicketSaleTaxInput) (rates : TicketSaleTaxRates)
    (valid : IsNonnegInput input) where
  pub order_totals-nonneg : TotalsNonneg (order_totals input rates)
  unfolding order_totals
  order_totals-nonneg =
      all_totals-nonneg input rates (no_totals input.currency) input.ticket_lines valid.lines
        (omega arith)

  pub order_booking-IsNonneg : IsNonneg (order_booking input rates)
  order_booking-IsNonneg =
      fee_result-IsNonneg input rates _ input.customer_booking_fee order_totals-nonneg.0
        valid.booking

  pub order_commission-IsNonneg : IsNonneg (order_commission input rates)
  order_commission-IsNonneg =
      fee_result-IsNonneg input rates _ input.organizer_commission order_totals-nonneg.0
        valid.commission

  pub charge-nonneg : IsNonnegMoney (or_else input.processor_charge (money (pos 0) input.currency))
  charge-nonneg = nonneg input.processor_charge valid.charge
    where
      nonneg :
          (m : Option Money)
          → IsNonnegCharge m
          → IsNonnegMoney (or_else m (money (pos 0) input.currency))
      nonneg none h = omega arith
      nonneg (some m) h = h
