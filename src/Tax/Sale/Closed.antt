-- ===== src/Tax/Sale/Closed.antt =====
-- The sale calculation in closed form, without the errors of its steps.
use ticketflow_kenya.Base.{
  ℕ, ◌≡◌, refl, List, [], ◌∷◌, ◌++◌, Option, none, some, ok, err, if◌then◌else◌, Bool-cases, inl,
  inr,
}
use ticketflow_kenya.Base.Int.{pos}
use ticketflow_kenya.Tax.Errors.{no_ticket_lines}
use ticketflow_kenya.Tax.Money.{Money, money, add_money}
use ticketflow_kenya.Tax.Types.{RecordId, is_registered}
use ticketflow_kenya.Tax.Fees.{FeeVatResult}
use ticketflow_kenya.Tax.Fees.Split.{
  split_of, split_by_mode-eq, fee_of, apply_fee_vat-eq, amount_of, resolve_fee_amount-eq,
}
use ticketflow_kenya.Tax.Sale.{
  TicketSaleLineInput, ServiceFee, CalculateTicketSaleTaxInput, TicketSaleTaxRates,
  TicketSaleTaxBase, TicketSaleTaxCalculation,
}
use ticketflow_kenya.Tax.Sale.Lines.{
  TicketTotals, no_totals, listed_price, is_charged, line_warnings, add_charged, add_uncharged,
  sale_line, sale_lines,
}
use ticketflow_kenya.Tax.Sale.Calculate.{charge_fee, sale_base, calculate_ticket_sale_tax, is_empty}

-- The split of a charged line.
abbrev pub line_split : TicketSaleTaxRates → TicketSaleLineInput → FeeVatResult
line_split rates line =
    split_of (listed_price line) line.ticket_pricing_mode rates.organizer_vat_rate_bps
      rates.organizer_rounding_mode

-- The totals with the listed price and the warnings of a line added.
abbrev pub noted : CalculateTicketSaleTaxInput → TicketTotals → TicketSaleLineInput → TicketTotals
noted input t line = record t {
  ticket_face_value_gross = add_money t.ticket_face_value_gross (listed_price line);
  warnings = t.warnings ++ line_warnings input line;
}

unfoldable pub next_totals :
    CalculateTicketSaleTaxInput
    → TicketSaleTaxRates
    → TicketTotals
    → TicketSaleLineInput
    → TicketTotals
next_totals input rates t line =
    if is_charged input line
    then add_charged rates line (noted input t line) (line_split rates line)
    else add_uncharged input line (noted input t line)

unfoldable pub all_totals :
    CalculateTicketSaleTaxInput
    → TicketSaleTaxRates
    → TicketTotals
    → List TicketSaleLineInput
    → TicketTotals
all_totals input rates t [] = t
all_totals input rates t (line ∷ lines) =
    all_totals input rates (next_totals input rates t line) lines

sale_line-eq :
    (input : CalculateTicketSaleTaxInput) (rates : TicketSaleTaxRates) (t : TicketTotals)
    (line : TicketSaleLineInput)
    → sale_line input rates t line ≡ ok (next_totals input rates t line)
unfolding sale_line next_totals
sale_line-eq input rates t line = elim (Bool-cases (is_charged input line)) [
  | inl charged ↦ rw (charged, split_by_mode-eq)
  | inr uncharged ↦ rw uncharged
]

sale_lines-eq :
    (input : CalculateTicketSaleTaxInput) (rates : TicketSaleTaxRates) (t : TicketTotals)
    (lines : List TicketSaleLineInput)
    → sale_lines input rates t lines ≡ ok (all_totals input rates t lines)
unfolding sale_lines all_totals
sale_lines-eq input rates t [] = refl
sale_lines-eq input rates t (line ∷ lines) =
    rw (sale_line-eq input rates t line)
      (sale_lines-eq input rates (next_totals input rates t line) lines)

-- The split of an optional fee.
unfoldable pub fee_result :
    CalculateTicketSaleTaxInput → TicketSaleTaxRates → Money → Option ServiceFee → FeeVatResult
fee_result input rates face none =
    let zero_money = money (pos 0) input.currency in
    record { gross = zero_money; net = zero_money; vat = zero_money }
fee_result input rates face (some fee) =
    fee_of (amount_of fee.calculation face rates.ticket_flow_rounding_mode) fee.pricing_mode
      (is_registered input.ticket_flow_vat_registration_status) rates.ticket_flow_vat_rate_bps
      rates.ticket_flow_rounding_mode

charge_fee-eq :
    (input : CalculateTicketSaleTaxInput) (rates : TicketSaleTaxRates) (face : Money)
    (fee : Option ServiceFee)
    → charge_fee input rates face fee ≡ ok (fee_result input rates face fee)
unfolding charge_fee fee_result
charge_fee-eq input rates face none = refl
charge_fee-eq input rates face (some fee) = rw (resolve_fee_amount-eq, apply_fee_vat-eq)

-- The totals of an order, its two fees, and the result without its hash.
unfoldable pub order_totals : CalculateTicketSaleTaxInput → TicketSaleTaxRates → TicketTotals
unfolding all_totals
order_totals input rates = all_totals input rates (no_totals input.currency) input.ticket_lines

abbrev pub order_booking : CalculateTicketSaleTaxInput → TicketSaleTaxRates → FeeVatResult
order_booking input rates =
    fee_result input rates (order_totals input rates).ticket_face_value_gross
      input.customer_booking_fee

abbrev pub order_commission : CalculateTicketSaleTaxInput → TicketSaleTaxRates → FeeVatResult
order_commission input rates =
    fee_result input rates (order_totals input rates).ticket_face_value_gross
      input.organizer_commission

abbrev pub order_base :
    CalculateTicketSaleTaxInput → TicketSaleTaxRates → RecordId → TicketSaleTaxBase
order_base input rates id =
    sale_base input rates id (order_totals input rates) (order_booking input rates)
      (order_commission input rates)

module _ (stable_hash : CalculateTicketSaleTaxInput → TicketSaleTaxRates → TicketSaleTaxBase → ℕ)
    (id : RecordId) (input : CalculateTicketSaleTaxInput) (rates : TicketSaleTaxRates) where
  abbrev pub order_result : TicketSaleTaxCalculation
  order_result =
      let base = order_base input rates id in
      record { base = base; calculation_hash = stable_hash input rates base }

  -- The calculation throws exactly for an order with no ticket lines; otherwise it returns.
  pub calculate-eq :
      calculate_ticket_sale_tax stable_hash id input rates
      ≡ (if is_empty input.ticket_lines then err no_ticket_lines else ok order_result)
  unfolding calculate_ticket_sale_tax order_totals
  calculate-eq = elim (Bool-cases (is_empty input.ticket_lines)) [
    | inl e ↦ rw e
    | inr e ↦ rw (e, sale_lines-eq) (simp charge_fee-eq)
  ]

  pub calculate-eq-ok :
      (c : TicketSaleTaxCalculation)
      → calculate_ticket_sale_tax stable_hash id input rates ≡ ok c
      → c.base ≡ order_base input rates id
  calculate-eq-ok c h = elim (Bool-cases (is_empty input.ticket_lines)) [
    | inl e ↦ cc (rw (calculate-eq, e) at h)
    | inr e ↦ cc (rw (calculate-eq, e) at h)
  ]
