-- ===== src/Tax/Sale/Calculate.antt =====
-- `calculateTicketSaleTax` after its ticket lines: the booking fee, the commission, the cash flows
-- by agency model, and the whole calculation.
use ticketflow_kenya.Base.{
  ℕ, Bool, true, false, List, [], ◌∷◌, ◌++◌, Option, none, some, ok, ◌>>=◌, ◌>>◌, throw_if, ◌==◌,
  if◌then◌else◌,
}
use ticketflow_kenya.Base.Int.{pos}
use ticketflow_kenya.Tax.Errors.{Checked, no_ticket_lines}
use ticketflow_kenya.Tax.Money.{Money, CurrencyCode, kes, money, add_money, sub_money, sum_money}
use ticketflow_kenya.Tax.Types.{
  RecordId, AgencyModel, disclosed_agent, principal_reseller, ChargeBearer, ComponentOwner, TaxCode,
  is_registered,
}
use ticketflow_kenya.Tax.Fees.{FeeVatResult, resolve_fee_amount, apply_fee_vat}
use ticketflow_kenya.Tax.Sale.{
  ServiceFee, CalculateTicketSaleTaxInput, TicketSaleTaxRates, TaxCalculationComponent, Formula,
  SaleWarning, TicketSaleTaxBase, TicketSaleTaxCalculation,
}
use ticketflow_kenya.Tax.Sale.Lines.{TicketTotals, no_totals, or_else, sale_lines}

abbrev pub is_empty {ℓ} : {A : Type ℓ} → List A → Bool
is_empty [] = true
is_empty (x ∷ xs) = false

-- Steps 2 and 3: the amount of an optional fee and its split; without the fee all are 0.
unfoldable pub charge_fee :
    CalculateTicketSaleTaxInput
    → TicketSaleTaxRates
    → Money
    → Option ServiceFee
    → Checked FeeVatResult
charge_fee input rates face none =
    let zero_money = money (pos 0) input.currency in
    ok (record { gross = zero_money; net = zero_money; vat = zero_money })
charge_fee input rates face (some fee) = do
  amount ← resolve_fee_amount fee.calculation face rates.ticket_flow_rounding_mode
  apply_fee_vat amount fee.pricing_mode (is_registered input.ticket_flow_vat_registration_status)
      rates.ticket_flow_vat_rate_bps rates.ticket_flow_rounding_mode

-- The component that a fee adds, with the formula given.
unfoldable pub fee_component :
    CalculateTicketSaleTaxInput
    → TicketSaleTaxRates
    → FeeVatResult
    → Formula
    → TaxCalculationComponent
fee_component input rates r formula = record {
  code = TaxCode.ticket_flow_platform_output_vat;
  owner = ComponentOwner.ticket_flow;
  tax_base = r.net;
  rate_bps =
      if is_registered input.ticket_flow_vat_registration_status
      then rates.ticket_flow_vat_rate_bps
      else 0;
  tax_amount = r.vat;
  formula = formula;
}

unfoldable pub booking_components :
    CalculateTicketSaleTaxInput
    → TicketSaleTaxRates
    → FeeVatResult
    → Option ServiceFee
    → List TaxCalculationComponent
booking_components input rates r none = []
booking_components input rates r (some fee) =
    fee_component input rates r (Formula.booking_fee fee.calculation fee.pricing_mode) ∷ []

unfoldable pub commission_components :
    CalculateTicketSaleTaxInput
    → TicketSaleTaxRates
    → FeeVatResult
    → Option ServiceFee
    → List TaxCalculationComponent
commission_components input rates r none = []
commission_components input rates r (some fee) =
    fee_component input rates r (Formula.commission fee.calculation fee.pricing_mode) ∷ []

-- Only the booking fee warns of a missing registration.
unfoldable pub booking_warnings : CalculateTicketSaleTaxInput → Option ServiceFee → List SaleWarning
booking_warnings input none = []
booking_warnings input (some fee) =
    if is_registered input.ticket_flow_vat_registration_status
    then []
    else SaleWarning.ticket_flow_not_registered ∷ []

abbrev pub bears : ChargeBearer → ChargeBearer → Bool
bears ChargeBearer.ticket_flow ChargeBearer.ticket_flow = true
bears ChargeBearer.organizer ChargeBearer.organizer = true
bears ChargeBearer.customer ChargeBearer.customer = true
bears _ _ = false

-- The variables that step 4 assigns.
pub record CashFlows : Type 0 where
  pub organizer_settlement : Money
  pub revenue_excluding_vat : Money
  pub output_vat : Money
  pub cash_retained : Money

unfoldable pub customer_payment_of : ChargeBearer → TicketTotals → FeeVatResult → Money → Money
customer_payment_of bearer t booking charge =
    let paid = add_money t.organizer_ticket_proceeds_gross booking.gross in
    if bears bearer ChargeBearer.customer then add_money paid charge else paid

-- `if (processorChargeBearer === who) amount = subMoney(amount, processorCharge)`
abbrev pub less_charge : ChargeBearer → ChargeBearer → Money → Money → Money
less_charge bearer who charge amount = if bears bearer who then sub_money amount charge else amount

unfoldable pub cash_flows :
    CurrencyCode
    → AgencyModel
    → ChargeBearer
    → TicketTotals
    → FeeVatResult
    → FeeVatResult
    → Money
    → CashFlows
cash_flows currency disclosed_agent bearer t booking commission charge = record {
  organizer_settlement =
      less_charge bearer ChargeBearer.organizer charge
        (sub_money t.organizer_ticket_proceeds_gross commission.gross);
  revenue_excluding_vat = add_money booking.net commission.net;
  output_vat = add_money booking.vat commission.vat;
  cash_retained =
      less_charge bearer ChargeBearer.ticket_flow charge (add_money booking.gross commission.gross);
}
cash_flows currency principal_reseller bearer t booking commission charge = record {
  organizer_settlement = commission.gross;
  revenue_excluding_vat =
      sub_money
        (add_money (or_else t.organizer_ticket_net_of_vat t.ticket_face_value_gross) booking.net)
        commission.net;
  output_vat =
      add_money (or_else t.organizer_ticket_output_vat (money (pos 0) currency)) booking.vat;
  cash_retained =
      less_charge bearer ChargeBearer.ticket_flow charge
        (sub_money (add_money t.organizer_ticket_proceeds_gross booking.gross) commission.gross);
}

abbrev pub model_warnings : AgencyModel → List SaleWarning
model_warnings disclosed_agent = []
model_warnings principal_reseller = SaleWarning.principal_reseller_model ∷ []

-- `if (!anyTicketVatComputed) … = undefined`
abbrev pub when_computed : Bool → Option Money → Option Money
when_computed true m = m
when_computed false m = none

-- `Array.from(new Set([a, b]))`
abbrev pub distinct_pair : RecordId → RecordId → List RecordId
distinct_pair a b = if a == b then a ∷ [] else a ∷ b ∷ []

-- The result without its hash, from the computed parts.
unfoldable pub sale_base :
    CalculateTicketSaleTaxInput
    → TicketSaleTaxRates
    → RecordId
    → TicketTotals
    → FeeVatResult
    → FeeVatResult
    → TicketSaleTaxBase
sale_base input rates id t booking commission =
    let charge = or_else input.processor_charge (money (pos 0) input.currency) in
    let flows =
      cash_flows input.currency input.agency_model input.processor_charge_bearer t booking
        commission charge in
    record {
      calculation_id = id;
      rule_version_ids = distinct_pair rates.ticket_flow_rule_id rates.organizer_rule_id;
      customer_payment = customer_payment_of input.processor_charge_bearer t booking charge;
      organizer_ticket_proceeds_gross = t.organizer_ticket_proceeds_gross;
      organizer_ticket_net_of_vat =
          when_computed t.any_ticket_vat_computed t.organizer_ticket_net_of_vat;
      organizer_ticket_output_vat =
          when_computed t.any_ticket_vat_computed t.organizer_ticket_output_vat;
      booking_fee_gross = booking.gross;
      booking_fee_net = booking.net;
      booking_fee_vat = booking.vat;
      commission_gross = commission.gross;
      commission_net = commission.net;
      commission_vat = commission.vat;
      ticket_flow_revenue_excluding_vat = flows.revenue_excluding_vat;
      ticket_flow_output_vat = flows.output_vat;
      processor_charge = charge;
      organizer_settlement_before_refunds = flows.organizer_settlement;
      ticket_flow_cash_retained_before_other_costs = flows.cash_retained;
      components =
          t.components
          ++ (booking_components input rates booking input.customer_booking_fee
              ++ commission_components input rates commission input.organizer_commission);
      warnings =
          t.warnings
          ++ (booking_warnings input input.customer_booking_fee
              ++ model_warnings input.agency_model);
    }

-- `stableHash`, a SHA-256 over canonical JSON, is a parameter, and so is the id that `generateId`
-- returns.
module _ (stable_hash : CalculateTicketSaleTaxInput → TicketSaleTaxRates → TicketSaleTaxBase → ℕ)
    (calculation_id : RecordId) where
  unfoldable pub calculate_ticket_sale_tax :
      CalculateTicketSaleTaxInput → TicketSaleTaxRates → Checked TicketSaleTaxCalculation
  calculate_ticket_sale_tax input rates = do
    throw_if (is_empty input.ticket_lines) no_ticket_lines
    t ← sale_lines input rates (no_totals input.currency) input.ticket_lines
    booking ← charge_fee input rates t.ticket_face_value_gross input.customer_booking_fee
    commission ← charge_fee input rates t.ticket_face_value_gross input.organizer_commission
    let base = sale_base input rates calculation_id t booking commission
    ok (record { base = base; calculation_hash = stable_hash input rates base })

unfoldable pub customer_payments : List TicketSaleTaxCalculation → List Money
customer_payments [] = []
customer_payments (c ∷ cs) = c.customer_payment ∷ customer_payments cs

unfoldable pub sum_customer_payments : List TicketSaleTaxCalculation → Money
unfolding customer_payments
sum_customer_payments calculations = sum_money (customer_payments calculations) kes
