-- ===== src/Tax/Sale/Cash.antt =====
-- Where the customer's money goes.
use ticketflow_kenya.Base.{ℕ, ◌≡◌, Bool, true, false, Option, none, some, ok, arith, if◌then◌else◌}
use ticketflow_kenya.Base.Int.{ℤ, ◌+ℤ◌, int_laws}
use ticketflow_kenya.Tax.Money.{Money}
use ticketflow_kenya.Tax.Types.{
  RecordId, AgencyModel, ChargeBearer, disclosed_agent, principal_reseller,
}
use ticketflow_kenya.Tax.Fees.{FeeVatResult}
use ticketflow_kenya.Tax.Fees.Split.{IsExact, fee_of-IsExact}
use ticketflow_kenya.Tax.Sale.{
  ServiceFee, CalculateTicketSaleTaxInput, TicketSaleTaxRates, TicketSaleTaxBase,
  TicketSaleTaxCalculation,
}
use ticketflow_kenya.Tax.Sale.Lines.{TicketTotals}
use ticketflow_kenya.Tax.Sale.Calculate.{
  cash_flows, customer_payment_of, sale_base, calculate_ticket_sale_tax,
}
use ticketflow_kenya.Tax.Sale.Closed.{
  fee_result, order_totals, order_booking, order_commission, calculate-eq-ok,
}

-- Who holds the customer's money after the sale: the organizer, TicketFlow and the processor.
abbrev pub distributed : TicketSaleTaxBase → ℤ
distributed b =
    b.organizer_settlement_before_refunds.minor_units
    +ℤ b.ticket_flow_cash_retained_before_other_costs.minor_units +ℤ b.processor_charge.minor_units

-- The organizer bears the processor's charge while TicketFlow resells as principal.
abbrev pub is_uncovered : AgencyModel → ChargeBearer → Bool
is_uncovered principal_reseller ChargeBearer.organizer = true
is_uncovered _ _ = false

sale_base-distributed :
    (input : CalculateTicketSaleTaxInput) (rates : TicketSaleTaxRates) (id : RecordId)
    (t : TicketTotals) (booking commission : FeeVatResult)
    → let b = sale_base input rates id t booking commission in
      distributed b ≡ (
        if is_uncovered input.agency_model input.processor_charge_bearer
        then b.customer_payment.minor_units +ℤ b.processor_charge.minor_units
        else b.customer_payment.minor_units)
unfolding sale_base cash_flows customer_payment_of
sale_base-distributed input rates id t booking commission = grind int_laws

pub fee_result-IsExact :
    (input : CalculateTicketSaleTaxInput) (rates : TicketSaleTaxRates) (face : Money)
    (fee : Option ServiceFee)
    → IsExact (fee_result input rates face fee)
unfolding fee_result
fee_result-IsExact input rates face none = omega int_laws
fee_result-IsExact input rates face (some fee) = fee_of-IsExact _ _ _ _ _

sale_base-agent :
    (input : CalculateTicketSaleTaxInput) (rates : TicketSaleTaxRates) (id : RecordId)
    (t : TicketTotals) (booking commission : FeeVatResult)
    → input.agency_model ≡ disclosed_agent
    → IsExact booking
    → IsExact commission
    → let b = sale_base input rates id t booking commission in
      (b.ticket_flow_revenue_excluding_vat.minor_units +ℤ b.ticket_flow_output_vat.minor_units
        ≡ b.booking_fee_gross.minor_units +ℤ b.commission_gross.minor_units)
      × (b.booking_fee_net.minor_units +ℤ b.booking_fee_vat.minor_units
          ≡ b.booking_fee_gross.minor_units)
      × (b.commission_net.minor_units +ℤ b.commission_vat.minor_units
          ≡ b.commission_gross.minor_units)
unfolding sale_base cash_flows
sale_base-agent input rates id t booking commission agent e f = grind int_laws

module _ (stable_hash : CalculateTicketSaleTaxInput → TicketSaleTaxRates → TicketSaleTaxBase → ℕ)
    (id : RecordId) (input : CalculateTicketSaleTaxInput) (rates : TicketSaleTaxRates)
    (c : TicketSaleTaxCalculation)
    (returned : calculate_ticket_sale_tax stable_hash id input rates ≡ ok c) where
  distribution : distributed c.base ≡ (
      if is_uncovered input.agency_model input.processor_charge_bearer
      then c.customer_payment.minor_units +ℤ c.processor_charge.minor_units
      else c.customer_payment.minor_units)
  distribution = rw (calculate-eq-ok stable_hash id input rates c returned) (
      sale_base-distributed input rates id (order_totals input rates) (order_booking input rates)
        (order_commission input rates))

  -- The organizer's settlement, what TicketFlow retains and the processor's charge add up to what
  -- the customer pays, unless the organizer bears the charge while TicketFlow resells as principal.
  pub sale_distributes_payment :
      is_uncovered input.agency_model input.processor_charge_bearer ≡ false
      → distributed c.base ≡ c.customer_payment.minor_units
  sale_distributes_payment h = ground (arith, distribution)

  -- When TicketFlow resells as principal and the organizer bears the processor's charge, nobody's
  -- share is lowered by it: the shares exceed the customer's payment by the whole charge.
  pub sale_charge_uncovered :
      input.agency_model ≡ principal_reseller
      → input.processor_charge_bearer ≡ ChargeBearer.organizer
      → distributed c.base ≡ c.customer_payment.minor_units +ℤ c.processor_charge.minor_units
  sale_charge_uncovered h k = ground (arith, distribution)

  -- As a disclosed agent TicketFlow's revenue and output VAT are its two fees and nothing of the
  -- ticket proceeds, and each fee splits exactly into net and VAT.
  pub agent_revenue_is_fees :
      input.agency_model ≡ disclosed_agent
      → (c.ticket_flow_revenue_excluding_vat.minor_units +ℤ c.ticket_flow_output_vat.minor_units
          ≡ c.booking_fee_gross.minor_units +ℤ c.commission_gross.minor_units)
        × (c.booking_fee_net.minor_units +ℤ c.booking_fee_vat.minor_units
            ≡ c.booking_fee_gross.minor_units)
        × (c.commission_net.minor_units +ℤ c.commission_vat.minor_units
            ≡ c.commission_gross.minor_units)
  agent_revenue_is_fees agent = rw (calculate-eq-ok stable_hash id input rates c returned) (
      sale_base-agent input rates id (order_totals input rates) (order_booking input rates)
        (order_commission input rates) agent (fee_result-IsExact input rates _ _)
        (fee_result-IsExact input rates _ _))
