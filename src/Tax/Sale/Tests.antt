-- ===== src/Tax/Sale/Tests.antt =====
-- Runs of `calculateTicketSaleTax` on concrete orders.
use ticketflow_kenya.Base.{false, arith, ℕ, ◌≡◌, refl, [], ◌∷◌, some, ok, err, if◌then◌else◌}
use ticketflow_kenya.Base.Int.{leb_ℤ, pos, ◌+ℤ◌, ◌-ℤ◌, ◌*ℤ◌}
use ticketflow_kenya.Base.Sums.{sum_of}
use ticketflow_kenya.Tax.Errors.{no_ticket_lines}
use ticketflow_kenya.Tax.Money.{money, kes, half_up, rounded_abs}
use ticketflow_kenya.Tax.Money.Vat.{net_of, vat_of}
use ticketflow_kenya.Tax.Types.{
  AgencyModel, disclosed_agent, principal_reseller, EventSupplyTreatment, standard_rated, exempt,
  vat_inclusive, percentage, fixed, ChargeBearer, VatRegistrationStatus,
  OrganizerVatRegistrationStatus,
}
use ticketflow_kenya.Tax.Sale.{
  CalculateTicketSaleTaxInput, TicketSaleTaxRates, TicketSaleTaxBase, TicketSaleTaxCalculation,
  TicketSaleLineInput,
}
use ticketflow_kenya.Tax.Sale.Calculate.{
  calculate_ticket_sale_tax, is_empty, sale_base, cash_flows, customer_payment_of,
}
use ticketflow_kenya.Tax.Sale.Lines.{add_uncharged, add_charged}
use ticketflow_kenya.Tax.Sale.Closed.{
  order_totals, next_totals, fee_result, order_result, calculate-eq,
}
use ticketflow_kenya.Tax.Sale.Cash.{
  distributed, sale_distributes_payment, sale_charge_uncovered, agent_revenue_is_fees,
}
use ticketflow_kenya.Tax.Sale.Components.{Accounts, components_account}
use ticketflow_kenya.Tax.Sale.Principal.{uncharged_value, principal_revenue_omits_uncharged}
use ticketflow_kenya.Tax.Sale.Nonneg.{IsNonnegInput}

abbrev pub test_hash : CalculateTicketSaleTaxInput → TicketSaleTaxRates → TicketSaleTaxBase → ℕ
test_hash input rates b = b.calculation_id

abbrev pub test_rates : TicketSaleTaxRates
test_rates = record {
  ticket_flow_vat_rate_bps = 1_600;
  ticket_flow_rule_id = 1;
  ticket_flow_rounding_mode = half_up;
  organizer_vat_rate_bps = 1_600;
  organizer_rule_id = 1;
  organizer_rounding_mode = half_up;
}

abbrev two_tickets : EventSupplyTreatment → TicketSaleLineInput
two_tickets treatment = record {
  ticket_type_id = 4;
  quantity = pos 2;
  unit_ticket_price = money (pos 100_000) kes;
  ticket_pricing_mode = vat_inclusive;
  event_supply_treatment = treatment;
}

-- Two lines, of which VAT is computed for the first.
abbrev pub test_input : AgencyModel → CalculateTicketSaleTaxInput
test_input model = record {
  currency = kes;
  agency_model = model;
  ticket_lines = two_tickets standard_rated ∷ two_tickets exempt ∷ [];
  customer_booking_fee =
      some (record { calculation = percentage 500; pricing_mode = vat_inclusive });
  organizer_commission =
      some (record { calculation = fixed (money (pos 5_000) kes); pricing_mode = vat_inclusive });
  processor_charge = some (money (pos 1_500) kes);
  processor_charge_bearer = ChargeBearer.organizer;
  ticket_flow_vat_registration_status = VatRegistrationStatus.registered;
  organizer_vat_registration_status = OrganizerVatRegistrationStatus.registered;
}

abbrev pub test_result : AgencyModel → TicketSaleTaxCalculation
test_result model = order_result test_hash 7 (test_input model) test_rates

pub test_returned :
    (model : AgencyModel)
    → calculate_ticket_sale_tax test_hash 7 (test_input model) test_rates ≡ ok (test_result model)
test_returned model = calculate-eq test_hash 7 (test_input model) test_rates

-- The payment of the order is more than 0.
pub test_paid : leb_ℤ (test_result disclosed_agent).customer_payment.minor_units (pos 0) ≡ false
unfolding sale_base customer_payment_of ◌+ℤ◌ order_totals next_totals add_uncharged add_charged ◌*ℤ◌
    fee_result vat_of rounded_abs
test_paid = refl

settlement_agent :
    (test_result disclosed_agent).organizer_settlement_before_refunds ≡ money (pos 393_500) kes
unfolding sale_base cash_flows order_totals ◌-ℤ◌ next_totals add_uncharged add_charged ◌+ℤ◌ ◌*ℤ◌
    fee_result
settlement_agent = refl

calculate-eq_example :
    calculate_ticket_sale_tax test_hash 7 (test_input disclosed_agent) test_rates ≡ (
      if is_empty (test_input disclosed_agent).ticket_lines
      then err no_ticket_lines
      else ok (test_result disclosed_agent))
calculate-eq_example = calculate-eq test_hash 7 (test_input disclosed_agent) test_rates

sale_distributes_payment_example :
    distributed (test_result disclosed_agent).base
    ≡ (test_result disclosed_agent).customer_payment.minor_units
sale_distributes_payment_example =
    sale_distributes_payment test_hash 7 (test_input disclosed_agent) test_rates
      (test_result disclosed_agent) (test_returned disclosed_agent) refl

sale_charge_uncovered_example :
    distributed (test_result principal_reseller).base
    ≡ (test_result principal_reseller).customer_payment.minor_units
      +ℤ (test_result principal_reseller).processor_charge.minor_units
sale_charge_uncovered_example =
    sale_charge_uncovered test_hash 7 (test_input principal_reseller) test_rates
      (test_result principal_reseller) (test_returned principal_reseller) refl refl

agent_revenue_is_fees_example :
    ((test_result disclosed_agent).ticket_flow_revenue_excluding_vat.minor_units
        +ℤ (test_result disclosed_agent).ticket_flow_output_vat.minor_units
      ≡ (test_result disclosed_agent).booking_fee_gross.minor_units
        +ℤ (test_result disclosed_agent).commission_gross.minor_units)
    × ((test_result disclosed_agent).booking_fee_net.minor_units
          +ℤ (test_result disclosed_agent).booking_fee_vat.minor_units
        ≡ (test_result disclosed_agent).booking_fee_gross.minor_units)
    × ((test_result disclosed_agent).commission_net.minor_units
          +ℤ (test_result disclosed_agent).commission_vat.minor_units
        ≡ (test_result disclosed_agent).commission_gross.minor_units)
agent_revenue_is_fees_example =
    agent_revenue_is_fees test_hash 7 (test_input disclosed_agent) test_rates
      (test_result disclosed_agent) (test_returned disclosed_agent) refl

components_account_example : Accounts (test_result disclosed_agent).base
components_account_example =
    components_account test_hash 7 (test_input disclosed_agent) test_rates
      (test_result disclosed_agent) (test_returned disclosed_agent)

computed_net :
    (test_result principal_reseller).organizer_ticket_net_of_vat ≡ some (money (pos 172_414) kes)
unfolding sale_base order_totals next_totals add_uncharged add_charged ◌+ℤ◌ net_of ◌*ℤ◌ rounded_abs
computed_net = refl

principal_revenue_omits_uncharged_example :
    (test_result principal_reseller).ticket_flow_revenue_excluding_vat.minor_units
      +ℤ (test_result principal_reseller).ticket_flow_output_vat.minor_units
      +ℤ sum_of
          (uncharged_value (test_input principal_reseller))
          (test_input principal_reseller).ticket_lines
    ≡ (test_result principal_reseller).organizer_ticket_proceeds_gross.minor_units
      +ℤ (test_result principal_reseller).booking_fee_gross.minor_units
      -ℤ (test_result principal_reseller).commission_net.minor_units
principal_revenue_omits_uncharged_example =
    principal_revenue_omits_uncharged test_hash 7 (test_input principal_reseller) test_rates
      (test_result principal_reseller) (money (pos 172_414) kes) (test_returned principal_reseller)
      refl computed_net

pub test_input-IsNonneg : IsNonnegInput (test_input disclosed_agent)
test_input-IsNonneg = record {
  lines = ((omega arith, omega arith), ((omega arith, omega arith), tt));
  booking = tt;
  commission = omega arith;
  charge = omega arith;
}
