-- ===== src/Tax/Sale.antt =====
-- The ticket-sale tax calculation, `calculateTicketSaleTax` of
-- backend/src/tax/domain/calculation/calculate-ticket-sale-tax.logic.ts: its input and its result
-- here, the ticket lines in Lines, the whole calculation in Calculate.
pub mod Lines
pub mod Calculate
pub mod Closed
pub mod Cash
pub mod Components
pub mod Principal
pub mod Nonneg
pub mod Tests
use ticketflow_kenya.Base.{ℕ, List, Option}
use ticketflow_kenya.Base.Int.{ℤ}
use ticketflow_kenya.Tax.Money.{Money, CurrencyCode, RoundingMode}
use ticketflow_kenya.Tax.Types.{
  RecordId, VatRegistrationStatus, OrganizerVatRegistrationStatus, AgencyModel, TicketPricingMode,
  EventSupplyTreatment, ChargeBearer, ComponentOwner, FeeCalculation, TaxCode,
}

pub record TicketSaleLineInput : Type 0 where
  pub ticket_type_id : RecordId
  pub quantity : ℤ
  pub unit_ticket_price : Money
  pub ticket_pricing_mode : TicketPricingMode
  pub event_supply_treatment : EventSupplyTreatment

-- The type of `customerBookingFee` and `organizerCommission`.
pub record ServiceFee : Type 0 where
  pub calculation : FeeCalculation
  pub pricing_mode : TicketPricingMode

-- The fields that the calculation reads.
pub record CalculateTicketSaleTaxInput : Type 0 where
  pub currency : CurrencyCode
  pub agency_model : AgencyModel
  pub ticket_lines : List TicketSaleLineInput
  pub customer_booking_fee : Option ServiceFee
  pub organizer_commission : Option ServiceFee
  pub processor_charge : Option Money
  pub processor_charge_bearer : ChargeBearer
  pub ticket_flow_vat_registration_status : VatRegistrationStatus
  pub organizer_vat_registration_status : OrganizerVatRegistrationStatus

pub record TicketSaleTaxRates : Type 0 where
  pub ticket_flow_vat_rate_bps : ℕ
  pub ticket_flow_rule_id : RecordId
  pub ticket_flow_rounding_mode : RoundingMode
  pub organizer_vat_rate_bps : ℕ
  pub organizer_rule_id : RecordId
  pub organizer_rounding_mode : RoundingMode

-- The texts of the `formula` fields, by what they interpolate.
pub data Formula : Type 0 where
  extracted : RecordId → ℤ → ℕ → Formula
  no_vat : EventSupplyTreatment → OrganizerVatRegistrationStatus → Formula
  booking_fee : FeeCalculation → TicketPricingMode → Formula
  commission : FeeCalculation → TicketPricingMode → Formula

-- The texts of the warnings, by what they interpolate.
pub data SaleWarning : Type 0 where
  treatment_requires_review : RecordId → SaleWarning
  organizer_not_registered : RecordId → OrganizerVatRegistrationStatus → SaleWarning
  ticket_flow_not_registered principal_reseller_model : SaleWarning

pub record TaxCalculationComponent : Type 0 where
  pub code : TaxCode
  pub owner : ComponentOwner
  pub tax_base : Money
  pub rate_bps : ℕ
  pub tax_amount : Money
  pub formula : Formula

-- The result without its hash.
pub record TicketSaleTaxBase : Type 0 where
  pub calculation_id : RecordId
  pub rule_version_ids : List RecordId
  pub customer_payment : Money
  pub organizer_ticket_proceeds_gross : Money
  pub organizer_ticket_net_of_vat : Option Money
  pub organizer_ticket_output_vat : Option Money
  pub booking_fee_gross : Money
  pub booking_fee_net : Money
  pub booking_fee_vat : Money
  pub commission_gross : Money
  pub commission_net : Money
  pub commission_vat : Money
  pub ticket_flow_revenue_excluding_vat : Money
  pub ticket_flow_output_vat : Money
  pub processor_charge : Money
  pub organizer_settlement_before_refunds : Money
  pub ticket_flow_cash_retained_before_other_costs : Money
  pub components : List TaxCalculationComponent
  pub warnings : List SaleWarning

pub record TicketSaleTaxCalculation : Type 0 where
  pub base : TicketSaleTaxBase
  pub open base use *
  pub calculation_hash : ℕ
