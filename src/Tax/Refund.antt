-- ===== src/Tax/Refund.antt =====
-- The refund calculation: the data of backend/src/tax/domain/refund/refund-tax.types.ts; Calculate is
-- `calculateRefundTax` of backend/src/tax/domain/refund/calculate-refund-tax.logic.ts.
pub mod Calculate
pub mod Fees
mod Tests
use ticketflow_kenya.Base.{ℕ, Bool, List, Option}
use ticketflow_kenya.Base.Int.{ℤ}
use ticketflow_kenya.Tax.Money.{Money, CurrencyCode, RoundingMode}
use ticketflow_kenya.Tax.Types.{
  RecordId, VatRegistrationStatus, OrganizerVatRegistrationStatus, AgencyModel, TicketPricingMode,
  EventSupplyTreatment, ChargeBearer, ComponentOwner, TaxCode,
}

pub data RefundReason : Type 0 where
  event_cancelled event_postponed customer_request duplicate_payment : RefundReason
  fraud chargeback admin_correction : RefundReason

pub data FeeRefundPolicy : Type 0 where
  full prorated non_refundable : FeeRefundPolicy

pub data CommissionReversalPolicy : Type 0 where
  full prorated no_reversal : CommissionReversalPolicy

pub data ProcessorChargeTreatment : Type 0 where
  refunded_to_customer retained_by_processor : ProcessorChargeTreatment
  absorbed_by_ticketflow absorbed_by_organizer : ProcessorChargeTreatment

pub record RefundTicketLineInput : Type 0 where
  pub ticket_type_id : RecordId
  pub quantity : ℤ
  pub quantity_refunded : ℤ
  pub unit_ticket_price : Money
  pub ticket_pricing_mode : TicketPricingMode
  pub event_supply_treatment : EventSupplyTreatment

-- The fields that the calculation reads.
pub record CalculateRefundTaxInput : Type 0 where
  pub refund_id : RecordId
  pub original_calculation_id : RecordId
  pub reason : RefundReason
  pub currency : CurrencyCode
  pub agency_model : AgencyModel
  pub refund_lines : List RefundTicketLineInput
  pub original_booking_fee_gross : Money
  pub booking_fee_pricing_mode : TicketPricingMode
  pub booking_fee_refund_policy : FeeRefundPolicy
  pub original_commission_gross : Money
  pub commission_pricing_mode : TicketPricingMode
  pub commission_reversal_policy : CommissionReversalPolicy
  pub ticket_flow_vat_registration_status : VatRegistrationStatus
  pub organizer_vat_registration_status : OrganizerVatRegistrationStatus
  pub processor_charge_bearer : ChargeBearer
  pub processor_charge_refundable : Bool
  pub organizer_already_settled : Bool

pub record RefundTaxRates : Type 0 where
  pub ticket_flow_vat_rate_bps : ℕ
  pub ticket_flow_rule_id : RecordId
  pub ticket_flow_rounding_mode : RoundingMode
  pub organizer_vat_rate_bps : ℕ
  pub organizer_rule_id : RecordId
  pub organizer_rounding_mode : RoundingMode

-- The texts of the `formula` fields, by what they interpolate.
pub data RefundFormula : Type 0 where
  reversed_line : RecordId → ℤ → ℤ → RefundFormula
  reversed_booking_fee : FeeRefundPolicy → RefundFormula
  reversed_commission : CommissionReversalPolicy → RefundFormula

pub data RefundWarning : Type 0 where
  principal_reseller_model organizer_already_settled refund_reserve_suggested : RefundWarning

pub record RefundTaxCalculationComponent : Type 0 where
  pub code : TaxCode
  pub owner : ComponentOwner
  pub tax_base : Money
  pub rate_bps : ℕ
  pub tax_amount : Money
  pub formula : RefundFormula

-- The result without its hash.
pub record RefundTaxBase : Type 0 where
  pub calculation_id : RecordId
  pub refund_id : RecordId
  pub original_calculation_id : RecordId
  pub rule_version_ids : List RecordId
  pub refundable_ticket_face_value : Money
  pub refundable_booking_fee : Money
  pub non_refundable_fee : Money
  pub ticket_flow_revenue_reversal : Money
  pub ticket_flow_vat_reversal : Money
  pub booking_fee_net_reversal : Money
  pub booking_fee_vat_reversal : Money
  pub commission_net_reversal : Money
  pub commission_vat_reversal : Money
  pub organizer_payable_reversal : Money
  pub organizer_ticket_vat_reversal : Option Money
  pub processor_charge_treatment : ProcessorChargeTreatment
  pub organizer_already_settled : Bool
  pub ticket_flow_recovery_required : Money
  pub refund_reserve_required : Money
  pub requires_etims_credit_note : Bool
  pub components : List RefundTaxCalculationComponent
  pub warnings : List RefundWarning
