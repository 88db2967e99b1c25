-- ===== src/Tax/Types.antt =====
-- The vocabulary of the tax calculations:
-- backend/src/tax/domain/calculation/ticket-sale-tax.types.ts. An identifier is only compared, so
-- it is a natural number.
use ticketflow_kenya.Base.{ℕ, Bool, true, false}
use ticketflow_kenya.Tax.Money.{Money}

abbrev pub RecordId : Type 0
RecordId = ℕ

pub data VatRegistrationStatus : Type 0 where
  registered not_registered : VatRegistrationStatus

pub data OrganizerVatRegistrationStatus : Type 0 where
  registered not_registered unknown : OrganizerVatRegistrationStatus

pub data AgencyModel : Type 0 where
  disclosed_agent principal_reseller : AgencyModel

pub data TicketPricingMode : Type 0 where
  vat_inclusive vat_exclusive : TicketPricingMode

pub data EventSupplyTreatment : Type 0 where
  standard_rated zero_rated exempt out_of_scope requires_review : EventSupplyTreatment

pub data ChargeBearer : Type 0 where
  ticket_flow organizer customer : ChargeBearer

pub data ComponentOwner : Type 0 where
  ticket_flow organizer customer : ComponentOwner

pub data FeeCalculation : Type 0 where
  fixed : Money → FeeCalculation
  percentage : ℕ → FeeCalculation

pub data TaxCode : Type 0 where
  ticket_flow_platform_output_vat organizer_ticket_output_vat : TaxCode

-- `=== "REGISTERED"`, `=== "STANDARD_RATED"`, `=== "REQUIRES_REVIEW"`.
abbrev pub is_registered : VatRegistrationStatus → Bool
is_registered VatRegistrationStatus.registered = true
is_registered VatRegistrationStatus.not_registered = false

abbrev pub organizer_is_registered : OrganizerVatRegistrationStatus → Bool
organizer_is_registered OrganizerVatRegistrationStatus.registered = true
organizer_is_registered _ = false

abbrev pub is_standard_rated : EventSupplyTreatment → Bool
is_standard_rated standard_rated = true
is_standard_rated _ = false

abbrev pub needs_review : EventSupplyTreatment → Bool
needs_review requires_review = true
needs_review _ = false
