-- ===== src/Tax/Refund/Calculate.antt =====
-- `calculateRefundTax` of backend/src/tax/domain/refund/calculate-refund-tax.logic.ts, in the order of
-- the source. The result's hash, `stableHash` of the input, the rates and the result, is left out, and
-- the generated id is an argument.
use ticketflow_kenya.Base.{
  ℕ, Bool, true, false, ◌&&◌, ◌||◌, List, [], ◌∷◌, ◌++◌, Option, none, some, ok, ◌>>=◌, ◌>>◌,
  throw_if, if◌then◌else◌,
}
use ticketflow_kenya.Base.Int.{ℤ, pos, ◌*ℤ◌, ltb_ℤ, is_zero_ℤ, pos_part}
use ticketflow_kenya.Tax.Errors.{Checked, invalid_refund_quantity}
use ticketflow_kenya.Tax.Money.{
  Money, CurrencyCode, money, zero_kes, half_up, add_money, sub_money, negate_money,
  multiply_money_by_int, percentage_of_money, divide_big_int_with_rounding,
}
use ticketflow_kenya.Tax.Types.{
  RecordId, AgencyModel, disclosed_agent, principal_reseller, ChargeBearer, ComponentOwner, TaxCode,
  TicketPricingMode, is_standard_rated, organizer_is_registered, is_registered,
}
use ticketflow_kenya.Tax.Fees.{FeeVatResult, split_by_mode, apply_fee_vat}
use ticketflow_kenya.Tax.Sale.Lines.{or_else}
use ticketflow_kenya.Tax.Sale.Calculate.{when_computed, distinct_pair}
use ticketflow_kenya.Tax.Refund.{
  RefundReason, event_cancelled, event_postponed, FeeRefundPolicy, CommissionReversalPolicy,
  ProcessorChargeTreatment, RefundTicketLineInput, CalculateRefundTaxInput, RefundTaxRates,
  RefundFormula, RefundWarning, RefundTaxCalculationComponent, RefundTaxBase,
}

-- The first loop: the check of the quantities.
unfoldable pub check_lines : List RefundTicketLineInput → Checked (Unit {0})
check_lines [] = ok tt
check_lines (line ∷ lines) =
    throw_if (ltb_ℤ line.quantity_refunded (pos 0) || ltb_ℤ line.quantity line.quantity_refunded)
      (invalid_refund_quantity line.ticket_type_id)
    >> check_lines lines

-- The variables that the second loop changes.
pub record RefundTotals : Type 0 where
  pub refundable_ticket_face_value : Money
  pub organizer_ticket_vat_reversal : Option Money
  pub any_organizer_vat_reversed : Bool
  pub original_ticket_total : Money
  pub refunded_ticket_total : Money
  pub components : List RefundTaxCalculationComponent

abbrev pub no_refund : CurrencyCode → RefundTotals
no_refund currency = record {
  refundable_ticket_face_value = money (pos 0) currency;
  organizer_ticket_vat_reversal = none;
  any_organizer_vat_reversed = false;
  original_ticket_total = money (pos 0) currency;
  refunded_ticket_total = money (pos 0) currency;
  components = [];
}

abbrev pub refunded_price : RefundTicketLineInput → Money
refunded_price line = multiply_money_by_int line.unit_ticket_price line.quantity_refunded

-- The branch for a standard-rated line of a registered organizer, once its VAT is split.
unfoldable pub add_reversed :
    RefundTaxRates → RefundTicketLineInput → RefundTotals → FeeVatResult → RefundTotals
add_reversed rates line t r = record t {
  refundable_ticket_face_value = add_money t.refundable_ticket_face_value r.gross;
  organizer_ticket_vat_reversal =
      some (add_money (or_else t.organizer_ticket_vat_reversal zero_kes) r.vat);
  any_organizer_vat_reversed = true;
  components =
      t.components
      ++ record {
        code = TaxCode.organizer_ticket_output_vat;
        owner = ComponentOwner.organizer;
        tax_base = refunded_price line;
        rate_bps = rates.organizer_vat_rate_bps;
        tax_amount = negate_money r.vat;
        formula =
            RefundFormula.reversed_line line.ticket_type_id line.quantity_refunded line.quantity;
      }
        ∷ [];
}

-- One round of the second loop.
unfoldable pub refund_line :
    CalculateRefundTaxInput
    → RefundTaxRates
    → RefundTotals
    → RefundTicketLineInput
    → Checked RefundTotals
refund_line input rates t line =
    let t' : RefundTotals = record t {
      original_ticket_total =
          add_money t.original_ticket_total
            (multiply_money_by_int line.unit_ticket_price line.quantity);
      refunded_ticket_total = add_money t.refunded_ticket_total (refunded_price line);
    } in
    if is_zero_ℤ line.quantity_refunded
    then ok t'
    else if is_standard_rated line.event_supply_treatment
        && organizer_is_registered input.organizer_vat_registration_status
    then (do
      r ←
          split_by_mode (refunded_price line) line.ticket_pricing_mode rates.organizer_vat_rate_bps
            rates.organizer_rounding_mode
      ok (add_reversed rates line t' r))
    else ok (record t' {
      refundable_ticket_face_value =
          add_money t'.refundable_ticket_face_value (refunded_price line);
    })

unfoldable pub refund_lines :
    CalculateRefundTaxInput
    → RefundTaxRates
    → RefundTotals
    → List RefundTicketLineInput
    → Checked RefundTotals
refund_lines input rates t [] = ok t
refund_lines input rates t (line ∷ lines) = do
  t' ← refund_line input rates t line
  refund_lines input rates t' lines

-- `clampBps`, as a natural number.
unfoldable pub clamp_bps : ℤ → ℕ
clamp_bps bps =
    if ltb_ℤ bps (pos 0) then 0 else if ltb_ℤ (pos 10_000) bps then 10_000 else pos_part bps

-- Step 2: the refunded part of the tickets.
unfoldable pub fraction_bps : RefundTotals → Checked ℕ
fraction_bps t = if is_zero_ℤ t.original_ticket_total.minor_units then ok 0 else (do
  bps ←
      divide_big_int_with_rounding (t.refunded_ticket_total.minor_units *ℤ pos 10_000)
        t.original_ticket_total.minor_units half_up
  ok (clamp_bps bps))

-- Step 3: the booking fee that is refunded.
unfoldable pub refundable_fee : CurrencyCode → Money → FeeRefundPolicy → ℕ → Checked Money
refundable_fee currency original FeeRefundPolicy.full bps = ok original
refundable_fee currency original FeeRefundPolicy.prorated bps =
    percentage_of_money original bps half_up
refundable_fee currency original FeeRefundPolicy.non_refundable bps = ok (money (pos 0) currency)

-- Step 4: the commission that is reversed.
unfoldable pub reversed_gross : CurrencyCode → Money → CommissionReversalPolicy → ℕ → Checked Money
reversed_gross currency original CommissionReversalPolicy.full bps = ok original
reversed_gross currency original CommissionReversalPolicy.prorated bps =
    percentage_of_money original bps half_up
reversed_gross currency original CommissionReversalPolicy.no_reversal bps =
    ok (money (pos 0) currency)

-- The component of a reversed fee, when its gross amount is more than 0.
unfoldable pub reversed_components :
    CalculateRefundTaxInput
    → RefundTaxRates
    → Money
    → FeeVatResult
    → RefundFormula
    → List RefundTaxCalculationComponent
reversed_components input rates gross split formula =
    if ltb_ℤ (pos 0) gross.minor_units
    then record {
      code = TaxCode.ticket_flow_platform_output_vat;
      owner = ComponentOwner.ticket_flow;
      tax_base = negate_money split.net;
      rate_bps =
          if is_registered input.ticket_flow_vat_registration_status
          then rates.ticket_flow_vat_rate_bps
          else 0;
      tax_amount = negate_money split.vat;
      formula = formula;
    }
      ∷ []
    else []

-- Step 5.
unfoldable pub payable_reversal : AgencyModel → Money → Money → Money
payable_reversal disclosed_agent face commission = sub_money face commission
payable_reversal principal_reseller face commission = commission

abbrev pub model_warnings : AgencyModel → List RefundWarning
model_warnings disclosed_agent = []
model_warnings principal_reseller = RefundWarning.principal_reseller_model ∷ []

-- Step 6.
unfoldable pub charge_treatment : Bool → ChargeBearer → ProcessorChargeTreatment
charge_treatment refundable ChargeBearer.organizer = ProcessorChargeTreatment.absorbed_by_organizer
charge_treatment true ChargeBearer.ticket_flow = ProcessorChargeTreatment.absorbed_by_ticketflow
charge_treatment true ChargeBearer.customer = ProcessorChargeTreatment.refunded_to_customer
charge_treatment false _ = ProcessorChargeTreatment.retained_by_processor

abbrev pub is_called_off : RefundReason → Bool
is_called_off event_cancelled = true
is_called_off event_postponed = true
is_called_off _ = false

-- `input.organizerAlreadySettled && organizerPayableReversal.minorUnits > 0n`
abbrev pub needs_recovery : CalculateRefundTaxInput → Money → Bool
needs_recovery input payable = input.organizer_already_settled && ltb_ℤ (pos 0) payable.minor_units

abbrev pub recovery_warnings : Bool → Bool → List RefundWarning
recovery_warnings false called_off = []
recovery_warnings true called_off =
    RefundWarning.organizer_already_settled
    ∷ (if called_off then RefundWarning.refund_reserve_suggested ∷ [] else [])

-- The result, from the totals, the refunded fee, the reversed commission and their splits.
unfoldable pub refund_base :
    CalculateRefundTaxInput
    → RefundTaxRates
    → RecordId
    → RefundTotals
    → Money
    → FeeVatResult
    → Money
    → FeeVatResult
    → RefundTaxBase
refund_base input rates id t fee booking gross commission =
    let nothing = money (pos 0) input.currency in
    let payable = payable_reversal input.agency_model t.refundable_ticket_face_value gross in
    let recovers = needs_recovery input payable in
    record {
      calculation_id = id;
      refund_id = input.refund_id;
      original_calculation_id = input.original_calculation_id;
      rule_version_ids = distinct_pair rates.ticket_flow_rule_id rates.organizer_rule_id;
      refundable_ticket_face_value = t.refundable_ticket_face_value;
      refundable_booking_fee = fee;
      non_refundable_fee = sub_money input.original_booking_fee_gross fee;
      ticket_flow_revenue_reversal = add_money booking.net commission.net;
      ticket_flow_vat_reversal = add_money booking.vat commission.vat;
      booking_fee_net_reversal = booking.net;
      booking_fee_vat_reversal = booking.vat;
      commission_net_reversal = commission.net;
      commission_vat_reversal = commission.vat;
      organizer_payable_reversal = payable;
      organizer_ticket_vat_reversal =
          when_computed t.any_organizer_vat_reversed t.organizer_ticket_vat_reversal;
      processor_charge_treatment =
          charge_treatment input.processor_charge_refundable input.processor_charge_bearer;
      organizer_already_settled = input.organizer_already_settled;
      ticket_flow_recovery_required = if recovers then payable else nothing;
      refund_reserve_required = if recovers && is_called_off input.reason then payable else nothing;
      requires_etims_credit_note =
          ltb_ℤ (pos 0) t.refundable_ticket_face_value.minor_units
          || ltb_ℤ (pos 0) fee.minor_units
          || ltb_ℤ (pos 0) gross.minor_units;
      components =
          t.components
          ++ (reversed_components input rates fee booking
                (RefundFormula.reversed_booking_fee input.booking_fee_refund_policy)
              ++ reversed_components input rates gross commission
                  (RefundFormula.reversed_commission input.commission_reversal_policy));
      warnings =
          model_warnings input.agency_model
          ++ recovery_warnings recovers (is_called_off input.reason);
    }

-- The split of a reversed fee by `applyFeeVat`.
abbrev pub reversed_split :
    CalculateRefundTaxInput → RefundTaxRates → Money → TicketPricingMode → Checked FeeVatResult
reversed_split input rates amount mode =
    apply_fee_vat amount mode (is_registered input.ticket_flow_vat_registration_status)
      rates.ticket_flow_vat_rate_bps rates.ticket_flow_rounding_mode

unfoldable pub calculate_refund_tax :
    CalculateRefundTaxInput → RefundTaxRates → RecordId → Checked RefundTaxBase
calculate_refund_tax input rates id = do
  check_lines input.refund_lines
  t ← refund_lines input rates (no_refund input.currency) input.refund_lines
  bps ← fraction_bps t
  fee ←
      refundable_fee input.currency input.original_booking_fee_gross input.booking_fee_refund_policy
        bps
  booking ← reversed_split input rates fee input.booking_fee_pricing_mode
  gross ←
      reversed_gross input.currency input.original_commission_gross input.commission_reversal_policy
        bps
  commission ← reversed_split input rates gross input.commission_pricing_mode
  ok (refund_base input rates id t fee booking gross commission)
