-- ===== src/Tax/Refund/Tests.antt =====
-- A refund of one of two tickets.
use ticketflow_kenya.Base.{◌≡◌, refl, [], ◌∷◌, none, true, false, ok}
use ticketflow_kenya.Base.Int.{pos, ◌+ℤ◌, ◌*ℤ◌}
use ticketflow_kenya.Tax.Money.{
  money, kes, half_up, divide_big_int_with_rounding, percentage_of_money, percentage_of_minor,
  rounded_abs, extract_vat_from_inclusive, add_vat_to_exclusive,
}
use ticketflow_kenya.Tax.Money.Vat.{net_of, vat_of}
use ticketflow_kenya.Tax.Types.{
  disclosed_agent, exempt, vat_inclusive, vat_exclusive, TicketPricingMode, ChargeBearer,
  VatRegistrationStatus, OrganizerVatRegistrationStatus,
}
use ticketflow_kenya.Tax.Fees.{apply_fee_vat}
use ticketflow_kenya.Tax.Fees.Split.{fee_of}
use ticketflow_kenya.Tax.Refund.{
  customer_request, FeeRefundPolicy, CommissionReversalPolicy, CalculateRefundTaxInput,
  RefundTaxRates, RefundTaxBase,
}
use ticketflow_kenya.Tax.Refund.Calculate.{
  check_lines, RefundTotals, refund_line, refund_lines, clamp_bps, fraction_bps, refundable_fee,
  reversed_gross, refund_base, payable_reversal, reversed_components, calculate_refund_tax,
}
use ticketflow_kenya.Tax.Refund.Fees.{refund_splits_inclusive_fee, refund_overstates_exclusive_fee}

abbrev test_rates : RefundTaxRates
test_rates = record {
  ticket_flow_vat_rate_bps = 1_600;
  ticket_flow_rule_id = 1;
  ticket_flow_rounding_mode = half_up;
  organizer_vat_rate_bps = 1_600;
  organizer_rule_id = 1;
  organizer_rounding_mode = half_up;
}

abbrev test_input : TicketPricingMode → CalculateRefundTaxInput
test_input mode = record {
  refund_id = 8;
  original_calculation_id = 7;
  reason = customer_request;
  currency = kes;
  agency_model = disclosed_agent;
  refund_lines =
      record {
        ticket_type_id = 4;
        quantity = pos 2;
        quantity_refunded = pos 1;
        unit_ticket_price = money (pos 1_000) kes;
        ticket_pricing_mode = vat_inclusive;
        event_supply_treatment = exempt;
      }
      ∷ [];
  original_booking_fee_gross = money (pos 116) kes;
  booking_fee_pricing_mode = mode;
  booking_fee_refund_policy = FeeRefundPolicy.full;
  original_commission_gross = money (pos 300) kes;
  commission_pricing_mode = vat_inclusive;
  commission_reversal_policy = CommissionReversalPolicy.prorated;
  ticket_flow_vat_registration_status = VatRegistrationStatus.registered;
  organizer_vat_registration_status = OrganizerVatRegistrationStatus.registered;
  processor_charge_bearer = ChargeBearer.customer;
  processor_charge_refundable = false;
  organizer_already_settled = false;
}

abbrev test_totals : RefundTotals
test_totals = record {
  refundable_ticket_face_value = money (pos 1_000) kes;
  organizer_ticket_vat_reversal = none;
  any_organizer_vat_reversed = false;
  original_ticket_total = money (pos 2_000) kes;
  refunded_ticket_total = money (pos 1_000) kes;
  components = [];
}

abbrev test_base : TicketPricingMode → RefundTaxBase
test_base mode =
    refund_base (test_input mode) test_rates 3 test_totals (money (pos 116) kes)
      (fee_of (money (pos 116) kes) mode true 1_600 half_up) (money (pos 150) kes)
      (fee_of (money (pos 150) kes) vat_inclusive true 1_600 half_up)

test_inclusive :
    calculate_refund_tax (test_input vat_inclusive) test_rates 3 ≡ ok (test_base vat_inclusive)
unfolding calculate_refund_tax check_lines refund_lines refund_line fraction_bps ◌+ℤ◌ ◌*ℤ◌
    divide_big_int_with_rounding refundable_fee apply_fee_vat extract_vat_from_inclusive
    reversed_gross percentage_of_money percentage_of_minor net_of clamp_bps refund_base rounded_abs
    payable_reversal reversed_components
test_inclusive = refl

test_exclusive :
    calculate_refund_tax (test_input vat_exclusive) test_rates 3 ≡ ok (test_base vat_exclusive)
unfolding calculate_refund_tax check_lines refund_lines refund_line fraction_bps ◌+ℤ◌ ◌*ℤ◌
    divide_big_int_with_rounding refundable_fee apply_fee_vat add_vat_to_exclusive
    percentage_of_minor reversed_gross percentage_of_money extract_vat_from_inclusive vat_of
    rounded_abs clamp_bps net_of
test_exclusive = refl

refund_splits_inclusive_fee_example :
    (test_base vat_inclusive).booking_fee_net_reversal.minor_units
      +ℤ (test_base vat_inclusive).booking_fee_vat_reversal.minor_units
      +ℤ (test_base vat_inclusive).non_refundable_fee.minor_units
    ≡ pos 116
refund_splits_inclusive_fee_example =
    refund_splits_inclusive_fee (test_input vat_inclusive) test_rates 3 (test_base vat_inclusive)
      test_inclusive refl

refund_overstates_exclusive_fee_example :
    (test_base vat_exclusive).booking_fee_net_reversal.minor_units
      +ℤ (test_base vat_exclusive).booking_fee_vat_reversal.minor_units
      +ℤ (test_base vat_exclusive).non_refundable_fee.minor_units
    ≡ pos 116 +ℤ (test_base vat_exclusive).booking_fee_vat_reversal.minor_units
refund_overstates_exclusive_fee_example =
    refund_overstates_exclusive_fee (test_input vat_exclusive) test_rates 3
      (test_base vat_exclusive) test_exclusive refl refl
