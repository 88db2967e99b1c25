-- ===== src/Tax/Refund/Fees.antt =====
-- What a refund reverses of TicketFlow's fees.
use ticketflow_kenya.Base.{◌≡◌, ap, sym, ◌∙◌, Bool, true, false, ok, >>=-eq-ok}
use ticketflow_kenya.Base.Int.{◌+ℤ◌, ◌-ℤ◌, int_laws}
use ticketflow_kenya.Tax.Money.{Money}
use ticketflow_kenya.Tax.Types.{
  RecordId, TicketPricingMode, vat_inclusive, vat_exclusive, is_registered,
}
use ticketflow_kenya.Tax.Fees.{FeeVatResult}
use ticketflow_kenya.Tax.Fees.Split.{fee_of, apply_fee_vat-eq}
use ticketflow_kenya.Tax.Refund.{CalculateRefundTaxInput, RefundTaxRates, RefundTaxBase}
use ticketflow_kenya.Tax.Refund.Calculate.{
  check_lines, refund_lines, no_refund, fraction_bps, refundable_fee, reversed_gross,
  reversed_split, refund_base, calculate_refund_tax, RefundTotals,
}

module _ (input : CalculateRefundTaxInput) (rates : RefundTaxRates) where
  abbrev split_again : Money → TicketPricingMode → FeeVatResult
  split_again amount mode =
      fee_of amount mode (is_registered input.ticket_flow_vat_registration_status)
        rates.ticket_flow_vat_rate_bps rates.ticket_flow_rounding_mode

  split_again-eq :
      (amount : Money) (mode : TicketPricingMode) (r : FeeVatResult)
      → reversed_split input rates amount mode ≡ ok r
      → r ≡ split_again amount mode
  split_again-eq amount mode r h = cc (
    h,
    apply_fee_vat-eq amount mode (is_registered input.ticket_flow_vat_registration_status)
        rates.ticket_flow_vat_rate_bps rates.ticket_flow_rounding_mode,
  )

  -- A result is computed from some totals, refunded fee and reversed commission.
  refund-eq-ok :
      (id : RecordId) (b : RefundTaxBase)
      → calculate_refund_tax input rates id ≡ ok b
      → (t : RefundTotals) × (fee : Money) × (gross : Money) × (b
          ≡ refund_base input rates id t fee
              (split_again fee input.booking_fee_pricing_mode)
              gross
              (split_again gross input.commission_pricing_mode))
  unfolding calculate_refund_tax
  refund-eq-ok id b h =
      let (u, checked, h1) = >>=-eq-ok (check_lines input.refund_lines) _ h in
      let (t, summed, h2) =
        >>=-eq-ok (refund_lines input rates (no_refund input.currency) input.refund_lines) _ h1 in
      let (bps, part, h3) = >>=-eq-ok (fraction_bps t) _ h2 in
      let (fee, refunded, h4) =
        >>=-eq-ok
          (refundable_fee input.currency input.original_booking_fee_gross
            input.booking_fee_refund_policy bps)
          _ h3 in
      let (booking, first, h5) =
        >>=-eq-ok (reversed_split input rates fee input.booking_fee_pricing_mode) _ h4 in
      let (gross, reversed, h6) =
        >>=-eq-ok
          (reversed_gross input.currency input.original_commission_gross
            input.commission_reversal_policy bps)
          _ h5 in
      let (commission, second, h7) =
        >>=-eq-ok (reversed_split input rates gross input.commission_pricing_mode) _ h6 in
      let result : refund_base input rates id t fee booking gross commission ≡ b = cc h7 in
      (
        t,
        fee,
        gross,
        sym result
            ∙ ap (λ x. refund_base input rates id t fee x gross commission)
                (split_again-eq fee _ booking first)
            ∙ ap
                (λ x.
                  refund_base input rates id t fee (split_again fee input.booking_fee_pricing_mode)
                    gross x)
                (split_again-eq gross _ commission second),
      )

  -- With a booking fee that was priced inclusive of VAT, a refund that is returned splits the
  -- original fee: the reversed revenue, the reversed VAT and the part that is not refunded add up to
  -- it.
  pub refund_splits_inclusive_fee :
      (id : RecordId) (b : RefundTaxBase)
      → calculate_refund_tax input rates id ≡ ok b
      → input.booking_fee_pricing_mode ≡ vat_inclusive
      → b.booking_fee_net_reversal.minor_units +ℤ b.booking_fee_vat_reversal.minor_units
          +ℤ b.non_refundable_fee.minor_units
        ≡ input.original_booking_fee_gross.minor_units
  unfolding refund_base
  refund_splits_inclusive_fee id b h inclusive =
      let (t, fee, gross, same) = refund-eq-ok id b h in
      rw (same, inclusive)
        (inclusive_sum (is_registered input.ticket_flow_vat_registration_status) fee)
    where
      inclusive_sum :
          (registered : Bool) (fee : Money)
          → let r =
              fee_of fee vat_inclusive registered rates.ticket_flow_vat_rate_bps
                rates.ticket_flow_rounding_mode in
            r.net.minor_units
              +ℤ r.vat.minor_units
              +ℤ (input.original_booking_fee_gross.minor_units -ℤ fee.minor_units)
            ≡ input.original_booking_fee_gross.minor_units
      inclusive_sum true fee = omega int_laws
      inclusive_sum false fee = omega int_laws

  -- With a fee that was priced exclusive of VAT and a registered TicketFlow the original gross fee is
  -- exceeded by the reversed VAT: VAT is added to the refunded gross amount a second time.
  pub refund_overstates_exclusive_fee :
      (id : RecordId) (b : RefundTaxBase)
      → calculate_refund_tax input rates id ≡ ok b
      → input.booking_fee_pricing_mode ≡ vat_exclusive
      → is_registered input.ticket_flow_vat_registration_status ≡ true
      → b.booking_fee_net_reversal.minor_units +ℤ b.booking_fee_vat_reversal.minor_units
          +ℤ b.non_refundable_fee.minor_units
        ≡ input.original_booking_fee_gross.minor_units +ℤ b.booking_fee_vat_reversal.minor_units
  unfolding refund_base
  refund_overstates_exclusive_fee id b h exclusive registered =
      let (t, fee, gross, same) = refund-eq-ok id b h in
      rw (same, exclusive, registered) (omega int_laws)
