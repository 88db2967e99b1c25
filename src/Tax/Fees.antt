-- ===== src/Tax/Fees.antt =====
-- The split of a fee into gross, net and VAT: `applyFeeVat`, which
-- backend/src/tax/domain/calculation/calculate-ticket-sale-tax.logic.ts and
-- backend/src/tax/domain/refund/calculate-refund-tax.logic.ts declare alike.
pub mod Split
use ticketflow_kenya.Base.{ℕ, Bool, true, false, ok, ◌>>=◌}
use ticketflow_kenya.Base.Int.{pos}
use ticketflow_kenya.Tax.Errors.{Checked}
use ticketflow_kenya.Tax.Money.{
  Money, money, RoundingMode, percentage_of_money, extract_vat_from_inclusive, add_vat_to_exclusive,
}
use ticketflow_kenya.Tax.Types.{
  FeeCalculation, fixed, percentage, TicketPricingMode, vat_inclusive, vat_exclusive,
}

pub record FeeVatResult : Type 0 where
  pub gross : Money
  pub net : Money
  pub vat : Money

unfoldable pub resolve_fee_amount : FeeCalculation → Money → RoundingMode → Checked Money
resolve_fee_amount (fixed amount) base rounding = ok amount
resolve_fee_amount (percentage rate) base rounding = percentage_of_money base rate rounding

-- A registered party's split, by the pricing mode.
unfoldable pub split_by_mode : Money → TicketPricingMode → ℕ → RoundingMode → Checked FeeVatResult
split_by_mode amount vat_inclusive rate rounding = do
  split ← extract_vat_from_inclusive amount.minor_units rate rounding
  ok (record {
    gross = amount;
    net = money split.net_minor amount.currency;
    vat = money split.vat_minor amount.currency;
  })
split_by_mode amount vat_exclusive rate rounding = do
  sum ← add_vat_to_exclusive amount.minor_units rate rounding
  ok (record {
    gross = money sum.gross_minor amount.currency;
    net = amount;
    vat = money sum.vat_minor amount.currency;
  })

unfoldable pub apply_fee_vat :
    Money → TicketPricingMode → Bool → ℕ → RoundingMode → Checked FeeVatResult
unfolding split_by_mode
apply_fee_vat amount pricing_mode false rate rounding =
    ok (record { gross = amount; net = amount; vat = money (pos 0) amount.currency })
apply_fee_vat amount pricing_mode true rate rounding =
    split_by_mode amount pricing_mode rate rounding
