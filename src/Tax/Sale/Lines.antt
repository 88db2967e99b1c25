-- ===== src/Tax/Sale/Lines.antt =====
-- The loop over the ticket lines: step 1 of `calculateTicketSaleTax`. The split of a line by its
-- pricing mode is that of a fee; the currency that the two name differently has one value.
use ticketflow_kenya.Base.{
  Bool, true, false, ◌&&◌, not, List, [], ◌∷◌, ◌++◌, Option, none, some, ok, ◌>>=◌, if◌then◌else◌,
}
use ticketflow_kenya.Base.Int.{pos}
use ticketflow_kenya.Tax.Errors.{Checked}
use ticketflow_kenya.Tax.Money.{
  Money, CurrencyCode, money, zero_kes, add_money, multiply_money_by_int,
}
use ticketflow_kenya.Tax.Types.{
  ComponentOwner, TaxCode, is_standard_rated, needs_review, organizer_is_registered,
}
use ticketflow_kenya.Tax.Fees.{FeeVatResult, split_by_mode}
use ticketflow_kenya.Tax.Sale.{
  TicketSaleLineInput, CalculateTicketSaleTaxInput, TicketSaleTaxRates, TaxCalculationComponent,
  Formula, SaleWarning,
}

-- The variables that the loop changes.
pub record TicketTotals : Type 0 where
  pub ticket_face_value_gross : Money
  pub organizer_ticket_proceeds_gross : Money
  pub organizer_ticket_net_of_vat : Option Money
  pub organizer_ticket_output_vat : Option Money
  pub any_ticket_vat_computed : Bool
  pub components : List TaxCalculationComponent
  pub warnings : List SaleWarning

abbrev pub no_totals : CurrencyCode → TicketTotals
no_totals currency = record {
  ticket_face_value_gross = money (pos 0) currency;
  organizer_ticket_proceeds_gross = money (pos 0) currency;
  organizer_ticket_net_of_vat = none;
  organizer_ticket_output_vat = none;
  any_ticket_vat_computed = false;
  components = [];
  warnings = [];
}

-- `m ?? d`
abbrev pub or_else : Option Money → Money → Money
or_else none d = d
or_else (some m) d = m

abbrev pub listed_price : TicketSaleLineInput → Money
listed_price line = multiply_money_by_int line.unit_ticket_price line.quantity

-- `chargeableStandardRated && organizerIsVatRegistered`
abbrev pub is_charged : CalculateTicketSaleTaxInput → TicketSaleLineInput → Bool
is_charged input line =
    is_standard_rated line.event_supply_treatment
    && organizer_is_registered input.organizer_vat_registration_status

-- The warnings that one line adds.
unfoldable pub line_warnings : CalculateTicketSaleTaxInput → TicketSaleLineInput → List SaleWarning
line_warnings input line =
    (if needs_review line.event_supply_treatment
      then SaleWarning.treatment_requires_review line.ticket_type_id ∷ []
      else [])
    ++ (if is_standard_rated line.event_supply_treatment
          && not (organizer_is_registered input.organizer_vat_registration_status)
        then SaleWarning.organizer_not_registered line.ticket_type_id
            input.organizer_vat_registration_status
          ∷ []
        else [])

-- The branch for a standard-rated line of a registered organizer, once its VAT is split.
unfoldable pub add_charged :
    TicketSaleTaxRates → TicketSaleLineInput → TicketTotals → FeeVatResult → TicketTotals
add_charged rates line t r = record t {
  organizer_ticket_proceeds_gross = add_money t.organizer_ticket_proceeds_gross r.gross;
  organizer_ticket_net_of_vat =
      some (add_money (or_else t.organizer_ticket_net_of_vat zero_kes) r.net);
  organizer_ticket_output_vat =
      some (add_money (or_else t.organizer_ticket_output_vat zero_kes) r.vat);
  any_ticket_vat_computed = true;
  components =
      t.components
      ++ record {
        code = TaxCode.organizer_ticket_output_vat;
        owner = ComponentOwner.organizer;
        tax_base = r.net;
        rate_bps = rates.organizer_vat_rate_bps;
        tax_amount = r.vat;
        formula =
            Formula.extracted line.ticket_type_id (listed_price line).minor_units
              rates.organizer_vat_rate_bps;
      }
        ∷ [];
}

-- The branch for every other line: no VAT.
unfoldable pub add_uncharged :
    CalculateTicketSaleTaxInput → TicketSaleLineInput → TicketTotals → TicketTotals
add_uncharged input line t = record t {
  organizer_ticket_proceeds_gross = add_money t.organizer_ticket_proceeds_gross (listed_price line);
  components =
      t.components
      ++ record {
        code = TaxCode.organizer_ticket_output_vat;
        owner = ComponentOwner.organizer;
        tax_base = listed_price line;
        rate_bps = 0;
        tax_amount = money (pos 0) input.currency;
        formula =
            Formula.no_vat line.event_supply_treatment input.organizer_vat_registration_status;
      }
        ∷ [];
}

-- One round of the loop.
unfoldable pub sale_line :
    CalculateTicketSaleTaxInput
    → TicketSaleTaxRates
    → TicketTotals
    → TicketSaleLineInput
    → Checked TicketTotals
sale_line input rates t line =
    let t' : TicketTotals = record t {
      ticket_face_value_gross = add_money t.ticket_face_value_gross (listed_price line);
      warnings = t.warnings ++ line_warnings input line;
    } in
    if is_charged input line
    then (do
      r ←
          split_by_mode (listed_price line) line.ticket_pricing_mode rates.organizer_vat_rate_bps
            rates.organizer_rounding_mode
      ok (add_charged rates line t' r))
    else ok (add_uncharged input line t')

unfoldable pub sale_lines :
    CalculateTicketSaleTaxInput
    → TicketSaleTaxRates
    → TicketTotals
    → List TicketSaleLineInput
    → Checked TicketTotals
sale_lines input rates t [] = ok t
sale_lines input rates t (line ∷ lines) = do
  t' ← sale_line input rates t line
  sale_lines input rates t' lines
