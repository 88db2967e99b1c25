-- ===== src/Tax/Sale/Principal.antt =====
-- The revenue that TicketFlow recognizes as a principal reseller.
use ticketflow_kenya.Base.{
  ℕ, ◌≡◌, refl, Bool, List, [], ◌∷◌, Option, some, ok, arith, if◌then◌else◌, inl, inr, Bool-cases,
}
use ticketflow_kenya.Base.Int.{ℤ, pos, ◌+ℤ◌, ◌-ℤ◌, int_laws}
use ticketflow_kenya.Base.Sums.{sum_of}
use ticketflow_kenya.Tax.Money.{Money, money}
use ticketflow_kenya.Tax.Types.{RecordId, principal_reseller}
use ticketflow_kenya.Tax.Fees.{FeeVatResult}
use ticketflow_kenya.Tax.Fees.Split.{IsExact, split_of-IsExact}
use ticketflow_kenya.Tax.Sale.{
  TicketSaleLineInput, CalculateTicketSaleTaxInput, TicketSaleTaxRates, TicketSaleTaxBase,
  TicketSaleTaxCalculation,
}
use ticketflow_kenya.Tax.Sale.Lines.{
  TicketTotals, no_totals, or_else, listed_price, is_charged, add_charged, add_uncharged,
}
use ticketflow_kenya.Tax.Sale.Calculate.{
  sale_base, calculate_ticket_sale_tax, cash_flows, when_computed,
}
use ticketflow_kenya.Tax.Sale.Closed.{
  next_totals, all_totals, order_totals, order_booking, order_commission, calculate-eq-ok,
  line_split, noted,
}
use ticketflow_kenya.Tax.Sale.Cash.{fee_result-IsExact}
use ticketflow_kenya.Tax.Sale.Components.{minor_or_zero}

-- The listed price of a line for which no VAT is computed, 0 for any other.
abbrev pub uncharged_value : CalculateTicketSaleTaxInput → TicketSaleLineInput → ℤ
uncharged_value input line =
    if is_charged input line then pos 0 else (listed_price line).minor_units

-- The net and the VAT of the charged lines so far.
abbrev charged_total : TicketTotals → ℤ
charged_total t =
    minor_or_zero t.organizer_ticket_net_of_vat +ℤ minor_or_zero t.organizer_ticket_output_vat

add_charged-total :
    (rates : TicketSaleTaxRates) (line : TicketSaleLineInput) (t : TicketTotals) (r : FeeVatResult)
    → IsExact r
    → (add_charged rates line t r).organizer_ticket_proceeds_gross.minor_units
        -ℤ charged_total (add_charged rates line t r)
      ≡ t.organizer_ticket_proceeds_gross.minor_units -ℤ charged_total t
unfolding add_charged
add_charged-total rates line t r e = grind int_laws

next_totals-total :
    (input : CalculateTicketSaleTaxInput) (rates : TicketSaleTaxRates) (t : TicketTotals)
    (line : TicketSaleLineInput)
    → let t' = next_totals input rates t line in
      t'.organizer_ticket_proceeds_gross.minor_units -ℤ charged_total t'
      ≡ t.organizer_ticket_proceeds_gross.minor_units
        -ℤ charged_total t
        +ℤ uncharged_value input line
unfolding next_totals add_uncharged
next_totals-total input rates t line = elim (Bool-cases (is_charged input line)) [
  | inl charged ↦
      rw
        (
          charged,
          add_charged-total rates line (noted input t line) (line_split rates line) (
              split_of-IsExact (listed_price line) line.ticket_pricing_mode
                rates.organizer_vat_rate_bps rates.organizer_rounding_mode),
        )
        (omega int_laws)
  | inr uncharged ↦ rw uncharged (omega int_laws)
]

all_totals-total :
    (input : CalculateTicketSaleTaxInput) (rates : TicketSaleTaxRates) (t : TicketTotals)
    (lines : List TicketSaleLineInput)
    → let t' = all_totals input rates t lines in
      t'.organizer_ticket_proceeds_gross.minor_units -ℤ charged_total t'
      ≡ t.organizer_ticket_proceeds_gross.minor_units
        -ℤ charged_total t
        +ℤ sum_of (uncharged_value input) lines
unfolding all_totals
all_totals-total input rates t [] = omega int_laws
all_totals-total input rates t (line ∷ lines) =
    rw
      (
        all_totals-total input rates (next_totals input rates t line) lines,
        next_totals-total input rates t line,
      )
      (omega int_laws)

order_totals-total :
    (input : CalculateTicketSaleTaxInput) (rates : TicketSaleTaxRates)
    → let t = order_totals input rates in
      t.organizer_ticket_proceeds_gross.minor_units -ℤ charged_total t
      ≡ sum_of (uncharged_value input) input.ticket_lines
unfolding order_totals
order_totals-total input rates =
    rw (all_totals-total input rates (no_totals input.currency) input.ticket_lines) (omega int_laws)

when_computed-some :
    (b : Bool) (m : Option Money) (n : Money) → when_computed b m ≡ some n → m ≡ some n
when_computed-some b m n h = ground arith

or_else-minor :
    (m : Option Money) (d : Money)
    → d.minor_units ≡ pos 0
    → (or_else m d).minor_units ≡ minor_or_zero m
or_else-minor m d h = ground arith

recognized :
    (net vat proceeds bnet bvat cnet : ℤ)
    → net +ℤ bnet -ℤ cnet +ℤ (vat +ℤ bvat) +ℤ (proceeds -ℤ (net +ℤ vat))
      ≡ proceeds +ℤ (bnet +ℤ bvat) -ℤ cnet
recognized net vat proceeds bnet bvat cnet = omega int_laws

sale_base-principal :
    (input : CalculateTicketSaleTaxInput) (rates : TicketSaleTaxRates) (id : RecordId)
    (t : TicketTotals) (booking commission : FeeVatResult) (n : Money) (rest : ℤ)
    → input.agency_model ≡ principal_reseller
    → IsExact booking
    → t.organizer_ticket_proceeds_gross.minor_units -ℤ charged_total t ≡ rest
    → let b = sale_base input rates id t booking commission in
      b.organizer_ticket_net_of_vat ≡ some n
      → b.ticket_flow_revenue_excluding_vat.minor_units +ℤ b.ticket_flow_output_vat.minor_units
          +ℤ rest
        ≡ b.organizer_ticket_proceeds_gross.minor_units +ℤ b.booking_fee_gross.minor_units
          -ℤ b.commission_net.minor_units
unfolding sale_base cash_flows
sale_base-principal input rates id t booking commission n rest principal e total computed =
    rw
      (
        principal,
        ← e,
        ← total,
        when_computed-some t.any_ticket_vat_computed t.organizer_ticket_net_of_vat n computed,
        or_else-minor t.organizer_ticket_output_vat (money (pos 0) input.currency) refl,
      )
      (recognized n.minor_units (minor_or_zero t.organizer_ticket_output_vat)
        t.organizer_ticket_proceeds_gross.minor_units booking.net.minor_units
        booking.vat.minor_units commission.net.minor_units)

-- As a principal reseller, once VAT was computed for some line, TicketFlow's revenue and output VAT
-- fall short of the ticket proceeds and the booking fee, less the net commission, by the listed
-- price of every line for which no VAT was computed: such lines are left out of the revenue.
pub principal_revenue_omits_uncharged :
    (stable_hash : CalculateTicketSaleTaxInput → TicketSaleTaxRates → TicketSaleTaxBase → ℕ)
    (id : RecordId) (input : CalculateTicketSaleTaxInput) (rates : TicketSaleTaxRates)
    (c : TicketSaleTaxCalculation) (n : Money)
    → calculate_ticket_sale_tax stable_hash id input rates ≡ ok c
    → input.agency_model ≡ principal_reseller
    → c.organizer_ticket_net_of_vat ≡ some n
    → c.ticket_flow_revenue_excluding_vat.minor_units
        +ℤ c.ticket_flow_output_vat.minor_units
        +ℤ sum_of (uncharged_value input) input.ticket_lines
      ≡ c.organizer_ticket_proceeds_gross.minor_units +ℤ c.booking_fee_gross.minor_units
        -ℤ c.commission_net.minor_units
principal_revenue_omits_uncharged stable_hash id input rates c n returned principal computed =
    let same = calculate-eq-ok stable_hash id input rates c returned in
    rw same (
      sale_base-principal input rates id (order_totals input rates) (order_booking input rates)
        (order_commission input rates) n _ principal (fee_result-IsExact input rates _ _)
        (order_totals-total input rates) (rw same at computed))
