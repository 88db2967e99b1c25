-- ===== src/Tax/Sale/Components.antt =====
-- The components of a calculation against its totals.
use ticketflow_kenya.Base.{
  ℕ, ◌≡◌, refl, Bool, true, List, [], ◌∷◌, ◌++◌, Option, none, some, ok, arith, ap, ◌∙◌, ◌⊎◌, inl,
  inr, Bool-cases,
}
use ticketflow_kenya.Base.Int.{ℤ, pos, ◌+ℤ◌, int_laws}
use ticketflow_kenya.Base.Sums.{sum_of, sum_of-append, sum_of-snoc}
use ticketflow_kenya.Tax.Money.{Money}
use ticketflow_kenya.Tax.Types.{RecordId, ComponentOwner}
use ticketflow_kenya.Tax.Fees.{FeeVatResult}
use ticketflow_kenya.Tax.Fees.Split.{IsExact, split_of-IsExact, fee_of-IsExact}
use ticketflow_kenya.Tax.Sale.{
  ServiceFee, TicketSaleLineInput, CalculateTicketSaleTaxInput, TicketSaleTaxRates,
  TicketSaleTaxBase, TicketSaleTaxCalculation, TaxCalculationComponent,
}
use ticketflow_kenya.Tax.Sale.Lines.{
  TicketTotals, no_totals, is_charged, add_charged, add_uncharged,
}
use ticketflow_kenya.Tax.Sale.Calculate.{
  sale_base, calculate_ticket_sale_tax, booking_components, commission_components, fee_component,
  when_computed,
}
use ticketflow_kenya.Tax.Sale.Closed.{
  next_totals, all_totals, fee_result, order_totals, order_base, calculate-eq-ok, noted,
}

abbrev pub base_and_tax : TaxCalculationComponent → ℤ
base_and_tax c = c.tax_base.minor_units +ℤ c.tax_amount.minor_units

-- The tax of a component that the owner owes, 0 for another's.
abbrev pub organizer_tax : TaxCalculationComponent → ℤ
organizer_tax c = elim c.owner [ ComponentOwner.organizer ↦ c.tax_amount.minor_units | _ ↦ pos 0 ]

abbrev pub ticket_flow_tax : TaxCalculationComponent → ℤ
ticket_flow_tax c = elim c.owner [
  | ComponentOwner.ticket_flow ↦ c.tax_amount.minor_units
  | _ ↦ pos 0
]

-- The amount of an optional sum of money, 0 where there is none.
abbrev pub minor_or_zero : Option Money → ℤ
minor_or_zero none = pos 0
minor_or_zero (some m) = m.minor_units

-- What holds of the totals after any number of lines.
pub record IsAccounted (t : TicketTotals) : Type 0 where
  pub proceeds : sum_of base_and_tax t.components ≡ t.organizer_ticket_proceeds_gross.minor_units
  pub organizer_vat :
      sum_of organizer_tax t.components ≡ minor_or_zero t.organizer_ticket_output_vat
  pub no_platform_vat : sum_of ticket_flow_tax t.components ≡ pos 0
  pub flagged : (t.any_ticket_vat_computed ≡ true) ⊎ (t.organizer_ticket_output_vat ≡ none)

add_charged-IsAccounted :
    (rates : TicketSaleTaxRates) (line : TicketSaleLineInput) (t : TicketTotals) (r : FeeVatResult)
    → IsExact r
    → IsAccounted t
    → IsAccounted (add_charged rates line t r)
unfolding add_charged
add_charged-IsAccounted rates line t r e a = record {
  proceeds = rw (sum_of-snoc base_and_tax t.components, a.proceeds, e);
  organizer_vat = rw (sum_of-snoc organizer_tax t.components, a.organizer_vat) (ground arith);
  no_platform_vat =
      rw (sum_of-snoc ticket_flow_tax t.components, a.no_platform_vat) (omega int_laws);
  flagged = inl refl;
}

add_uncharged-IsAccounted :
    (input : CalculateTicketSaleTaxInput) (line : TicketSaleLineInput) (t : TicketTotals)
    → IsAccounted t
    → IsAccounted (add_uncharged input line t)
unfolding add_uncharged
add_uncharged-IsAccounted input line t a = record {
  proceeds = rw (sum_of-snoc base_and_tax t.components, a.proceeds) (omega int_laws);
  organizer_vat = rw (sum_of-snoc organizer_tax t.components, a.organizer_vat) (omega int_laws);
  no_platform_vat =
      rw (sum_of-snoc ticket_flow_tax t.components, a.no_platform_vat) (omega int_laws);
  flagged = a.flagged;
}

noted-IsAccounted :
    (input : CalculateTicketSaleTaxInput) (t : TicketTotals) (line : TicketSaleLineInput)
    → IsAccounted t
    → IsAccounted (noted input t line)
noted-IsAccounted input t line a = record {
  proceeds = a.proceeds;
  organizer_vat = a.organizer_vat;
  no_platform_vat = a.no_platform_vat;
  flagged = a.flagged;
}

next_totals-IsAccounted :
    (input : CalculateTicketSaleTaxInput) (rates : TicketSaleTaxRates) (t : TicketTotals)
    (line : TicketSaleLineInput)
    → IsAccounted t
    → IsAccounted (next_totals input rates t line)
unfolding next_totals
next_totals-IsAccounted input rates t line a = elim (Bool-cases (is_charged input line)) [
  | inl charged ↦ rw charged (
      add_charged-IsAccounted rates line _ _ (split_of-IsExact _ line.ticket_pricing_mode _ _)
        (noted-IsAccounted input t line a))
  | inr uncharged ↦
      rw uncharged (add_uncharged-IsAccounted input line _ (noted-IsAccounted input t line a))
]

all_totals-IsAccounted :
    (input : CalculateTicketSaleTaxInput) (rates : TicketSaleTaxRates) (t : TicketTotals)
    (lines : List TicketSaleLineInput)
    → IsAccounted t
    → IsAccounted (all_totals input rates t lines)
unfolding all_totals
all_totals-IsAccounted input rates t [] a = a
all_totals-IsAccounted input rates t (line ∷ lines) a =
    all_totals-IsAccounted input rates (next_totals input rates t line) lines
      (next_totals-IsAccounted input rates t line a)

order_totals-IsAccounted :
    (input : CalculateTicketSaleTaxInput) (rates : TicketSaleTaxRates)
    → IsAccounted (order_totals input rates)
unfolding order_totals
order_totals-IsAccounted input rates =
    all_totals-IsAccounted input rates (no_totals input.currency) input.ticket_lines
      (record { proceeds = refl; organizer_vat = refl; no_platform_vat = refl; flagged = inr refl })

-- The components of an optional fee: base and tax add up to its gross, and the tax is TicketFlow's.
booking-accounted :
    (input : CalculateTicketSaleTaxInput) (rates : TicketSaleTaxRates) (face : Money)
    (fee : Option ServiceFee)
    → let r = fee_result input rates face fee in
      let components = booking_components input rates r fee in
      (sum_of base_and_tax components ≡ r.gross.minor_units)
      × (sum_of organizer_tax components ≡ pos 0)
      × (sum_of ticket_flow_tax components ≡ r.vat.minor_units)
unfolding booking_components fee_result fee_component
booking-accounted input rates face none = (refl, refl, refl)
booking-accounted input rates face (some fee) =
    (rw (fee_of-IsExact _ fee.pricing_mode _ _ _) (omega int_laws), omega int_laws, omega int_laws)

commission-accounted :
    (input : CalculateTicketSaleTaxInput) (rates : TicketSaleTaxRates) (face : Money)
    (fee : Option ServiceFee)
    → let r = fee_result input rates face fee in
      let components = commission_components input rates r fee in
      (sum_of base_and_tax components ≡ r.gross.minor_units)
      × (sum_of organizer_tax components ≡ pos 0)
      × (sum_of ticket_flow_tax components ≡ r.vat.minor_units)
unfolding commission_components fee_result fee_component
commission-accounted input rates face none = (refl, refl, refl)
commission-accounted input rates face (some fee) =
    (rw (fee_of-IsExact _ fee.pricing_mode _ _ _) (omega int_laws), omega int_laws, omega int_laws)

when_computed-minor :
    (b : Bool) (m : Option Money)
    → (b ≡ true) ⊎ (m ≡ none)
    → minor_or_zero (when_computed b m) ≡ minor_or_zero m
when_computed-minor b m h = ground arith

-- A sum over the ticket lines' components and those of two fees.
sum_of-three :
    (f : TaxCalculationComponent → ℤ) (xs ys zs : List TaxCalculationComponent)
    → sum_of f (xs ++ (ys ++ zs)) ≡ sum_of f xs +ℤ (sum_of f ys +ℤ sum_of f zs)
sum_of-three f xs ys zs =
    sum_of-append f xs (ys ++ zs) ∙ ap (λ e. sum_of f xs +ℤ e) (sum_of-append f ys zs)

-- The components of a result account for its totals.
pub record Accounts (b : TicketSaleTaxBase) : Type 0 where
  pub everything :
      sum_of base_and_tax b.components
      ≡ b.organizer_ticket_proceeds_gross.minor_units
        +ℤ (b.booking_fee_gross.minor_units +ℤ b.commission_gross.minor_units)
  pub organizers : sum_of organizer_tax b.components ≡ minor_or_zero b.organizer_ticket_output_vat
  pub ticket_flows :
      sum_of ticket_flow_tax b.components
      ≡ b.booking_fee_vat.minor_units +ℤ b.commission_vat.minor_units

order_base-Accounts :
    (input : CalculateTicketSaleTaxInput) (rates : TicketSaleTaxRates) (id : RecordId)
    → Accounts (order_base input rates id)
unfolding sale_base
order_base-Accounts input rates id =
    let t = order_totals input rates in
    let a = order_totals-IsAccounted input rates in
    let face = t.ticket_face_value_gross in
    let b = booking-accounted input rates face input.customer_booking_fee in
    let c = commission-accounted input rates face input.organizer_commission in
    record {
      everything = rw (sum_of-three base_and_tax t.components, a.proceeds, b.0, c.0);
      organizers =
          rw (sum_of-three organizer_tax t.components, a.organizer_vat, b.1, c.1)
            (rw (when_computed-minor t.any_ticket_vat_computed _ a.flagged) (omega int_laws));
      ticket_flows =
          rw (sum_of-three ticket_flow_tax t.components, a.no_platform_vat, b.2, c.2)
            (omega int_laws);
    }

-- The components that a calculation returns account for its totals: their bases and taxes add up to
-- the ticket proceeds and the two fees, the organizer's taxes to the organizer's output VAT (0 where
-- there is none), and TicketFlow's taxes to the VAT of its two fees.
pub components_account :
    (stable_hash : CalculateTicketSaleTaxInput → TicketSaleTaxRates → TicketSaleTaxBase → ℕ)
    (id : RecordId) (input : CalculateTicketSaleTaxInput) (rates : TicketSaleTaxRates)
    (c : TicketSaleTaxCalculation)
    → calculate_ticket_sale_tax stable_hash id input rates ≡ ok c
    → Accounts c.base
components_account stable_hash id input rates c returned =
    rw (calculate-eq-ok stable_hash id input rates c returned) (order_base-Accounts input rates id)
