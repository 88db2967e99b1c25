-- ===== src/Tax/Ledger/SaleEntries.antt =====
-- The entries that `postTicketSale` posts for a calculation.
use ticketflow_kenya.Base.{
  ◌≡◌, refl, ap, sym, ◌∙◌, Bool, true, false, ◌&&◌, List, [], ◌∷◌, ◌++◌, arith, All, if◌then◌else◌,
  Bool-cases, inl, inr,
}
use ticketflow_kenya.Base.Int.{ℤ, pos, ◌+ℤ◌, ◌-ℤ◌, -ℤ◌, ◌≤ℤ◌, int_laws}
use ticketflow_kenya.Base.Sums.{sum_of, sum_of-append}
use ticketflow_kenya.Tax.Types.{ChargeBearer}
use ticketflow_kenya.Tax.Sale.Calculate.{bears}
use ticketflow_kenya.Tax.Ledger.{
  LedgerAccountCode, organizer_payable, booking_fee_revenue, ticketflow_vat_payable,
  processor_payable_clearing, commission_revenue, ticket_sale, ticket_sale_commission,
  ticket_sale_processor_charge, JournalLineInput, JournalLine, Journal, to_line, to_lines, entry_of,
  line_amount,
}
use ticketflow_kenya.Tax.Ledger.Balance.{IsBalanced, IsNonnegLine}
use ticketflow_kenya.Tax.Ledger.TicketSale.{
  TicketSaleParams, credit, is_positive, push_if, sale_entry, settlement_lines, commission_lines,
  charge_lines,
}

-- A measure of a line by its account and its `debit - credit`.
abbrev pub Measure : Type 0
Measure = LedgerAccountCode → ℤ → ℤ

abbrev pub measure : Measure → JournalLine → ℤ
measure g line = g line.account_code (line_amount line)

-- A line of 0 measures 0.
abbrev pub Vanishes : Measure → Type 0
Vanishes g = (a : LedgerAccountCode) → g a (pos 0) ≡ pos 0

pub to_lines-append :
    (xs ys : List JournalLineInput) → to_lines (xs ++ ys) ≡ to_lines xs ++ to_lines ys
unfolding to_lines
to_lines-append [] ys = refl
to_lines-append (x ∷ xs) ys = ap (λ l. to_line x ∷ l) (to_lines-append xs ys)

pub sum_of-lines-append :
    (g : Measure) (xs ys : List JournalLineInput)
    → sum_of (measure g) (to_lines (xs ++ ys))
      ≡ sum_of (measure g) (to_lines xs) +ℤ sum_of (measure g) (to_lines ys)
sum_of-lines-append g xs ys =
    ap (sum_of (measure g)) (to_lines-append xs ys)
    ∙ sum_of-append (measure g) (to_lines xs) (to_lines ys)

pub not_positive : (n : ℤ) → is_positive n ≡ false → pos 0 ≤ℤ n → n ≡ pos 0
not_positive n h k = ground arith

amount_zero : pos 0 -ℤ pos 0 ≡ pos 0
amount_zero = omega int_laws

sum_one : (n : ℤ) → n +ℤ pos 0 ≡ n
sum_one n = omega int_laws

-- A credit that is pushed only when it is positive measures as if it were always pushed.
pub push-measure :
    (g : Measure) (a : LedgerAccountCode) (n : ℤ)
    → Vanishes g
    → pos 0 ≤ℤ n
    → sum_of (measure g) (to_lines (push_if (is_positive n) (credit a n))) ≡ g a (pos 0 -ℤ n)
unfolding to_lines
push-measure g a n v h = elim (Bool-cases (is_positive n)) [
  | inl positive ↦ rw positive (sum_one _)
  | inr zero ↦ rw (zero, not_positive n zero h, amount_zero) (sym (v a))
]

-- The same under a further condition.
pub push_and-measure :
    (g : Measure) (a : LedgerAccountCode) (b : Bool) (n : ℤ)
    → Vanishes g
    → pos 0 ≤ℤ n
    → sum_of (measure g) (to_lines (push_if (b && is_positive n) (credit a n)))
      ≡ g a (pos 0 -ℤ (if b then n else pos 0))
unfolding to_lines
push_and-measure g a true n v h = push-measure g a n v h
push_and-measure g a false n v h = rw amount_zero (sym (v a))

-- What the customer pays of the processor's charge.
abbrev pub customer_charge : TicketSaleParams → ℤ
customer_charge p =
    if bears p.processor_charge_bearer ChargeBearer.customer
    then p.calculation.processor_charge.minor_units
    else pos 0

-- What `postTicketSale` needs of its calculation.
pub record IsPostable (p : TicketSaleParams) : Type 0 where
  pub paid :
      p.calculation.customer_payment.minor_units
      ≡ p.calculation.organizer_ticket_proceeds_gross.minor_units
        +ℤ p.calculation.booking_fee_gross.minor_units
        +ℤ customer_charge p
  pub booking_exact :
      p.calculation.booking_fee_net.minor_units +ℤ p.calculation.booking_fee_vat.minor_units
      ≡ p.calculation.booking_fee_gross.minor_units
  pub commission_exact :
      p.calculation.commission_net.minor_units +ℤ p.calculation.commission_vat.minor_units
      ≡ p.calculation.commission_gross.minor_units
  pub proceeds_nonneg : pos 0 ≤ℤ p.calculation.organizer_ticket_proceeds_gross.minor_units
  pub booking_net_nonneg : pos 0 ≤ℤ p.calculation.booking_fee_net.minor_units
  pub booking_vat_nonneg : pos 0 ≤ℤ p.calculation.booking_fee_vat.minor_units
  pub commission_net_nonneg : pos 0 ≤ℤ p.calculation.commission_net.minor_units
  pub commission_vat_nonneg : pos 0 ≤ℤ p.calculation.commission_vat.minor_units
  pub charge_nonneg : pos 0 ≤ℤ p.calculation.processor_charge.minor_units

module _ (g : Measure) (v : Vanishes g) (p : TicketSaleParams) (ok_sale : IsPostable p) where
  open p use {calculation as c}

  pub settlement-measure :
      sum_of (measure g) (to_lines (settlement_lines p))
      ≡ g p.clearing_account (c.customer_payment.minor_units -ℤ pos 0)
        +ℤ (g organizer_payable (pos 0 -ℤ c.organizer_ticket_proceeds_gross.minor_units)
            +ℤ (g booking_fee_revenue (pos 0 -ℤ c.booking_fee_net.minor_units)
                +ℤ (g ticketflow_vat_payable (pos 0 -ℤ c.booking_fee_vat.minor_units)
                    +ℤ g processor_payable_clearing (pos 0 -ℤ customer_charge p))))
  unfolding settlement_lines to_lines
  settlement-measure = rw (
    sum_of-lines-append g,
    sum_of-lines-append g,
    push-measure g booking_fee_revenue _ v ok_sale.booking_net_nonneg,
    push-measure g ticketflow_vat_payable _ v ok_sale.booking_vat_nonneg,
    push_and-measure g processor_payable_clearing _ _ v ok_sale.charge_nonneg,
  )

  pub commission-measure :
      sum_of (measure g) (to_lines (commission_lines p))
      ≡ g organizer_payable (c.commission_gross.minor_units -ℤ pos 0)
        +ℤ (g commission_revenue (pos 0 -ℤ c.commission_net.minor_units)
            +ℤ g ticketflow_vat_payable (pos 0 -ℤ c.commission_vat.minor_units))
  unfolding commission_lines to_lines
  commission-measure = rw (
    sum_of-lines-append g,
    push-measure g commission_revenue _ v ok_sale.commission_net_nonneg,
    push-measure g ticketflow_vat_payable _ v ok_sale.commission_vat_nonneg,
  )

-- A line that is pushed under a condition has no negative amount if its amount is not negative.
push-nonneg :
    (b : Bool) (a : LedgerAccountCode) (n : ℤ)
    → pos 0 ≤ℤ n
    → All IsNonnegLine (to_lines (push_if b (credit a n)))
unfolding to_lines
push-nonneg true a n h = ((omega arith, h), tt)
push-nonneg false a n h = tt

pushed-nonneg :
    (b : Bool) (a : LedgerAccountCode) (n : ℤ) (lines : List JournalLineInput)
    → pos 0 ≤ℤ n
    → All IsNonnegLine (to_lines lines)
    → All IsNonnegLine (to_lines (push_if b (credit a n) ++ lines))
unfolding to_lines
pushed-nonneg true a n lines h k = ((omega arith, h), k)
pushed-nonneg false a n lines h k = k

-- The measure by which an entry balances.
abbrev every_account : Measure
every_account a n = n

module _ (p : TicketSaleParams) (ok_sale : IsPostable p) (j : Journal) where
  open p use {calculation as c}

  pub settlement-IsBalanced :
      pos 0 ≤ℤ c.customer_payment.minor_units
      → IsBalanced (entry_of (sale_entry p ticket_sale (settlement_lines p)) j)
  unfolding settlement_lines to_lines
  settlement-IsBalanced h = record {
    balances =
        settlement-measure every_account (λ a. refl) p ok_sale
        ∙ rw (ok_sale.paid, ← ok_sale.booking_exact) (omega int_laws);
    nonneg = (
      (h, omega arith),
      (
        (omega arith, ok_sale.proceeds_nonneg),
        pushed-nonneg (is_positive c.booking_fee_net.minor_units) booking_fee_revenue _ _
            ok_sale.booking_net_nonneg
            (pushed-nonneg (is_positive c.booking_fee_vat.minor_units) ticketflow_vat_payable _ _
              ok_sale.booking_vat_nonneg
              (push-nonneg
                (bears p.processor_charge_bearer ChargeBearer.customer
                  && is_positive c.processor_charge.minor_units)
                processor_payable_clearing _ ok_sale.charge_nonneg)),
      ),
    );
  }

  pub commission-IsBalanced :
      pos 0 ≤ℤ c.commission_gross.minor_units
      → IsBalanced (entry_of (sale_entry p ticket_sale_commission (commission_lines p)) j)
  unfolding commission_lines to_lines
  commission-IsBalanced h = record {
    balances =
        commission-measure every_account (λ a. refl) p ok_sale
        ∙ rw (← ok_sale.commission_exact) (omega int_laws);
    nonneg = (
      (h, omega arith),
      pushed-nonneg (is_positive c.commission_net.minor_units) commission_revenue _ _
          ok_sale.commission_net_nonneg
          (push-nonneg (is_positive c.commission_vat.minor_units) ticketflow_vat_payable _
            ok_sale.commission_vat_nonneg),
    );
  }

pub charge-IsBalanced :
    (p : TicketSaleParams) (ok_sale : IsPostable p) (b : ChargeBearer) (j : Journal)
    → IsBalanced (entry_of (sale_entry p ticket_sale_processor_charge (charge_lines p b)) j)
unfolding charge_lines to_lines
charge-IsBalanced p ok_sale ChargeBearer.ticket_flow j = record {
  balances = omega int_laws;
  nonneg = ((ok_sale.charge_nonneg, omega arith), ((omega arith, ok_sale.charge_nonneg), tt));
}
charge-IsBalanced p ok_sale ChargeBearer.organizer j = record {
  balances = omega int_laws;
  nonneg = ((ok_sale.charge_nonneg, omega arith), ((omega arith, ok_sale.charge_nonneg), tt));
}
charge-IsBalanced p ok_sale ChargeBearer.customer j = record { balances = refl; nonneg = tt }
