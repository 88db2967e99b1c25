-- ===== src/Tax/Ledger/SaleAgreement.antt =====
-- The ledger against the calculation: what posting a calculated sale does to the accounts.
use mathlib.Core.Logic.{ite, if_pos, if_neg}
use ticketflow_kenya.Base.{
  ℕ, ◌≡◌, refl, ap, ◌∙◌, false, List, ◌++◌, Option, ok, All, if◌then◌else◌, ◌⊎◌, inl, inr,
}
use ticketflow_kenya.Base.Int.{ℤ, pos, ◌+ℤ◌, ◌-ℤ◌, int_laws, leb_ℤ}
use ticketflow_kenya.Base.Sums.{sum_of-append}
use ticketflow_kenya.Tax.Types.{RecordId, ChargeBearer, disclosed_agent}
use ticketflow_kenya.Tax.Fees.{FeeVatResult}
use ticketflow_kenya.Tax.Fees.Split.{IsExact, IsNonneg}
use ticketflow_kenya.Tax.Money.{Money, money, sub_money}
use ticketflow_kenya.Tax.Sale.{
  CalculateTicketSaleTaxInput, TicketSaleTaxRates, TicketSaleTaxBase, TicketSaleTaxCalculation,
}
use ticketflow_kenya.Tax.Sale.Lines.{TicketTotals, or_else}
use ticketflow_kenya.Tax.Sale.Calculate.{
  sale_base, cash_flows, customer_payment_of, calculate_ticket_sale_tax, bears, less_charge,
}
use ticketflow_kenya.Tax.Sale.Closed.{
  order_totals, order_booking, order_commission, order_base, calculate-eq-ok,
}
use ticketflow_kenya.Tax.Sale.Cash.{fee_result-IsExact}
use ticketflow_kenya.Tax.Sale.Nonneg.{
  IsNonnegInput, IsNonnegMoney, TotalsNonneg, order_totals-nonneg, order_booking-IsNonneg,
  order_commission-IsNonneg, charge-nonneg,
}
use ticketflow_kenya.Tax.Ledger.{
  LedgerAccountCode, LedgerAccountCode-discrete, cash_mpesa_clearing, organizer_payable,
  booking_fee_revenue, ticketflow_vat_payable, commission_revenue, JournalEntry, Journal,
  account_balance,
}
use ticketflow_kenya.Tax.Ledger.Balance.{IsBalanced}
use ticketflow_kenya.Tax.Ledger.TicketSale.{TicketSaleParams, post_ticket_sale}
use ticketflow_kenya.Tax.Ledger.SaleEntries.{Measure, Vanishes, IsPostable}
use ticketflow_kenya.Tax.Ledger.SalePosting.{posted, Posts, sale_effect, post_ticket_sale-Posts}

-- The parameters with which the calculation's service posts a sale.
abbrev pub sale_params :
    CalculateTicketSaleTaxInput
    → RecordId
    → RecordId
    → LedgerAccountCode
    → Option RecordId
    → TicketSaleTaxBase
    → TicketSaleParams
sale_params input order organizer clearing by base = record {
  calculation = base;
  order_id = order;
  organizer_id = organizer;
  clearing_account = clearing;
  processor_charge_bearer = input.processor_charge_bearer;
  posted_by = by;
}

customer_pays :
    (b : ChargeBearer) (t : TicketTotals) (booking : FeeVatResult) (charge : Money)
    → (customer_payment_of b t booking charge).minor_units
      ≡ t.organizer_ticket_proceeds_gross.minor_units
        +ℤ booking.gross.minor_units
        +ℤ (if bears b ChargeBearer.customer then charge.minor_units else pos 0)
unfolding customer_payment_of
customer_pays ChargeBearer.customer t booking charge = refl
customer_pays ChargeBearer.ticket_flow t booking charge = omega int_laws
customer_pays ChargeBearer.organizer t booking charge = omega int_laws

settled :
    (b : ChargeBearer) (amount charge : Money)
    → (less_charge b ChargeBearer.organizer charge amount).minor_units
      ≡ amount.minor_units -ℤ (if bears b ChargeBearer.organizer then charge.minor_units else pos 0)
settled ChargeBearer.organizer amount charge = refl
settled ChargeBearer.ticket_flow amount charge = omega int_laws
settled ChargeBearer.customer amount charge = omega int_laws

module _ (input : CalculateTicketSaleTaxInput) (rates : TicketSaleTaxRates)
    (id order organizer : RecordId) (clearing : LedgerAccountCode) (by : Option RecordId) where
  sale_base-IsPostable :
      (t : TicketTotals) (booking commission : FeeVatResult)
      → IsExact booking
      → IsExact commission
      → TotalsNonneg t
      → IsNonneg booking
      → IsNonneg commission
      → IsNonnegMoney (or_else input.processor_charge (money (pos 0) input.currency))
      → IsPostable (
          sale_params input order organizer clearing by
            (sale_base input rates id t booking commission))
  unfolding sale_base customer_payment_of
  sale_base-IsPostable t booking commission e f h b c k = record {
    paid =
        customer_pays input.processor_charge_bearer t booking
          (or_else input.processor_charge (money (pos 0) input.currency));
    booking_exact = e;
    commission_exact = f;
    proceeds_nonneg = h.1;
    booking_net_nonneg = b.net_nonneg;
    booking_vat_nonneg = b.vat_nonneg;
    commission_net_nonneg = c.net_nonneg;
    commission_vat_nonneg = c.vat_nonneg;
    charge_nonneg = k;
  }

-- The measure that reads one account.
abbrev in_account : LedgerAccountCode → Measure
in_account a b n = ite (LedgerAccountCode-discrete b a) n (pos 0)

in_account-Vanishes : (a : LedgerAccountCode) → Vanishes (in_account a)
in_account-Vanishes a b = elim (LedgerAccountCode-discrete b a) [
  | yes same ↦ rw (if_pos _ same) refl
  | no other ↦ rw (if_neg _ other) refl
]

account_balance-append :
    (a : LedgerAccountCode) (j es : Journal)
    → account_balance a (j ++ es) ≡ account_balance a j +ℤ posted (in_account a) es
unfolding account_balance
account_balance-append a j es = sum_of-append _ j es

-- How the calculation's amounts hang together for a disclosed agent.
record IsAgentSale (p : TicketSaleParams) : Type 0 where
  settlement :
      p.calculation.organizer_settlement_before_refunds.minor_units
      ≡ p.calculation.organizer_ticket_proceeds_gross.minor_units
        -ℤ p.calculation.commission_gross.minor_units
        -ℤ (if bears p.processor_charge_bearer ChargeBearer.organizer
            then p.calculation.processor_charge.minor_units
            else pos 0)
  output_vat :
      p.calculation.ticket_flow_output_vat.minor_units
      ≡ p.calculation.booking_fee_vat.minor_units +ℤ p.calculation.commission_vat.minor_units
  revenue :
      p.calculation.ticket_flow_revenue_excluding_vat.minor_units
      ≡ p.calculation.booking_fee_net.minor_units +ℤ p.calculation.commission_net.minor_units

sale_base-IsAgentSale :
    (input : CalculateTicketSaleTaxInput) (rates : TicketSaleTaxRates)
    (id order organizer : RecordId) (clearing : LedgerAccountCode) (by : Option RecordId)
    (t : TicketTotals) (booking commission : FeeVatResult)
    → input.agency_model ≡ disclosed_agent
    → IsAgentSale (
        sale_params input order organizer clearing by
          (sale_base input rates id t booking commission))
unfolding sale_base cash_flows
sale_base-IsAgentSale input rates id order organizer clearing by t booking commission agent =
    rw agent (record {
      settlement =
          settled input.processor_charge_bearer
            (sub_money t.organizer_ticket_proceeds_gross commission.gross)
            (or_else input.processor_charge (money (pos 0) input.currency));
      output_vat = refl;
      revenue = refl;
    })

ChargeBearer-cases :
    (b : ChargeBearer)
    → (b ≡ ChargeBearer.ticket_flow) ⊎ ((b ≡ ChargeBearer.organizer) ⊎ (b ≡ ChargeBearer.customer))
ChargeBearer-cases ChargeBearer.ticket_flow = inl refl
ChargeBearer-cases ChargeBearer.organizer = inr (inl refl)
ChargeBearer-cases ChargeBearer.customer = inr (inr refl)

module _ (p : TicketSaleParams) (agent : IsAgentSale p)
    (cash : p.clearing_account ≡ cash_mpesa_clearing) where
  payable_effect :
      sale_effect p (in_account organizer_payable)
      ≡ pos 0 -ℤ p.calculation.organizer_settlement_before_refunds.minor_units
  unfolding LedgerAccountCode-discrete
  payable_effect =
      rw (cash, agent.settlement)
        (elim (ChargeBearer-cases p.processor_charge_bearer) [
          | inl b ↦ rw b (omega int_laws)
          | inr (inl b) ↦ rw b (omega int_laws)
          | inr (inr b) ↦ rw b (omega int_laws)
        ])

  vat_effect :
      sale_effect p (in_account ticketflow_vat_payable)
      ≡ pos 0 -ℤ p.calculation.ticket_flow_output_vat.minor_units
  unfolding LedgerAccountCode-discrete
  vat_effect =
      rw (cash, agent.output_vat)
        (elim (ChargeBearer-cases p.processor_charge_bearer) [
          | inl b ↦ rw b (omega int_laws)
          | inr (inl b) ↦ rw b (omega int_laws)
          | inr (inr b) ↦ rw b (omega int_laws)
        ])

  clearing_effect :
      sale_effect p (in_account cash_mpesa_clearing) ≡ p.calculation.customer_payment.minor_units
  unfolding LedgerAccountCode-discrete
  clearing_effect = rw cash (elim (ChargeBearer-cases p.processor_charge_bearer) [
    | inl b ↦ rw b (omega int_laws)
    | inr (inl b) ↦ rw b (omega int_laws)
    | inr (inr b) ↦ rw b (omega int_laws)
  ])

  revenue_effect :
      sale_effect p (in_account booking_fee_revenue)
        +ℤ sale_effect p (in_account commission_revenue)
      ≡ pos 0 -ℤ p.calculation.ticket_flow_revenue_excluding_vat.minor_units
  unfolding LedgerAccountCode-discrete
  revenue_effect =
      rw (cash, agent.revenue)
        (elim (ChargeBearer-cases p.processor_charge_bearer) [
          | inl b ↦ rw b (omega int_laws)
          | inr (inl b) ↦ rw b (omega int_laws)
          | inr (inr b) ↦ rw b (omega int_laws)
        ])

both_moved : (a b x y r : ℤ) → x +ℤ y ≡ pos 0 -ℤ r → a +ℤ x +ℤ (b +ℤ y) ≡ a +ℤ b -ℤ r
both_moved a b x y r h =
    let together : a +ℤ x +ℤ (b +ℤ y) ≡ a +ℤ b +ℤ (x +ℤ y) = omega int_laws in
    together ∙ rw h (omega int_laws)

-- What the journal `before` has become when the sale with the base `b` has been posted.
pub record SalePosted (p : TicketSaleParams) (before : Journal) (b : TicketSaleTaxBase)
    : Type 0 where
  entries : List JournalEntry
  runs : post_ticket_sale p before ≡ ok (entries, before ++ entries)
  balanced : All IsBalanced entries
  received :
      account_balance cash_mpesa_clearing (before ++ entries)
      ≡ account_balance cash_mpesa_clearing before +ℤ b.customer_payment.minor_units
  owed_to_organizer :
      account_balance organizer_payable (before ++ entries)
      ≡ account_balance organizer_payable before
        -ℤ b.organizer_settlement_before_refunds.minor_units
  owed_as_vat :
      account_balance ticketflow_vat_payable (before ++ entries)
      ≡ account_balance ticketflow_vat_payable before -ℤ b.ticket_flow_output_vat.minor_units
  earned :
      account_balance booking_fee_revenue (before ++ entries)
        +ℤ account_balance commission_revenue (before ++ entries)
      ≡ account_balance booking_fee_revenue before
        +ℤ account_balance commission_revenue before
        -ℤ b.ticket_flow_revenue_excluding_vat.minor_units

Posts-SalePosted :
    (p : TicketSaleParams) (j : Journal)
    → IsAgentSale p
    → p.clearing_account ≡ cash_mpesa_clearing
    → Posts (post_ticket_sale p) j (sale_effect p)
    → SalePosted p j p.calculation
Posts-SalePosted p j agent cash posts = record {
  entries = posts.entries;
  runs = posts.runs;
  balanced = posts.balanced;
  received = moved cash_mpesa_clearing (clearing_effect p agent cash);
  owed_to_organizer = moved organizer_payable (payable_effect p agent cash) ∙ omega int_laws;
  owed_as_vat = moved ticketflow_vat_payable (vat_effect p agent cash) ∙ omega int_laws;
  earned =
      rw
        (
          account_balance-append booking_fee_revenue,
          account_balance-append commission_revenue,
          posts.effect (in_account booking_fee_revenue) (in_account-Vanishes booking_fee_revenue),
          posts.effect (in_account commission_revenue) (in_account-Vanishes commission_revenue),
        )
        (both_moved _ _ _ _ _ (revenue_effect p agent cash));
}
  where
    moved :
        (a : LedgerAccountCode) {n : ℤ}
        → sale_effect p (in_account a) ≡ n
        → account_balance a (j ++ posts.entries) ≡ account_balance a j +ℤ n
    moved a e =
        account_balance-append a j posts.entries
        ∙ ap (λ x. account_balance a j +ℤ x)
            (posts.effect (in_account a) (in_account-Vanishes a) ∙ e)

module _ (stable_hash : CalculateTicketSaleTaxInput → TicketSaleTaxRates → TicketSaleTaxBase → ℕ)
    (id : RecordId) (input : CalculateTicketSaleTaxInput) (rates : TicketSaleTaxRates)
    (c : TicketSaleTaxCalculation)
    (returned : calculate_ticket_sale_tax stable_hash id input rates ≡ ok c) where
  -- A sale that the calculation returned for a disclosed agent, with prices, quantities, fixed
  -- fees and a charge that are not negative and a payment of more than 0, is posted without an
  -- error to the M-Pesa clearing account, for every journal before. All entries balance, and the
  -- balances (debits less credits) move by the amounts of the calculation: the clearing account by
  -- the customer's payment, the organizer's payable by the settlement, the VAT payable by
  -- TicketFlow's output VAT, and the two revenue accounts together by TicketFlow's revenue.
  pub sale_posts_calculation :
      (order organizer : RecordId) (by : Option RecordId) (journal : Journal)
      → input.agency_model ≡ disclosed_agent
      → IsNonnegInput input
      → leb_ℤ c.base.customer_payment.minor_units (pos 0) ≡ false
      → SalePosted (sale_params input order organizer cash_mpesa_clearing by c.base) journal c.base
  sale_posts_calculation order organizer by journal agent valid positive =
      let is_base = calculate-eq-ok stable_hash id input rates c returned in
      rw is_base (
        Posts-SalePosted (params (order_base input rates id)) journal
          (sale_base-IsAgentSale input rates id order organizer cash_mpesa_clearing by
            (order_totals input rates) (order_booking input rates) (order_commission input rates)
            agent)
          refl
          (post_ticket_sale-Posts (params (order_base input rates id)) journal
            (sale_base-IsPostable input rates id order organizer cash_mpesa_clearing by
              (order_totals input rates) (order_booking input rates) (order_commission input rates)
              (fee_result-IsExact input rates _ input.customer_booking_fee)
              (fee_result-IsExact input rates _ input.organizer_commission)
              (order_totals-nonneg input rates valid) (order_booking-IsNonneg input rates valid)
              (order_commission-IsNonneg input rates valid) (charge-nonneg input rates valid))
            (rw is_base at positive)))
    where
      params : TicketSaleTaxBase → TicketSaleParams
      params = sale_params input order organizer cash_mpesa_clearing by
