-- ===== src/Tax/Ledger/SalePosting.antt =====
-- The entries of `postTicketSale` together, and what they add to the balance of each account.
use mathlib.Core.List.{append-nil, append_assoc}
use ticketflow_kenya.Base.{
  ◌≡◌, refl, ◌∙◌, true, false, not, ◌&&◌, List, [], ◌∷◌, ◌++◌, ok, arith, All, All-append,
  Bool-cases, inl, inr,
}
use ticketflow_kenya.Base.Int.{ℤ, pos, negsuc, ◌+ℤ◌, ◌-ℤ◌, -ℤ◌, ◌≤ℤ◌, leb_ℤ, int_laws}
use ticketflow_kenya.Base.Sums.{sum_of, sum_of-append}
use ticketflow_kenya.Tax.Types.{ChargeBearer}
use ticketflow_kenya.Tax.Sale.Calculate.{bears}
use ticketflow_kenya.Tax.Ledger.{
  organizer_payable, booking_fee_revenue, ticketflow_vat_payable, processor_payable_clearing,
  commission_revenue, payment_processing_expense, ticket_sale, ticket_sale_commission,
  ticket_sale_processor_charge, PostJournalEntryInput, JournalEntry, Journal, Posting, ◌>>=◌, pure,
  post_entry, to_lines, entry_of,
}
use ticketflow_kenya.Tax.Ledger.Balance.{IsBalanced, post_entry-accepts}
use ticketflow_kenya.Tax.Ledger.TicketSale.{
  TicketSaleParams, is_positive, sale_entry, settlement_lines, commission_lines, charge_lines,
  post_commission, post_charge, post_ticket_sale,
}
use ticketflow_kenya.Tax.Ledger.SaleEntries.{
  Measure, measure, Vanishes, IsPostable, customer_charge, settlement-measure, commission-measure,
  settlement-IsBalanced, commission-IsBalanced, charge-IsBalanced, not_positive,
}

-- The measure of all lines of some entries.
abbrev pub posted : Measure → List JournalEntry → ℤ
posted g = sum_of (λ (e : JournalEntry). sum_of (measure g) e.lines)

-- A call that adds balanced entries to the journal, with the given measure.
pub record Posts (m : Posting (List JournalEntry)) (j : Journal) (amount : Measure → ℤ)
    : Type 0 where
  pub entries : List JournalEntry
  pub runs : m j ≡ ok (entries, j ++ entries)
  pub balanced : All IsBalanced entries
  pub effect : (g : Measure) → Vanishes g → posted g entries ≡ amount g

abbrev commission_effect : TicketSaleParams → Measure → ℤ
commission_effect p g =
    g organizer_payable (c.commission_gross.minor_units -ℤ pos 0)
    +ℤ (g commission_revenue (pos 0 -ℤ c.commission_net.minor_units)
        +ℤ g ticketflow_vat_payable (pos 0 -ℤ c.commission_vat.minor_units))
  where
    open p use {calculation as c}

abbrev charge_effect : TicketSaleParams → ChargeBearer → Measure → ℤ
charge_effect p ChargeBearer.customer g = pos 0
charge_effect p ChargeBearer.ticket_flow g =
    g payment_processing_expense (p.calculation.processor_charge.minor_units -ℤ pos 0)
    +ℤ g processor_payable_clearing (pos 0 -ℤ p.calculation.processor_charge.minor_units)
charge_effect p ChargeBearer.organizer g =
    g organizer_payable (p.calculation.processor_charge.minor_units -ℤ pos 0)
    +ℤ g processor_payable_clearing (pos 0 -ℤ p.calculation.processor_charge.minor_units)

abbrev settlement_effect : TicketSaleParams → Measure → ℤ
settlement_effect p g =
    g p.clearing_account (c.customer_payment.minor_units -ℤ pos 0)
    +ℤ (g organizer_payable (pos 0 -ℤ c.organizer_ticket_proceeds_gross.minor_units)
        +ℤ (g booking_fee_revenue (pos 0 -ℤ c.booking_fee_net.minor_units)
            +ℤ (g ticketflow_vat_payable (pos 0 -ℤ c.booking_fee_vat.minor_units)
                +ℤ g processor_payable_clearing (pos 0 -ℤ customer_charge p))))
  where
    open p use {calculation as c}

positive_nonneg : (n : ℤ) → is_positive n ≡ true → pos 0 ≤ℤ n
positive_nonneg n h = ground arith

-- Two amounts of at least 0 with the sum 0 are both 0.
both_zero :
    (a b c : ℤ) → a +ℤ b ≡ c → c ≡ pos 0 → pos 0 ≤ℤ a → pos 0 ≤ℤ b → (a ≡ pos 0) × (b ≡ pos 0)
unfolding ◌+ℤ◌
both_zero (pos a) (pos b) c e z h k = ground arith
both_zero (negsuc a) b c e z h k = absurd (omega arith)
both_zero (pos a) (negsuc b) c e z h k = absurd (omega arith)

one_more-Posts :
    (input : PostJournalEntryInput) (j : Journal)
    → IsBalanced (entry_of input j)
    → Posts
        (post_entry input >>= λ e. pure (e ∷ []))
        j
        (λ g. sum_of (measure g) (to_lines input.lines))
one_more-Posts input j b = record {
  entries = entry_of input j ∷ [];
  runs = rw (post_entry-accepts input j b, ◌>>=◌);
  balanced = (b, tt);
  effect = λ g v. omega int_laws;
}

nothing-Posts : (j : Journal) → Posts (pure []) j (λ g. pos 0)
nothing-Posts j = record {
  entries = [];
  runs = rw (append-nil j);
  balanced = tt;
  effect = λ g v. refl;
}

-- The same call with its measure written otherwise.
Posts-as :
    (m : Posting (List JournalEntry)) (j : Journal) (f h : Measure → ℤ)
    → Posts m j f
    → ((g : Measure) → Vanishes g → f g ≡ h g)
    → Posts m j h
Posts-as m j f h posts same = record {
  entries = posts.entries;
  runs = posts.runs;
  balanced = posts.balanced;
  effect = λ g v. posts.effect g v ∙ same g v;
}

sub_zero : (n : ℤ) → n -ℤ pos 0 ≡ n
sub_zero n = omega int_laws

no_commission :
    (p : TicketSaleParams)
    → IsPostable p
    → is_positive p.calculation.commission_gross.minor_units ≡ false
    → (g : Measure) → Vanishes g
    → pos 0 ≡ commission_effect p g
no_commission p ok_sale zero g v =
    let gross_zero : p.calculation.commission_gross.minor_units ≡ pos 0 = not_positive _ zero (
      rw (← ok_sale.commission_exact)
        (omega (int_laws, ok_sale.commission_net_nonneg, ok_sale.commission_vat_nonneg))) in
    let (net_zero, vat_zero) =
      both_zero _ _ _ ok_sale.commission_exact gross_zero ok_sale.commission_net_nonneg
        ok_sale.commission_vat_nonneg in
    rw
      (
        gross_zero,
        net_zero,
        vat_zero,
        sub_zero (pos 0),
        v organizer_payable,
        v commission_revenue,
        v ticketflow_vat_payable,
      )
      (omega int_laws)

no_charge :
    (p : TicketSaleParams) (b : ChargeBearer)
    → IsPostable p
    → (is_positive p.calculation.processor_charge.minor_units
        && not (bears b ChargeBearer.customer))
      ≡ false
    → (g : Measure) → Vanishes g
    → pos 0 ≡ charge_effect p b g
no_charge p ChargeBearer.customer ok_sale zero g v = refl
no_charge p ChargeBearer.ticket_flow ok_sale zero g v =
    rw
      (
        not_positive p.calculation.processor_charge.minor_units (ground arith)
            ok_sale.charge_nonneg,
        sub_zero (pos 0),
        v payment_processing_expense,
        v processor_payable_clearing,
      )
      (omega int_laws)
no_charge p ChargeBearer.organizer ok_sale zero g v =
    rw
      (
        not_positive p.calculation.processor_charge.minor_units (ground arith)
            ok_sale.charge_nonneg,
        sub_zero (pos 0),
        v organizer_payable,
        v processor_payable_clearing,
      )
      (omega int_laws)

charge-measure :
    (p : TicketSaleParams) (b : ChargeBearer) (g : Measure)
    → sum_of (measure g) (to_lines (charge_lines p b)) ≡ charge_effect p b g
unfolding charge_lines to_lines
charge-measure p ChargeBearer.customer g = refl
charge-measure p ChargeBearer.ticket_flow g = omega int_laws
charge-measure p ChargeBearer.organizer g = omega int_laws

module _ (p : TicketSaleParams) (ok_sale : IsPostable p) (j : Journal) where
  open p use {calculation as c}

  commission-Posts : Posts (post_commission p) j (commission_effect p)
  unfolding post_commission
  commission-Posts = elim (Bool-cases (is_positive c.commission_gross.minor_units)) [
    | inl positive ↦ rw positive (
        Posts-as _ j _ _
          (one_more-Posts (sale_entry p ticket_sale_commission (commission_lines p)) j
            (commission-IsBalanced p ok_sale j (positive_nonneg _ positive)))
          (λ g v. commission-measure g v p ok_sale))
    | inr zero ↦ rw zero (Posts-as _ j _ _ (nothing-Posts j) (no_commission p ok_sale zero))
  ]

  charge-Posts : Posts (post_charge p) j (charge_effect p p.processor_charge_bearer)
  unfolding post_charge
  charge-Posts =
      elim (Bool-cases (
        is_positive c.processor_charge.minor_units
        && not (bears p.processor_charge_bearer ChargeBearer.customer))) [
          | inl positive ↦ rw positive (
              Posts-as _ j _ _
                (one_more-Posts
                  (sale_entry p ticket_sale_processor_charge
                    (charge_lines p p.processor_charge_bearer))
                  j (charge-IsBalanced p ok_sale p.processor_charge_bearer j))
                (λ g v. charge-measure p p.processor_charge_bearer g))
          | inr zero ↦ rw zero (
              Posts-as _ j _ _ (nothing-Posts j)
                (no_charge p p.processor_charge_bearer ok_sale zero))
        ]

-- What a posted sale adds, under any measure.
abbrev pub sale_effect : TicketSaleParams → Measure → ℤ
sale_effect p g =
    settlement_effect p g +ℤ (commission_effect p g +ℤ charge_effect p p.processor_charge_bearer g)

posted-append :
    (g : Measure) (xs ys : List JournalEntry) → posted g (xs ++ ys) ≡ posted g xs +ℤ posted g ys
posted-append g xs ys = sum_of-append _ xs ys

-- Three postings in a row add their entries in that order.
in_a_row :
    (m : Posting JournalEntry) (n o : Posting (List JournalEntry)) (j : Journal) (e : JournalEntry)
    (es fs : List JournalEntry)
    → m j ≡ ok (e, j ++ e ∷ [])
    → n (j ++ e ∷ []) ≡ ok (es, (j ++ e ∷ []) ++ es)
    → o ((j ++ e ∷ []) ++ es) ≡ ok (fs, ((j ++ e ∷ []) ++ es) ++ fs)
    → (m >>= λ x. n >>= λ xs. o >>= λ ys. pure (x ∷ (xs ++ ys))) j
      ≡ ok (e ∷ (es ++ fs), j ++ (e ∷ (es ++ fs)))
in_a_row m n o j e es fs h k l = rw (h, ◌>>=◌) (rw (k, ◌>>=◌) (rw (l, ◌>>=◌) (simp append_assoc)))

pub post_ticket_sale-Posts :
    (p : TicketSaleParams) (j : Journal)
    → IsPostable p
    → leb_ℤ p.calculation.customer_payment.minor_units (pos 0) ≡ false
    → Posts (post_ticket_sale p) j (sale_effect p)
unfolding post_ticket_sale
post_ticket_sale-Posts p j ok_sale positive =
    let e = entry_of (sale_entry p ticket_sale (settlement_lines p)) j in
    let b = settlement-IsBalanced p ok_sale j (ground arith) in
    let cs = commission-Posts p ok_sale (j ++ e ∷ []) in
    let fs = charge-Posts p ok_sale ((j ++ e ∷ []) ++ cs.entries) in
    record {
      entries = e ∷ (cs.entries ++ fs.entries);
      runs = rw positive (
          in_a_row (post_entry (sale_entry p ticket_sale (settlement_lines p))) (post_commission p)
            (post_charge p) j e cs.entries fs.entries
            (post_entry-accepts (sale_entry p ticket_sale (settlement_lines p)) j b) cs.runs
            fs.runs);
      balanced = (b, All-append IsBalanced cs.entries fs.entries cs.balanced fs.balanced);
      effect = λ g v.
          rw (settlement-measure g v p ok_sale, posted-append g, cs.effect g v, fs.effect g v);
    }
