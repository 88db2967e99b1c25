-- ===== src/Tax/Ledger/TicketSale.antt =====
-- `TicketSaleLedgerPostingService.postTicketSale` of
-- backend/src/tax/application/post-ticket-sale-ledger-entries.service.ts.
use ticketflow_kenya.Base.{
  Bool, true, false, not, ◌&&◌, List, [], ◌∷◌, ◌++◌, Option, none, some, if◌then◌else◌,
}
use ticketflow_kenya.Base.Int.{ℤ, pos, ltb_ℤ, leb_ℤ}
use ticketflow_kenya.Tax.Types.{RecordId, ChargeBearer}
use ticketflow_kenya.Tax.Sale.{TicketSaleTaxBase}
use ticketflow_kenya.Tax.Sale.Calculate.{bears}
use ticketflow_kenya.Tax.Ledger.{
  LedgerAccountCode, organizer_payable, booking_fee_revenue, ticketflow_vat_payable,
  processor_payable_clearing, commission_revenue, payment_processing_expense, SourceType,
  ticket_sale, ticket_sale_commission, ticket_sale_processor_charge, JournalLineInput,
  PostJournalEntryInput, JournalEntry, Posting, ◌>>=◌, pure, post_entry,
}

-- The parameters of `postTicketSale`.
pub record TicketSaleParams : Type 0 where
  pub calculation : TicketSaleTaxBase
  pub order_id : RecordId
  pub organizer_id : RecordId
  pub clearing_account : LedgerAccountCode
  pub processor_charge_bearer : ChargeBearer
  pub posted_by : Option RecordId

abbrev pub debit : LedgerAccountCode → ℤ → JournalLineInput
debit account amount = record {
  account_code = account;
  debit_minor = some amount;
  credit_minor = none;
  organizer_id = none;
}

abbrev pub credit : LedgerAccountCode → ℤ → JournalLineInput
credit account amount = record {
  account_code = account;
  debit_minor = none;
  credit_minor = some amount;
  organizer_id = none;
}

abbrev pub debit_of : LedgerAccountCode → ℤ → RecordId → JournalLineInput
debit_of account amount organizer = record {
  account_code = account;
  debit_minor = some amount;
  credit_minor = none;
  organizer_id = some organizer;
}

abbrev pub credit_of : LedgerAccountCode → ℤ → RecordId → JournalLineInput
credit_of account amount organizer = record {
  account_code = account;
  debit_minor = none;
  credit_minor = some amount;
  organizer_id = some organizer;
}

abbrev pub is_positive : ℤ → Bool
is_positive n = ltb_ℤ (pos 0) n

-- `if (test) lines.push(line)`
abbrev pub push_if : Bool → JournalLineInput → List JournalLineInput
push_if true line = line ∷ []
push_if false line = []

abbrev pub sale_entry :
    TicketSaleParams → SourceType → List JournalLineInput → PostJournalEntryInput
sale_entry p source lines = record {
  header = record {
    correlation_id = p.calculation.calculation_id;
    source_type = source;
    source_id = p.order_id;
    posted_by = p.posted_by;
  };
  reversal_of_id = none;
  lines = lines;
}

unfoldable pub settlement_lines : TicketSaleParams → List JournalLineInput
settlement_lines p =
    debit p.clearing_account c.customer_payment.minor_units
    ∷ credit_of organizer_payable c.organizer_ticket_proceeds_gross.minor_units p.organizer_id
    ∷ (push_if (is_positive c.booking_fee_net.minor_units)
          (credit booking_fee_revenue c.booking_fee_net.minor_units)
        ++ (push_if (is_positive c.booking_fee_vat.minor_units)
              (credit ticketflow_vat_payable c.booking_fee_vat.minor_units)
            ++ push_if
                (bears p.processor_charge_bearer ChargeBearer.customer
                  && is_positive c.processor_charge.minor_units)
                (credit processor_payable_clearing c.processor_charge.minor_units)))
  where
    open p use {calculation as c}

unfoldable pub commission_lines : TicketSaleParams → List JournalLineInput
commission_lines p =
    debit_of organizer_payable c.commission_gross.minor_units p.organizer_id
    ∷ (push_if (is_positive c.commission_net.minor_units)
          (credit commission_revenue c.commission_net.minor_units)
        ++ push_if (is_positive c.commission_vat.minor_units)
            (credit ticketflow_vat_payable c.commission_vat.minor_units))
  where
    open p use {calculation as c}

-- Entry 3 for the bearer: the customer's charge stands in the first entry.
unfoldable pub charge_lines : TicketSaleParams → ChargeBearer → List JournalLineInput
charge_lines p ChargeBearer.ticket_flow =
    debit payment_processing_expense p.calculation.processor_charge.minor_units
    ∷ credit processor_payable_clearing p.calculation.processor_charge.minor_units
    ∷ []
charge_lines p ChargeBearer.organizer =
    debit_of organizer_payable p.calculation.processor_charge.minor_units p.organizer_id
    ∷ credit processor_payable_clearing p.calculation.processor_charge.minor_units
    ∷ []
charge_lines p ChargeBearer.customer = []

-- Entry 2, when a commission was charged.
unfoldable pub post_commission : TicketSaleParams → Posting (List JournalEntry)
unfolding commission_lines
post_commission p =
    if is_positive p.calculation.commission_gross.minor_units
    then (do
      e ← post_entry (sale_entry p ticket_sale_commission (commission_lines p))
      pure (e ∷ []))
    else pure []

-- Entry 3, when there is a charge that the customer does not bear.
unfoldable pub post_charge : TicketSaleParams → Posting (List JournalEntry)
unfolding charge_lines
post_charge p =
    if is_positive p.calculation.processor_charge.minor_units
      && not (bears p.processor_charge_bearer ChargeBearer.customer)
    then (do
      e ←
          post_entry
            (sale_entry p ticket_sale_processor_charge (charge_lines p p.processor_charge_bearer))
      pure (e ∷ []))
    else pure []

unfoldable pub post_ticket_sale : TicketSaleParams → Posting (List JournalEntry)
unfolding settlement_lines post_commission post_charge
post_ticket_sale p =
    if leb_ℤ p.calculation.customer_payment.minor_units (pos 0) then pure [] else (do
      e ← post_entry (sale_entry p ticket_sale (settlement_lines p))
      es ← post_commission p
      fs ← post_charge p
      pure (e ∷ (es ++ fs)))
