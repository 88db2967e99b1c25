-- ===== src/Tax/Ledger.antt =====
-- The double-entry ledger: backend/src/tax/domain/ledger/accounts.ts and journal-entry.types.ts,
-- and `LedgerRepository` of backend/src/tax/infrastructure/repositories/ledger.repository.ts.
-- The journal is the list of its entries, oldest first, and an entry's id is its position; the
-- free texts `description` and `memo` are left out.
pub mod Balance
pub mod Reversal
pub mod TicketSale
pub mod SaleEntries
pub mod SalePosting
pub mod SaleAgreement
mod Tests
use ticketflow_kenya.Base.{
  ℕ, zero, suc, Bool, true, false, ◌||◌, not, List, [], ◌∷◌, ◌++◌, map, Option, none, some, ok, err,
  length, ◌==◌, if◌then◌else◌,
}
use mathlib.Core.Logic.{ite}
use ticketflow_kenya.Base.Sums.{sum_of}
use ticketflow_kenya.Base.Int.{ℤ, pos, ◌+ℤ◌, ◌-ℤ◌, ltb_ℤ, is_zero_ℤ}
use ticketflow_kenya.Tax.Errors.{
  Checked, unbalanced_journal_entry, negative_journal_line, record_not_found,
}
use ticketflow_kenya.Tax.Types.{RecordId}

pub data LedgerAccountCode : Type 0 where
  cash_mpesa_clearing card_processor_clearing customer_refund_payable : LedgerAccountCode
  client_money_organizer_funds organizer_payable booking_fee_revenue : LedgerAccountCode
  commission_revenue ticketflow_vat_payable organizer_vat_memo : LedgerAccountCode
  payment_processing_expense chargeback_expense tax_payable : LedgerAccountCode
  tax_payment_clearing bank processor_payable_clearing : LedgerAccountCode

pub LedgerAccountCode-discrete : Discrete LedgerAccountCode
LedgerAccountCode-discrete = hlevel

-- The `sourceType` strings that the posting services write.
pub data SourceType : Type 0 where
  ticket_sale ticket_sale_commission ticket_sale_processor_charge : SourceType
  ticket_refund ticket_refund_commission : SourceType
  other : ℕ → SourceType

pub record JournalLineInput : Type 0 where
  pub account_code : LedgerAccountCode
  pub debit_minor : Option ℤ
  pub credit_minor : Option ℤ
  pub organizer_id : Option RecordId

-- `PostJournalEntryInput` without its lines and `reversalOfId`.
pub record EntryHeader : Type 0 where
  pub correlation_id : RecordId
  pub source_type : SourceType
  pub source_id : RecordId
  pub posted_by : Option RecordId

pub record PostJournalEntryInput : Type 0 where
  pub header : EntryHeader
  pub reversal_of_id : Option ℕ
  pub lines : List JournalLineInput

-- The stored rows.
pub record JournalLine : Type 0 where
  pub account_code : LedgerAccountCode
  pub debit_minor : ℤ
  pub credit_minor : ℤ
  pub organizer_id : Option RecordId

pub record JournalEntry : Type 0 where
  pub id : ℕ
  pub header : EntryHeader
  pub reversal_of_id : Option ℕ
  pub lines : List JournalLine

abbrev pub Journal : Type 0
Journal = List JournalEntry

-- A call inside a transaction: it returns a value and the new journal, or throws, and then the
-- transaction is rolled back.
abbrev pub Posting : Type 0 → Type 0
Posting A = Journal → Checked (A × Journal)

infixl 5 ◌>>=◌
abbrev pub ◌>>=◌ : {A B : Type 0} → Posting A → (A → Posting B) → Posting B
◌>>=◌ m f j = elim (m j) [ ok r ↦ f r.0 r.1 | err e ↦ err e ]

abbrev pub pure : {A : Type 0} → A → Posting A
pure a j = ok (a, j)

-- `amount ?? 0n`
abbrev pub or_zero : Option ℤ → ℤ
or_zero none = pos 0
or_zero (some n) = n

-- The `reduce` of `postEntry`, from an accumulator.
unfoldable pub imbalance_from : ℤ → List JournalLineInput → ℤ
imbalance_from acc [] = acc
imbalance_from acc (line ∷ lines) =
    imbalance_from (acc +ℤ or_zero line.debit_minor -ℤ or_zero line.credit_minor) lines

-- The `some` of `postEntry`: a line with a negative amount.
unfoldable pub any_negative : List JournalLineInput → Bool
any_negative [] = false
any_negative (line ∷ lines) =
    ltb_ℤ (or_zero line.debit_minor) (pos 0)
    || ltb_ℤ (or_zero line.credit_minor) (pos 0)
    || any_negative lines

abbrev pub to_line : JournalLineInput → JournalLine
to_line line = record {
  account_code = line.account_code;
  debit_minor = or_zero line.debit_minor;
  credit_minor = or_zero line.credit_minor;
  organizer_id = line.organizer_id;
}

unfoldable pub to_lines : List JournalLineInput → List JournalLine
to_lines [] = []
to_lines (line ∷ lines) = to_line line ∷ to_lines lines

-- The row that `postEntry` creates.
abbrev pub entry_of : PostJournalEntryInput → Journal → JournalEntry
entry_of input j = record {
  id = length j;
  header = input.header;
  reversal_of_id = input.reversal_of_id;
  lines = to_lines input.lines;
}

unfoldable pub post_entry : PostJournalEntryInput → Posting JournalEntry
post_entry input j =
    let imbalance = imbalance_from (pos 0) input.lines in
    if not (is_zero_ℤ imbalance)
    then err (unbalanced_journal_entry imbalance)
    else if any_negative input.lines
    then err negative_journal_line
    else ok (entry_of input j, j ++ entry_of input j ∷ [])

-- The line of a reversing entry: debit and credit change places.
abbrev pub reversed_line : JournalLine → JournalLineInput
reversed_line line = record {
  account_code = line.account_code;
  debit_minor = some line.credit_minor;
  credit_minor = some line.debit_minor;
  organizer_id = line.organizer_id;
}

unfoldable pub reversed_lines : List JournalLine → List JournalLineInput
reversed_lines [] = []
reversed_lines (line ∷ lines) = reversed_line line ∷ reversed_lines lines

-- `findUniqueOrThrow`
abbrev pub find_entry : ℕ → Journal → Option JournalEntry
find_entry i [] = none
find_entry zero (e ∷ j) = some e
find_entry (suc i) (e ∷ j) = find_entry i j

abbrev pub reverse_found : ℕ → EntryHeader → Option JournalEntry → Posting JournalEntry
reverse_found id header none j = err record_not_found
reverse_found id header (some original) j =
    post_entry
      (record { header = header; reversal_of_id = some id; lines = reversed_lines original.lines })
      j

unfoldable pub post_reversal : ℕ → EntryHeader → Posting JournalEntry
post_reversal id header j = reverse_found id header (find_entry id j) j

abbrev pub is_some_id : ℕ → Option ℕ → Bool
is_some_id id none = false
is_some_id id (some k) = k == id

-- `isReversed`: some entry reverses the one with this id.
unfoldable pub is_reversed : ℕ → Journal → Bool
is_reversed id [] = false
is_reversed id (e ∷ j) = is_some_id id e.reversal_of_id || is_reversed id j

-- The lines of an account add `debit - credit` to its balance.
abbrev pub line_amount : JournalLine → ℤ
line_amount line = line.debit_minor -ℤ line.credit_minor

abbrev pub amount_in : LedgerAccountCode → JournalLine → ℤ
amount_in account line =
    ite (LedgerAccountCode-discrete line.account_code account) (line_amount line) (pos 0)

abbrev pub entry_amount : LedgerAccountCode → JournalEntry → ℤ
entry_amount account e = sum_of (amount_in account) e.lines

-- `accountBalance` with no `asOf` date.
unfoldable pub account_balance : LedgerAccountCode → Journal → ℤ
account_balance account j = sum_of (entry_amount account) j
