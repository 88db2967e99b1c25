-- ===== src/Tax/Ledger/Tests.antt =====
-- Runs of the ledger on concrete journals.
use ticketflow_kenya.Base.{◌≡◌, refl, [], ◌∷◌, ◌++◌, none, some, ok, err, true, arith, All}
use ticketflow_kenya.Base.Int.{ℤ, pos, ◌+ℤ◌, ◌-ℤ◌}
use ticketflow_kenya.Tax.Errors.{unbalanced_journal_entry}
use ticketflow_kenya.Tax.Types.{disclosed_agent}
use ticketflow_kenya.Tax.Sale.Tests.{
  test_hash, test_input, test_rates, test_result, test_returned, test_input-IsNonneg, test_paid,
}
use ticketflow_kenya.Tax.Ledger.{
  LedgerAccountCode, cash_mpesa_clearing, organizer_payable, other, EntryHeader,
  PostJournalEntryInput, JournalEntry, Journal, to_lines, entry_of, imbalance_from, any_negative,
  post_entry, post_reversal, is_reversed, account_balance, entry_amount,
}
use ticketflow_kenya.Tax.Ledger.Balance.{IsBalanced, post_entry-appends}
use ticketflow_kenya.Tax.Ledger.Reversal.{post_reversal-undoes}
use ticketflow_kenya.Tax.Ledger.SaleAgreement.{SalePosted, sale_params, sale_posts_calculation}

abbrev test_header : EntryHeader
test_header = record { correlation_id = 1; source_type = other 0; source_id = 2; posted_by = none }

-- 500 received for an organizer.
abbrev test_entry : ℤ → PostJournalEntryInput
test_entry amount = record {
  header = test_header;
  reversal_of_id = none;
  lines =
      record {
        account_code = cash_mpesa_clearing;
        debit_minor = some (pos 500);
        credit_minor = none;
        organizer_id = none;
      }
      ∷ record {
        account_code = organizer_payable;
        debit_minor = none;
        credit_minor = some amount;
        organizer_id = some 9;
      }
      ∷ [];
}

abbrev test_journal : Journal
test_journal = entry_of (test_entry (pos 500)) [] ∷ []

test_posted :
    post_entry (test_entry (pos 500)) [] ≡ ok (entry_of (test_entry (pos 500)) [], test_journal)
unfolding post_entry imbalance_from ◌-ℤ◌ ◌+ℤ◌ any_negative
test_posted = refl

test_unbalanced : post_entry (test_entry (pos 400)) [] ≡ err (unbalanced_journal_entry (pos 100))
unfolding post_entry imbalance_from ◌-ℤ◌ ◌+ℤ◌ any_negative
test_unbalanced = refl

test_journal-IsBalanced : All IsBalanced test_journal
unfolding to_lines ◌+ℤ◌ ◌-ℤ◌
test_journal-IsBalanced = (
  record {
    balances = refl;
    nonneg = ((omega arith, omega arith), ((omega arith, omega arith), tt));
  },
  tt,
)

post_entry-appends_example :
    IsBalanced (entry_of (test_entry (pos 500)) [])
    × (entry_of (test_entry (pos 500)) [] ≡ entry_of (test_entry (pos 500)) [])
    × (test_journal ≡ [] ++ entry_of (test_entry (pos 500)) [] ∷ [])
post_entry-appends_example =
    post_entry-appends (test_entry (pos 500)) [] test_journal (entry_of (test_entry (pos 500)) [])
      test_posted

post_reversal-undoes_example :
    (r : JournalEntry) × (post_reversal 0 test_header test_journal ≡ ok (r, test_journal ++ r ∷ []))
    × IsBalanced r
    × (is_reversed 0 (test_journal ++ r ∷ []) ≡ true)
    × ((a : LedgerAccountCode)
        → account_balance a (test_journal ++ r ∷ [])
          ≡ account_balance a test_journal -ℤ entry_amount a (entry_of (test_entry (pos 500)) []))
post_reversal-undoes_example =
    post_reversal-undoes 0 test_header test_journal (entry_of (test_entry (pos 500)) [])
      test_journal-IsBalanced refl

sale_posts_calculation_example :
    SalePosted
      (sale_params
        (test_input disclosed_agent)
        5
        9
        cash_mpesa_clearing
        none
        (test_result disclosed_agent).base)
      test_journal
      (test_result disclosed_agent).base
sale_posts_calculation_example =
    sale_posts_calculation test_hash 7 (test_input disclosed_agent) test_rates
      (test_result disclosed_agent) (test_returned disclosed_agent) 5 9 none test_journal refl
      test_input-IsNonneg test_paid
