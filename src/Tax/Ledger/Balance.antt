-- ===== src/Tax/Ledger/Balance.antt =====
-- The balance of posted entries and of whole journals.
use ticketflow_kenya.Base.{◌≡◌, refl, sym, ◌∙◌, true, false, List, [], ◌∷◌, ◌++◌, ok, arith, All}
use ticketflow_kenya.Base.Int.{ℤ, pos, ◌+ℤ◌, ◌-ℤ◌, ◌≤ℤ◌, int_laws, is_zero_ℤ, is_zero_ℤ→eq}
use ticketflow_kenya.Base.Sums.{sum_of}
use ticketflow_kenya.Tax.Ledger.{
  JournalLineInput, PostJournalEntryInput, JournalLine, JournalEntry, Journal, or_zero,
  imbalance_from, any_negative, to_lines, entry_of, post_entry, line_amount,
}

-- No amount of the line is negative.
abbrev pub IsNonnegLine : JournalLine → Type 0
IsNonnegLine line = (pos 0 ≤ℤ line.debit_minor) × (pos 0 ≤ℤ line.credit_minor)

-- Debits and credits of the entry are equal, and none is negative.
pub record IsBalanced (e : JournalEntry) : Type 0 where
  pub balances : sum_of line_amount e.lines ≡ pos 0
  pub nonneg : All IsNonnegLine e.lines

imbalance_from-eq :
    (acc : ℤ) (lines : List JournalLineInput)
    → imbalance_from acc lines ≡ acc +ℤ sum_of line_amount (to_lines lines)
unfolding imbalance_from to_lines
imbalance_from-eq acc [] = omega int_laws
imbalance_from-eq acc (line ∷ lines) =
    imbalance_from-eq (acc +ℤ or_zero line.debit_minor -ℤ or_zero line.credit_minor) lines
    ∙ omega int_laws

any_negative-nonneg :
    (lines : List JournalLineInput) → any_negative lines ≡ false → All IsNonnegLine (to_lines lines)
unfolding any_negative to_lines
any_negative-nonneg [] h = tt
any_negative-nonneg (line ∷ lines) h = ground (arith, any_negative-nonneg lines)

imbalance-eq :
    (lines : List JournalLineInput)
    → imbalance_from (pos 0) lines ≡ sum_of line_amount (to_lines lines)
imbalance-eq lines = rw imbalance_from-eq (omega int_laws)

-- When `postEntry` returns, and what.
post_entry-cases :
    (input : PostJournalEntryInput) (j j' : Journal) (e : JournalEntry)
    → post_entry input j ≡ ok (e, j')
    → (is_zero_ℤ (imbalance_from (pos 0) input.lines) ≡ true)
      × (any_negative input.lines ≡ false)
      × (e ≡ entry_of input j)
      × (j' ≡ j ++ entry_of input j ∷ [])
unfolding post_entry
post_entry-cases input j j' e h = ground arith

entry_of-IsBalanced :
    (input : PostJournalEntryInput) (j : Journal)
    → is_zero_ℤ (imbalance_from (pos 0) input.lines) ≡ true
    → any_negative input.lines ≡ false
    → IsBalanced (entry_of input j)
entry_of-IsBalanced input j zero nonneg = record {
  balances = sym (imbalance-eq input.lines) ∙ is_zero_ℤ→eq _ zero;
  nonneg = any_negative-nonneg input.lines nonneg;
}

-- An entry that is posted is balanced, and it is added at the end of the journal, which is
-- otherwise unchanged.
pub post_entry-appends :
    (input : PostJournalEntryInput) (j j' : Journal) (e : JournalEntry)
    → post_entry input j ≡ ok (e, j')
    → IsBalanced e × (e ≡ entry_of input j) × (j' ≡ j ++ e ∷ [])
post_entry-appends input j j' e h =
    let (zero, nonneg, same, added) = post_entry-cases input j j' e h in
    rw same (entry_of-IsBalanced input j zero nonneg, refl, added)

-- Lines whose debits and credits balance and are not negative are posted.
any_negative-eq :
    (lines : List JournalLineInput) → All IsNonnegLine (to_lines lines) → any_negative lines ≡ false
unfolding any_negative to_lines
any_negative-eq [] h = refl
any_negative-eq (line ∷ lines) h = ground (arith, any_negative-eq lines h.1)

pub post_entry-accepts :
    (input : PostJournalEntryInput) (j : Journal)
    → IsBalanced (entry_of input j)
    → post_entry input j ≡ ok (entry_of input j, j ++ entry_of input j ∷ [])
unfolding post_entry
post_entry-accepts input j b =
    rw (imbalance-eq input.lines, b.balances, any_negative-eq input.lines b.nonneg)

abbrev pub every_line : Journal → ℤ
every_line j = sum_of (λ (e : JournalEntry). sum_of line_amount e.lines) j

-- The trial balance: over a journal of balanced entries debits equal credits.
pub trial_balance : (j : Journal) → All IsBalanced j → every_line j ≡ pos 0
trial_balance [] h = refl
trial_balance (e ∷ j) (b, h) = rw (b.balances, trial_balance j h) (omega int_laws)
