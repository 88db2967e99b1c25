-- ===== src/Tax/Ledger/Reversal.antt =====
-- `postReversal` and the entry that it reverses.
use ticketflow_kenya.Base.{ℕ, zero, suc, ◌≡◌, refl, true, List, [], ◌∷◌, ◌++◌, some, ok, arith, All}
use ticketflow_kenya.Base.Int.{◌-ℤ◌, -ℤ◌, int_laws}
use mathlib.Core.Path.{subst}
use mathlib.Core.Option.{some-injective}
use mathlib.Core.Logic.{if_pos, if_neg}
use ticketflow_kenya.Base.Sums.{sum_of, sum_of-snoc}
use ticketflow_kenya.Tax.Ledger.{
  LedgerAccountCode, LedgerAccountCode-discrete, EntryHeader, PostJournalEntryInput, JournalLine,
  JournalEntry, Journal, to_line, to_lines, entry_of, reversed_line, reversed_lines, find_entry,
  post_reversal, is_reversed, line_amount, amount_in, entry_amount, account_balance,
}
use ticketflow_kenya.Tax.Ledger.Balance.{IsBalanced, IsNonnegLine, post_entry-accepts}

reversed-amount :
    (lines : List JournalLine)
    → sum_of line_amount (to_lines (reversed_lines lines)) ≡ -ℤ◌ (sum_of line_amount lines)
unfolding to_lines reversed_lines
reversed-amount [] = omega int_laws
reversed-amount (line ∷ lines) = rw (reversed-amount lines) (omega int_laws)

amount_in-reversed :
    (a : LedgerAccountCode) (line : JournalLine)
    → amount_in a (to_line (reversed_line line)) ≡ -ℤ◌ (amount_in a line)
amount_in-reversed a line = elim (LedgerAccountCode-discrete line.account_code a) [
  | yes same ↦ rw (if_pos _ same) (rw (if_pos _ same) (omega int_laws))
  | no other ↦ rw (if_neg _ other) (rw (if_neg _ other) (omega int_laws))
]

reversed-amount_in :
    (a : LedgerAccountCode) (lines : List JournalLine)
    → sum_of (amount_in a) (to_lines (reversed_lines lines)) ≡ -ℤ◌ (sum_of (amount_in a) lines)
unfolding to_lines reversed_lines
reversed-amount_in a [] = omega int_laws
reversed-amount_in a (line ∷ lines) =
    rw (reversed-amount_in a lines, amount_in-reversed a line) (omega int_laws)

reversed-nonneg :
    (lines : List JournalLine)
    → All IsNonnegLine lines
    → All IsNonnegLine (to_lines (reversed_lines lines))
unfolding to_lines reversed_lines
reversed-nonneg [] h = tt
reversed-nonneg (line ∷ lines) (h, hs) = ((h.1, h.0), reversed-nonneg lines hs)

-- The reversing entry of an original.
abbrev pub reversal_input : ℕ → EntryHeader → JournalEntry → PostJournalEntryInput
reversal_input id header original = record {
  header = header;
  reversal_of_id = some id;
  lines = reversed_lines original.lines;
}

reversal-IsBalanced :
    (id : ℕ) (header : EntryHeader) (original : JournalEntry) (j : Journal)
    → IsBalanced original
    → IsBalanced (entry_of (reversal_input id header original) j)
reversal-IsBalanced id header original j b = record {
  balances = rw (reversed-amount original.lines, b.balances) (omega int_laws);
  nonneg = reversed-nonneg original.lines b.nonneg;
}

find_entry-IsBalanced :
    (id : ℕ) (j : Journal) (e : JournalEntry)
    → All IsBalanced j
    → find_entry id j ≡ some e
    → IsBalanced e
find_entry-IsBalanced id [] e h f = cc
find_entry-IsBalanced zero (x ∷ j) e h f = subst IsBalanced (some-injective x e f) h.0
find_entry-IsBalanced (suc id) (x ∷ j) e h f = find_entry-IsBalanced id j e h.1 f

is_reversed-snoc :
    (id : ℕ) (j : Journal) (e : JournalEntry)
    → e.reversal_of_id ≡ some id
    → is_reversed id (j ++ e ∷ []) ≡ true
unfolding is_reversed
is_reversed-snoc id [] e h = ground arith
is_reversed-snoc id (x ∷ j) e h = ground (arith, is_reversed-snoc id j e h)

-- In a journal of balanced entries every entry can be reversed: the reversal is posted as one more
-- balanced entry, the original is then marked as reversed, and the balance of every account changes
-- by minus what the original added to it.
pub post_reversal-undoes :
    (id : ℕ) (header : EntryHeader) (j : Journal) (original : JournalEntry)
    → All IsBalanced j
    → find_entry id j ≡ some original
    → (r : JournalEntry) × (post_reversal id header j ≡ ok (r, j ++ r ∷ []))
      × IsBalanced r
      × (is_reversed id (j ++ r ∷ []) ≡ true)
      × ((a : LedgerAccountCode)
          → account_balance a (j ++ r ∷ []) ≡ account_balance a j -ℤ entry_amount a original)
unfolding post_reversal account_balance
post_reversal-undoes id header j original balanced found =
    let r = entry_of (reversal_input id header original) j in
    let b =
      reversal-IsBalanced id header original j
        (find_entry-IsBalanced id j original balanced found) in
    (
      r,
      rw found (post_entry-accepts (reversal_input id header original) j b),
      b,
      is_reversed-snoc id j r refl,
      λ a.
          rw (sum_of-snoc (entry_amount a) j r, reversed-amount_in a original.lines)
            (omega int_laws),
    )
