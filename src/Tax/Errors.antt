-- ===== src/Tax/Errors.antt =====
-- The errors that the tax module's domain code throws.
use ticketflow_kenya.Base.{ℕ, Result}
use ticketflow_kenya.Base.Int.{ℤ}

pub data TaxError : Type 0 where
  currency_mismatch division_by_zero invalid_decimal no_ticket_lines : TaxError
  invalid_refund_quantity : ℕ → TaxError
  unbalanced_journal_entry : ℤ → TaxError
  negative_journal_line record_not_found : TaxError

-- A computation of the tax module that may throw.
abbrev pub Checked : Type 0 → Type 0
Checked A = Result TaxError A
