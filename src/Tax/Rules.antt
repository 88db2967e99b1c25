-- ===== src/Tax/Rules.antt =====
-- The effective-dated tax rules: backend/src/tax/infrastructure/repositories/tax-rule.repository.ts and
-- backend/src/tax/domain/tax-rule/tax-rule.types.ts. Dates are numbers. The notes and the source
-- reference are left out, and so is the exclusion constraint of the database, which stands behind
-- the check of `create` for concurrent writes.
pub mod Exclusive
mod Tests
use ticketflow_kenya.Base.{
  ℕ, zero, suc, Bool, true, false, not, ◌&&◌, List, [], ◌∷◌, ◌++◌, Option, none, some, Result, ok,
  err, ◌>>=◌, ◌>>◌, ◌==◌, ltb, leb, length, if◌then◌else◌,
}
use ticketflow_kenya.Base.Tables.{row_at, alter_at, find_row, find_latest}
use ticketflow_kenya.Tax.Money.{RoundingMode}

pub data TaxRuleCode : Type 0 where
  ticketflow_platform_output_vat organizer_ticket_output_vat : TaxRuleCode
  corporation_tax_provision supplier_withholding_tax paye : TaxRuleCode
  affordable_housing_levy other : TaxRuleCode

abbrev pub code_number : TaxRuleCode → ℕ
code_number TaxRuleCode.ticketflow_platform_output_vat = 0
code_number TaxRuleCode.organizer_ticket_output_vat = 1
code_number TaxRuleCode.corporation_tax_provision = 2
code_number TaxRuleCode.supplier_withholding_tax = 3
code_number TaxRuleCode.paye = 4
code_number TaxRuleCode.affordable_housing_levy = 5
code_number TaxRuleCode.other = 6

-- `===` on codes.
abbrev pub same_code : TaxRuleCode → TaxRuleCode → Bool
same_code a b = code_number a == code_number b

pub record TaxRule : Type 0 where
  pub code : TaxRuleCode
  pub jurisdiction : ℕ
  pub rate_bps : ℕ
  pub effective_from : ℕ
  pub effective_to : Option ℕ
  pub rounding_mode : RoundingMode
  pub enabled : Bool
  pub requires_review : Bool
  pub created_by : ℕ
  pub approved_by : Option ℕ

pub data TaxRuleError : Type 0 where
  no_applicable_tax_rule overlapping_tax_rule record_not_found : TaxRuleError

abbrev pub is_for : TaxRuleCode → ℕ → TaxRule → Bool
is_for code jurisdiction r = same_code r.code code && (r.jurisdiction == jurisdiction && r.enabled)

-- `OR: [{ effectiveTo: null }, { effectiveTo: { gt: date } }]`
abbrev pub ends_after : ℕ → Option ℕ → Bool
ends_after date none = true
ends_after date (some end) = ltb date end

abbrev pub covers : ℕ → TaxRule → Bool
covers as_of r = leb r.effective_from as_of && ends_after as_of r.effective_to

abbrev pub is_effective : TaxRuleCode → ℕ → ℕ → TaxRule → Bool
is_effective code jurisdiction as_of r = is_for code jurisdiction r && covers as_of r

abbrev pub found_rule : Option (ℕ × TaxRule) → Result TaxRuleError (ℕ × TaxRule)
found_rule none = err no_applicable_tax_rule
found_rule (some r) = ok r

unfoldable pub find_effective :
    TaxRuleCode → ℕ → ℕ → List TaxRule → Result TaxRuleError (ℕ × TaxRule)
find_effective code as_of jurisdiction rules =
    found_rule (find_latest (λ r. r.effective_from) (is_effective code jurisdiction as_of) rules)

-- `effectiveTo ?? new Date("9999-12-31T00:00:00.000Z")`, where `far` is that date.
abbrev pub end_or : ℕ → Option ℕ → ℕ
end_or far none = far
end_or far (some end) = end

abbrev pub overlaps : ℕ → TaxRuleCode → ℕ → ℕ → Option ℕ → TaxRule → Bool
overlaps far code jurisdiction from to r =
    is_for code jurisdiction r
    && (ltb r.effective_from (end_or far to) && ends_after from r.effective_to)

abbrev pub refuse_found : Option (ℕ × TaxRule) → Result TaxRuleError (Unit {0})
refuse_found none = ok tt
refuse_found (some r) = err overlapping_tax_rule

-- `assertNoOverlap`, without an id to exclude, as `create` calls it.
unfoldable pub assert_no_overlap :
    ℕ → TaxRuleCode → ℕ → ℕ → Option ℕ → List TaxRule → Result TaxRuleError (Unit {0})
assert_no_overlap far code jurisdiction from to rules =
    refuse_found (find_row (λ _. overlaps far code jurisdiction from to) rules)

-- `create`, for the row that the input makes with its defaults filled in.
unfoldable pub create : ℕ → TaxRule → List TaxRule → Result TaxRuleError (List TaxRule)
create far new rules = do
  if new.enabled
      then assert_no_overlap far new.code new.jurisdiction new.effective_from new.effective_to rules
      else ok tt
  ok (rules ++ new ∷ [])

-- `prisma.taxRule.update`
abbrev pub update_found :
    Option TaxRule → ℕ → (TaxRule → TaxRule) → List TaxRule → Result TaxRuleError (List TaxRule)
update_found none id change rules = err record_not_found
update_found (some r) id change rules = ok (alter_at id change rules)

abbrev pub approved : ℕ → TaxRule → TaxRule
approved by r = record r { approved_by = some by; requires_review = false }

unfoldable pub approve : ℕ → ℕ → List TaxRule → Result TaxRuleError (List TaxRule)
approve id by rules = update_found (row_at id rules) id (approved by) rules

abbrev pub disabled : TaxRule → TaxRule
disabled r = record r { enabled = false }

unfoldable pub disable : ℕ → List TaxRule → Result TaxRuleError (List TaxRule)
disable id rules = update_found (row_at id rules) id disabled rules
