-- ===== src/Tax/Rules/Tests.antt =====
-- Runs of the tax rules on concrete dates.
use ticketflow_kenya.Base.{◌≡◌, ◌↔◌, ℕ, refl, true, List, [], ◌∷◌, Option, none, some, ok, arith}
use ticketflow_kenya.Base.Tables.{row_at, find_row}
use ticketflow_kenya.Tax.Money.{RoundingMode}
use ticketflow_kenya.Tax.Rules.{
  TaxRule, TaxRuleCode, is_effective, find_effective, create, assert_no_overlap,
}
use ticketflow_kenya.Tax.Rules.Exclusive.{
  Call, create_rule, run, run_all, IsExclusive, run_all-IsExclusive, find_effective_lem,
}

abbrev vat_rule : ℕ → ℕ → Option ℕ → TaxRule
vat_rule rate from to = record {
  code = TaxRuleCode.ticketflow_platform_output_vat;
  jurisdiction = 0;
  rate_bps = rate;
  effective_from = from;
  effective_to = to;
  rounding_mode = RoundingMode.half_up;
  enabled = true;
  requires_review = true;
  created_by = 1;
  approved_by = none;
}

-- The second rule overlaps the first and is refused, the third follows it.
abbrev rule_calls : List Call
rule_calls =
    create_rule (vat_rule 1_600 10 (some 100))
    ∷ create_rule (vat_rule 1_400 50 none)
    ∷ create_rule (vat_rule 1_800 100 none)
    ∷ []

rule_calls-kept :
    run_all 9_999 rule_calls [] ≡ vat_rule 1_600 10 (some 100) ∷ vat_rule 1_800 100 none ∷ []
unfolding run_all run create assert_no_overlap find_row
rule_calls-kept = refl

run_all-IsExclusive_example : IsExclusive 9_999 (run_all 9_999 rule_calls [])
run_all-IsExclusive_example = run_all-IsExclusive 9_999 rule_calls [] (λ c u d i j p q b h. cc)

find_effective_lem_example :
    (find_effective TaxRuleCode.ticketflow_platform_output_vat 120 0 (run_all 9_999 rule_calls [])
      ≡ ok (1, vat_rule 1_800 100 none))
    ↔ ((row_at 1 (run_all 9_999 rule_calls []) ≡ some (vat_rule 1_800 100 none))
        × (is_effective TaxRuleCode.ticketflow_platform_output_vat 0 120 (vat_rule 1_800 100 none)
            ≡ true))
find_effective_lem_example =
    find_effective_lem 9_999 rule_calls TaxRuleCode.ticketflow_platform_output_vat 120 0 1
      (vat_rule 1_800 100 none) (omega arith)
