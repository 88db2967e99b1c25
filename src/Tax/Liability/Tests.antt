-- ===== src/Tax/Liability/Tests.antt =====
-- Runs of `TaxLiabilityService` on concrete liabilities.
use ticketflow_kenya.Base.{◌≡◌, refl, [], ◌∷◌, List, none, some, All}
use ticketflow_kenya.Base.Int.{pos}
use ticketflow_kenya.Tax.Liability.{
  paid, TaxLiabilityStatus-discrete, assert_valid_transition, assert_different_actors, Owner,
  CreateTaxLiabilityInput, TaxLiability, Store, create, check_input, find_key, transition,
  reconcile, approve, check_approver, transition_to,
}
use ticketflow_kenya.Tax.Liability.Approval.{IsChecked}
use ticketflow_kenya.Tax.Liability.Calls.{
  attaches_prn, starts_payment, pays, Call, creates, reconciles, approves, advances, call, run_all,
  run_all-IsChecked,
}

abbrev test_input : CreateTaxLiabilityInput
test_input = record {
  period_id = some 1;
  tax_head = 2;
  owner = Owner.ticket_flow;
  organizer_id = none;
  amount_minor = pos 90_000;
}

abbrev no_liabilities : Store
no_liabilities = record { liabilities = []; audit = [] }

-- User 7 reconciles and tries to approve, then user 8 approves, and the liability is paid.
abbrev test_calls : List Call
test_calls =
    creates test_input 6
    ∷ creates test_input 6
    ∷ reconciles 0 7
    ∷ approves 0 7
    ∷ approves 0 8
    ∷ advances 0 attaches_prn 8
    ∷ advances 0 starts_payment 9
    ∷ advances 0 pays 9
    ∷ []

abbrev test_paid : TaxLiability
test_paid = record {
  input = test_input;
  status = paid;
  prepared_by = 6;
  reconciled_by = some 7;
  approved_by = some 8;
  rejected_by = none;
}

test_run : (run_all (some (pos 500)) test_calls no_liabilities).liabilities ≡ test_paid ∷ []
unfolding run_all call transition_to transition approve reconcile create check_input find_key
    assert_valid_transition TaxLiabilityStatus-discrete check_approver assert_different_actors
test_run = refl

run_all-IsChecked_example :
    All
      (IsChecked (some (pos 500)))
      (run_all (some (pos 500)) test_calls no_liabilities).liabilities
run_all-IsChecked_example = run_all-IsChecked (some (pos 500)) test_calls no_liabilities tt
