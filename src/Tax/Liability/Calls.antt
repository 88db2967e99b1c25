-- ===== src/Tax/Liability/Calls.antt =====
-- Sequences of calls on tax liabilities.
use ticketflow_kenya.Base.{
  ℕ, ◌≡◌, refl, Bool, true, false, List, [], ◌∷◌, Option, none, some, ok, err, ◌>>=◌, >>=-eq-ok,
  throw_if, if◌then◌else◌, All, All-append, ◌⊎◌, inl, inr,
}
use ticketflow_kenya.Base.Int.{ℤ}
use ticketflow_kenya.Base.Tables.{row_at, row_at-All, put_at-All}
use ticketflow_kenya.Tax.Types.{RecordId}
use ticketflow_kenya.Tax.Liability.{
  TaxLiabilityStatus, reconciled, approved, prn_required, prn_attached, payment_processing, paid,
  kra_confirmed, rejected, cancelled, requires_review, allowed_transitions, includes,
  LiabilityError, Checked, CreateTaxLiabilityInput, TaxLiability, Store, found, create, create_row,
  find_key, check_input, new_liability, transition, reconcile, approve, check_approver,
  assert_different_actors, is_low_value, is_same_actor, reject, require_review, cancel,
  transition_to,
}
use ticketflow_kenya.Tax.Liability.Approval.{
  enters, is_past_approval, IsChecked, step-IsChecked, found-eq-ok, transition-eq-ok,
}

-- The calls of `transitionTo`: in `attach` and `verify` of
-- backend/src/tax/infrastructure/repositories/tax-prn.service.ts, in `initiate` (which starts a payment
-- or blocks it) and twice in `finalizePaid` of backend/src/tax/application/tax-remittance.service.ts.
pub data Step : Type 0 where
  requires_prn attaches_prn starts_payment blocks_payment pays confirms : Step

abbrev pub target : Step → TaxLiabilityStatus
target requires_prn = prn_required
target attaches_prn = prn_attached
target starts_payment = payment_processing
target blocks_payment = requires_review
target pays = paid
target confirms = kra_confirmed

-- The calls that change liabilities, with the acting user.
pub data Call : Type 0 where
  creates : CreateTaxLiabilityInput → RecordId → Call
  reconciles approves rejects reviews cancels : RecordId → RecordId → Call
  advances : RecordId → Step → RecordId → Call

abbrev second : Checked (TaxLiability × Store) → Checked Store
second m = m >>= λ r. ok r.1

-- A call under the configured threshold.
unfoldable pub call : Option ℤ → Call → Store → Checked Store
call threshold (creates input actor) s = second (create input actor s)
call threshold (reconciles id actor) s = reconcile id actor s
call threshold (approves id actor) s = approve threshold id actor s
call threshold (rejects id actor) s = reject id actor s
call threshold (reviews id actor) s = require_review id actor s
call threshold (cancels id actor) s = cancel id actor s
call threshold (advances id step actor) s = transition_to id (target step) actor s

-- The tables after a call that returns, or the old ones after one that throws.
abbrev pub kept : Store → Checked Store → Store
kept s (ok s') = s'
kept s (err e) = s

unfoldable pub run_all : Option ℤ → List Call → Store → Store
run_all threshold [] s = s
run_all threshold (c ∷ cs) s = run_all threshold cs (kept s (call threshold c s))

abbrev AllChecked : Option ℤ → Store → Type 0
AllChecked threshold s = All (IsChecked threshold) s.liabilities

transition-All :
    (P : TaxLiability → Type 0) (id : ℕ) (to : TaxLiabilityStatus) (actor : RecordId)
    (extra : TaxLiability → TaxLiability) (s s' : Store)
    → transition id to actor extra s ≡ ok s'
    → ((l : TaxLiability)
        → row_at id s.liabilities ≡ some l
        → includes to (allowed_transitions l.status) ≡ true
        → P l
        → P (extra (record l { status = to })))
    → All P s.liabilities
    → All P s'.liabilities
transition-All P id to actor extra s s' h keeps all =
    let (l, here, allowed, rows, log) = transition-eq-ok id to actor extra s s' h in
    rw rows (
      put_at-All P id (extra (record l { status = to })) s.liabilities all
        (keeps l here allowed (row_at-All P id s.liabilities all here)))

create-All :
    (P : TaxLiability → Type 0) (input : CreateTaxLiabilityInput) (actor : RecordId) (s s' : Store)
    → second (create input actor s) ≡ ok s'
    → P (new_liability input actor)
    → All P s.liabilities
    → All P s'.liabilities
unfolding create
create-All P input actor s s' h new all =
    let (r, made, same) = >>=-eq-ok (create input actor s) _ h in
    let (u, checked, row) = >>=-eq-ok (check_input input) _ made in
    let pair : create_row input actor (find_key input s.liabilities) s ≡ r = cc row in
    let store : r.1 ≡ s' = cc same in rw (← store, ← pair) (by_row (find_key input s.liabilities))
  where
    by_row : (o : Option TaxLiability) → All P (create_row input actor o s).1.liabilities
    by_row (some l) = all
    by_row none = All-append P s.liabilities _ all (new, tt)

approver-independent :
    (threshold : Option ℤ) (l : TaxLiability) (actor : RecordId) {u : Unit {0}}
    → check_approver threshold l actor ≡ ok u
    → (is_low_value threshold l.input.amount_minor ≡ true)
      ⊎ (is_same_actor l.reconciled_by actor ≡ false)
unfolding check_approver assert_different_actors
approver-independent threshold l actor h = by_tests _ _ h
  where
    by_tests :
        (low same : Bool) {u : Unit {0}}
        → (if low then ok tt else throw_if same LiabilityError.same_actor) ≡ ok u
        → (low ≡ true) ⊎ (same ≡ false)
    by_tests true same h = inl refl
    by_tests false false h = inr refl
    by_tests false true h = cc

approve-AllChecked :
    (threshold : Option ℤ) (id actor : ℕ) (s s' : Store)
    → approve threshold id actor s ≡ ok s'
    → AllChecked threshold s
    → AllChecked threshold s'
unfolding approve
approve-AllChecked threshold id actor s s' h all =
    let (l, looked, h1) = >>=-eq-ok (found (row_at id s.liabilities)) _ h in
    let (u, checked, h2) = >>=-eq-ok (check_approver threshold l actor) _ h1 in
    let (s1, first, last) =
      >>=-eq-ok (transition id approved actor (λ r. record r { approved_by = some actor }) s) _
        h2 in
    transition-All (IsChecked threshold) id prn_required actor (λ r. r) s1 s' last
      (λ m here allowed was. step-IsChecked threshold m prn_required allowed refl was)
      (transition-All (IsChecked threshold) id approved actor
        (λ r. record r { approved_by = some actor }) s s1 first
        (λ m here allowed was.
          let same : l ≡ m = cc (here, found-eq-ok _ looked) in
          record {
            checker = actor;
            approved_it = refl;
            independent = rw same at (approver-independent threshold l actor checked);
          })
        all)

advance-AllChecked :
    (threshold : Option ℤ) (id actor : ℕ) (step : Step) (s s' : Store)
    → transition_to id (target step) actor s ≡ ok s'
    → AllChecked threshold s
    → AllChecked threshold s'
unfolding transition_to
advance-AllChecked threshold id actor step s s' h all =
    transition-All (IsChecked threshold) id (target step) actor (λ l. l) s s' h
      (λ l here allowed was. step-IsChecked threshold l (target step) allowed (plain step) was) all
  where
    plain : (x : Step) → enters (target x) ≡ is_past_approval (target x)
    plain requires_prn = refl
    plain attaches_prn = refl
    plain starts_payment = refl
    plain blocks_payment = refl
    plain pays = refl
    plain confirms = refl

call-AllChecked :
    (threshold : Option ℤ) (c : Call) (s s' : Store)
    → call threshold c s ≡ ok s'
    → AllChecked threshold s
    → AllChecked threshold s'
unfolding call reconcile reject require_review cancel
call-AllChecked threshold (creates input actor) s s' h all =
    create-All (IsChecked threshold) input actor s s' h tt all
call-AllChecked threshold (reconciles id actor) s s' h all =
    transition-All (IsChecked threshold) id reconciled actor _ s s' h (λ l here allowed was. tt) all
call-AllChecked threshold (approves id actor) s s' h all =
    approve-AllChecked threshold id actor s s' h all
call-AllChecked threshold (rejects id actor) s s' h all =
    transition-All (IsChecked threshold) id rejected actor _ s s' h (λ l here allowed was. tt) all
call-AllChecked threshold (reviews id actor) s s' h all =
    transition-All (IsChecked threshold) id requires_review actor _ s s' h
      (λ l here allowed was. tt) all
call-AllChecked threshold (cancels id actor) s s' h all =
    transition-All (IsChecked threshold) id cancelled actor _ s s' h (λ l here allowed was. tt) all
call-AllChecked threshold (advances id step actor) s s' h all =
    advance-AllChecked threshold id actor step s s' h all

kept-All :
    (P : TaxLiability → Type 0) (s : Store) (m : Checked Store)
    → ((s' : Store) → m ≡ ok s' → All P s'.liabilities)
    → All P s.liabilities
    → All P (kept s m).liabilities
kept-All P s (ok s') h all = h s' refl
kept-All P s (err e) h all = all

-- Maker and checker: after any sequence of calls from tables where this holds, every liability that
-- is past its approval was approved by someone else than the one who reconciled it, unless its
-- amount is within the configured threshold.
pub run_all-IsChecked :
    (threshold : Option ℤ) (calls : List Call) (s : Store)
    → All (IsChecked threshold) s.liabilities
    → All (IsChecked threshold) (run_all threshold calls s).liabilities
unfolding run_all
run_all-IsChecked threshold [] s all = all
run_all-IsChecked threshold (c ∷ cs) s all =
    run_all-IsChecked threshold cs (kept s (call threshold c s)) (
      kept-All (IsChecked threshold) s (call threshold c s)
        (λ s' h. call-AllChecked threshold c s s' h all) all)
