-- ===== src/Tax/Rules/Exclusive.antt =====
-- At most one rule of a code is in force at a date.
use ticketflow_kenya.Base.{
  ℕ, zero, suc, ◌≡◌, refl, ◌<◌, true, List, [], ◌∷◌, ◌++◌, Option, none, some, Result, ok, err,
  >>=-eq-ok, Option-cases, inl, inr, ◌↔◌, arith, if◌then◌else◌,
}
use ticketflow_kenya.Base.Tables.{row_at, alter_at, row_at-snoc, find_row, find_latest}
use ticketflow_kenya.Base.Tables.Latest.{find_row-none, find_latest-some, find_latest-none}
use ticketflow_kenya.Tax.Rules.{
  TaxRuleCode, TaxRule, TaxRuleError, is_effective, find_effective, overlaps, refuse_found,
  assert_no_overlap, create, update_found, approved, approve, disabled, disable, found_rule,
}

-- No two enabled rules of one code and jurisdiction are in force at one date before `far`.
abbrev pub IsExclusive : ℕ → List TaxRule → Type 0
IsExclusive far rules =
    (code : TaxRuleCode) (jurisdiction as_of i j : ℕ) (p q : TaxRule)
    → as_of < far
    → row_at i rules ≡ some p
    → row_at j rules ≡ some q
    → is_effective code jurisdiction as_of p ≡ true
    → is_effective code jurisdiction as_of q ≡ true
    → i ≡ j

-- A rule in force at the date of another is one that the check of `create` finds.
covers-overlaps :
    (far : ℕ) (code : TaxRuleCode) (jurisdiction as_of : ℕ) (old new : TaxRule)
    → as_of < far
    → is_effective code jurisdiction as_of old ≡ true
    → is_effective code jurisdiction as_of new ≡ true
    → overlaps far new.code new.jurisdiction new.effective_from new.effective_to old ≡ true
covers-overlaps far code jurisdiction as_of old new before ho hn = ground arith

enabled-of :
    (code : TaxRuleCode) (jurisdiction as_of : ℕ) (r : TaxRule)
    → is_effective code jurisdiction as_of r ≡ true
    → r.enabled ≡ true
enabled-of code jurisdiction as_of r h = ground arith

-- A date at which a new rule is in force, and the row of an old one that is too.
created-clash :
    (far : ℕ) (new : TaxRule) (rules : List TaxRule)
    → assert_no_overlap far new.code new.jurisdiction new.effective_from new.effective_to rules
      ≡ ok tt
    → (code : TaxRuleCode) (jurisdiction as_of k : ℕ) (p : TaxRule) → as_of < far
    → row_at k rules ≡ some p
    → is_effective code jurisdiction as_of p ≡ true
    → is_effective code jurisdiction as_of new ≡ true
    → ⊥
unfolding assert_no_overlap
created-clash far new rules checked code jurisdiction as_of k p before here hp hn =
    let test = overlaps far new.code new.jurisdiction new.effective_from new.effective_to in
    let missed =
      find_row-none (λ _. test) rules (passed (find_row (λ _. test) rules) checked) k p here in
    cc (missed, covers-overlaps far code jurisdiction as_of p new before hp hn)
  where
    passed : (o : Option (ℕ × TaxRule)) → refuse_found o ≡ ok tt → o ≡ none
    passed none h = refl
    passed (some r) h = cc

appended-IsExclusive :
    (far : ℕ) (new : TaxRule) (rules : List TaxRule)
    → IsExclusive far rules
    → (new.enabled ≡ true
        → assert_no_overlap far new.code new.jurisdiction new.effective_from new.effective_to rules
          ≡ ok tt)
    → IsExclusive far (rules ++ new ∷ [])
appended-IsExclusive far new rules exclusive checked code jurisdiction as_of i j p q before hi hj hp
      hq =
    elim (row_at-snoc i rules new p hi) [
      | inl old_i ↦ elim (row_at-snoc j rules new q hj) [
        | inl old_j ↦ exclusive code jurisdiction as_of i j p q before old_i old_j hp hq
        | inr (last_j, same) ↦ absurd (clash i p q old_i hp same hq)
      ]
      | inr (last_i, same) ↦ elim (row_at-snoc j rules new q hj) [
        | inl old_j ↦ absurd (clash j q p old_j hq same hp)
        | inr (last_j, same') ↦ cc (last_i, last_j)
      ]
    ]
  where
    clash :
        (k : ℕ) (r last : TaxRule)
        → row_at k rules ≡ some r
        → is_effective code jurisdiction as_of r ≡ true
        → new ≡ last
        → is_effective code jurisdiction as_of last ≡ true
        → ⊥
    clash k r last here hr same hl =
        let hn : is_effective code jurisdiction as_of new ≡ true = rw same hl in
        created-clash far new rules (checked (enabled-of code jurisdiction as_of new hn)) code
          jurisdiction as_of k r before here hr hn

create-IsExclusive :
    (far : ℕ) (new : TaxRule) (rules rules' : List TaxRule)
    → IsExclusive far rules
    → create far new rules ≡ ok rules'
    → IsExclusive far rules'
unfolding create
create-IsExclusive far new rules rules' exclusive h =
    let (u, checked, h1) =
      >>=-eq-ok
        (if new.enabled
          then assert_no_overlap far new.code new.jurisdiction new.effective_from new.effective_to
              rules
          else ok tt)
        _ h in
    let same : rules ++ new ∷ [] ≡ rules' = cc h1 in
    rw (← same) (appended-IsExclusive far new rules exclusive (λ e. rw e at checked))

-- A change that brings no rule into force keeps the rules exclusive.
altered-IsExclusive :
    (far id : ℕ) (change : TaxRule → TaxRule) (rules : List TaxRule)
    → ((code : TaxRuleCode) (jurisdiction as_of : ℕ) (r : TaxRule)
        → is_effective code jurisdiction as_of (change r) ≡ true
        → is_effective code jurisdiction as_of r ≡ true)
    → IsExclusive far rules
    → IsExclusive far (alter_at id change rules)
altered-IsExclusive far id change rules weaker exclusive code jurisdiction as_of i j p q before hi
      hj hp hq =
    let (p', hi', hp') = before_change rules id i p hi hp in
    let (q', hj', hq') = before_change rules id j q hj hq in
    exclusive code jurisdiction as_of i j p' q' before hi' hj' hp' hq'
  where
    before_change :
        (rs : List TaxRule) (id k : ℕ) (r : TaxRule)
        → row_at k (alter_at id change rs) ≡ some r
        → is_effective code jurisdiction as_of r ≡ true
        → (r' : TaxRule) × (row_at k rs ≡ some r')
          × (is_effective code jurisdiction as_of r' ≡ true)
    before_change [] id k r h e = cc
    before_change (x ∷ rs) zero zero r h e =
        let same : change x ≡ r = cc h in (x, refl, weaker code jurisdiction as_of x (rw same e))
    before_change (x ∷ rs) zero (suc k) r h e = (r, h, e)
    before_change (x ∷ rs) (suc id) zero r h e = (r, h, e)
    before_change (x ∷ rs) (suc id) (suc k) r h e = before_change rs id k r h e

updated :
    (far id : ℕ) (change : TaxRule → TaxRule) (rules rules' : List TaxRule) (o : Option TaxRule)
    → ((code : TaxRuleCode) (jurisdiction as_of : ℕ) (r : TaxRule)
        → is_effective code jurisdiction as_of (change r) ≡ true
        → is_effective code jurisdiction as_of r ≡ true)
    → IsExclusive far rules
    → update_found o id change rules ≡ ok rules'
    → IsExclusive far rules'
updated far id change rules rules' none weaker exclusive h = cc
updated far id change rules rules' (some r) weaker exclusive h =
    let same : alter_at id change rules ≡ rules' = cc h in
    rw (← same) (altered-IsExclusive far id change rules weaker exclusive)

never :
    (code : TaxRuleCode) (jurisdiction as_of : ℕ) (r : TaxRule)
    → is_effective code jurisdiction as_of (disabled r) ≡ true
    → is_effective code jurisdiction as_of r ≡ true
never code jurisdiction as_of r h = ground arith

approve-IsExclusive :
    (far id by : ℕ) (rules rules' : List TaxRule)
    → IsExclusive far rules
    → approve id by rules ≡ ok rules'
    → IsExclusive far rules'
unfolding approve
approve-IsExclusive far id by rules rules' exclusive h =
    updated far id (approved by) rules rules' (row_at id rules) (λ code jurisdiction as_of r e. e)
      exclusive h

disable-IsExclusive :
    (far id : ℕ) (rules rules' : List TaxRule)
    → IsExclusive far rules
    → disable id rules ≡ ok rules'
    → IsExclusive far rules'
unfolding disable
disable-IsExclusive far id rules rules' exclusive h =
    updated far id disabled rules rules' (row_at id rules)
      (λ code jurisdiction as_of r e. never code jurisdiction as_of r e) exclusive h

-- The calls that change the rules.
pub data Call : Type 0 where
  create_rule : TaxRule → Call
  approve_rule : ℕ → ℕ → Call
  disable_rule : ℕ → Call

abbrev kept : List TaxRule → Result TaxRuleError (List TaxRule) → List TaxRule
kept rules (ok new) = new
kept rules (err e) = rules

unfoldable pub run : ℕ → Call → List TaxRule → List TaxRule
run far (create_rule new) rules = kept rules (create far new rules)
run far (approve_rule id by) rules = kept rules (approve id by rules)
run far (disable_rule id) rules = kept rules (disable id rules)

unfoldable pub run_all : ℕ → List Call → List TaxRule → List TaxRule
run_all far [] rules = rules
run_all far (call ∷ calls) rules = run_all far calls (run far call rules)

kept-IsExclusive :
    (far : ℕ) (rules : List TaxRule) (m : Result TaxRuleError (List TaxRule))
    → IsExclusive far rules
    → ((new : List TaxRule) → m ≡ ok new → IsExclusive far new)
    → IsExclusive far (kept rules m)
kept-IsExclusive far rules (ok new) exclusive h = h new refl
kept-IsExclusive far rules (err e) exclusive h = exclusive

run-IsExclusive :
    (far : ℕ) (call : Call) (rules : List TaxRule)
    → IsExclusive far rules
    → IsExclusive far (run far call rules)
unfolding run
run-IsExclusive far (create_rule new) rules x =
    kept-IsExclusive far rules (create far new rules) x
      (λ r h. create-IsExclusive far new rules r x h)
run-IsExclusive far (approve_rule id by) rules x =
    kept-IsExclusive far rules (approve id by rules) x
      (λ r h. approve-IsExclusive far id by rules r x h)
run-IsExclusive far (disable_rule id) rules x =
    kept-IsExclusive far rules (disable id rules) x (λ r h. disable-IsExclusive far id rules r x h)

-- From rules of which no two of one code are in force at one date before `far`, the end that the check
-- of `create` takes for an open one, no sequence of calls leads to two that are.
pub run_all-IsExclusive :
    (far : ℕ) (calls : List Call) (rules : List TaxRule)
    → IsExclusive far rules
    → IsExclusive far (run_all far calls rules)
unfolding run_all
run_all-IsExclusive far [] rules x = x
run_all-IsExclusive far (call ∷ calls) rules x =
    run_all-IsExclusive far calls (run far call rules) (run-IsExclusive far call rules x)

-- After any sequence of calls from no rules, `findEffective` at a date before `far` returns a row
-- exactly when it is a row of the table that is enabled, has the code and is in force at the date.
pub find_effective_lem :
    (far : ℕ) (calls : List Call) (code : TaxRuleCode) (as_of jurisdiction i : ℕ) (r : TaxRule)
    → as_of < far
    → (find_effective code as_of jurisdiction (run_all far calls []) ≡ ok (i, r)) ↔ (
        (row_at i (run_all far calls []) ≡ some r)
        × (is_effective code jurisdiction as_of r ≡ true))
unfolding find_effective
find_effective_lem far calls code as_of jurisdiction i r before =
    let rules = run_all far calls [] in
    let test = is_effective code jurisdiction as_of in
    let start = λ (r : TaxRule). r.effective_from in
    (
      λ h. find_latest-some start test rules i r (inside (find_latest start test rules) h),
      λ (here, effective). elim (Option-cases (find_latest start test rules)) [
        | inl e ↦ cc (find_latest-none start test rules e i r here, effective)
        | inr ((j, q), e) ↦
            let (there, in_force) = find_latest-some start test rules j q e in
            let index : j ≡ i =
              run_all-IsExclusive far calls [] (λ c u d k l x y b hx. cc) code jurisdiction as_of j
                i q r before there here in_force effective in
            let both : some q ≡ some r = cc (rw index at there, here) in
            let row : q ≡ r = cc both in rw (e, index, row) refl
      ],
    )
  where
    inside : (o : Option (ℕ × TaxRule)) → found_rule o ≡ ok (i, r) → o ≡ some (i, r)
    inside none h = cc
    inside (some x) h = let same : x ≡ (i, r) = cc h in rw same refl
