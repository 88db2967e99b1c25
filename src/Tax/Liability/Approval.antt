-- ===== src/Tax/Liability/Approval.antt =====
-- Maker and checker: who may have approved a liability.
use ticketflow_kenya.Base.{
  ℕ, ◌≡◌, refl, ◌∙◌, Bool, true, false, not, List, [], ◌∷◌, ◌++◌, Option, none, some, ok, >>=-eq-ok,
  throw_if, All, ◌⊎◌, inl, inr, Bool-cases,
}
use ticketflow_kenya.Base.Int.{ℤ}
use ticketflow_kenya.Base.Tables.{row_at, put_at}
use ticketflow_kenya.Tax.Types.{RecordId}
use ticketflow_kenya.Tax.Liability.{
  TaxLiabilityStatus, TaxLiabilityStatus-discrete, draft, calculated, reconciled, approved,
  prn_required, prn_attached, payment_processing, paid, kra_confirmed, rejected, failed, cancelled,
  requires_review, allowed_transitions, is_yes, same_status, includes, LiabilityError,
  assert_valid_transition, TaxLiability, Store, found, transition, is_low_value, is_same_actor,
  change_entry,
}

-- The statuses that only an approved liability has.
abbrev pub is_past_approval : TaxLiabilityStatus → Bool
is_past_approval approved = true
is_past_approval prn_required = true
is_past_approval prn_attached = true
is_past_approval payment_processing = true
is_past_approval paid = true
is_past_approval kra_confirmed = true
is_past_approval failed = true
is_past_approval _ = false

-- Someone else than the reconciler approved the liability, or its amount is within the threshold.
pub record IsApproved (threshold : Option ℤ) (l : TaxLiability) : Type 0 where
  pub checker : RecordId
  pub approved_it : l.approved_by ≡ some checker
  pub independent :
      (is_low_value threshold l.input.amount_minor ≡ true)
      ⊎ (is_same_actor l.reconciled_by checker ≡ false)

-- A liability past its approval was approved in that way.
abbrev pub ApprovalAt : Bool → Option ℤ → TaxLiability → Type 0
ApprovalAt true threshold l = IsApproved threshold l
ApprovalAt false threshold l = Unit

abbrev pub IsChecked : Option ℤ → TaxLiability → Type 0
IsChecked threshold l = ApprovalAt (is_past_approval l.status) threshold l

is_yes-true {ℓ} : {A : Type ℓ} (d : Dec A) → is_yes d ≡ true → A
is_yes-true (yes a) h = a
is_yes-true (no a) h = cc

pub includes-All {ℓ} :
    (P : TaxLiabilityStatus → Type ℓ) (to : TaxLiabilityStatus) (xs : List TaxLiabilityStatus)
    → All P xs
    → includes to xs ≡ true
    → P to
includes-All P to [] all h = cc
includes-All P to (x ∷ xs) all h = elim (Bool-cases (same_status x to)) [
  | inl e ↦
      let same : x ≡ to = is_yes-true (TaxLiabilityStatus-discrete x to) e in rw (← same) all.0
  | inr e ↦ includes-All P to xs all.1 (rw e at h)
]

-- The only way past the approval is the approval.
abbrev pub enters : TaxLiabilityStatus → Bool
enters approved = false
enters to = is_past_approval to

allowed-outside :
    (from : TaxLiabilityStatus)
    → is_past_approval from ≡ false
    → All (λ to. enters to ≡ false) (allowed_transitions from)
allowed-outside draft h = (refl, (refl, tt))
allowed-outside calculated h = (refl, (refl, (refl, tt)))
allowed-outside reconciled h = (refl, (refl, (refl, tt)))
allowed-outside approved h = cc
allowed-outside prn_required h = cc
allowed-outside prn_attached h = cc
allowed-outside payment_processing h = cc
allowed-outside paid h = cc
allowed-outside kra_confirmed h = cc
allowed-outside failed h = cc
allowed-outside rejected h = (refl, tt)
allowed-outside cancelled h = tt
allowed-outside requires_review h = (refl, (refl, (refl, tt)))

stays_past :
    (from to : TaxLiabilityStatus)
    → includes to (allowed_transitions from) ≡ true
    → enters to ≡ true
    → is_past_approval from ≡ true
stays_past from to allowed enters_it = elim (Bool-cases (is_past_approval from)) [
  | inl past ↦ past
  | inr outside ↦
      let never =
        includes-All (λ t. enters t ≡ false) to (allowed_transitions from)
          (allowed-outside from outside) allowed in
      cc
]

assert-eq-ok :
    (from to : TaxLiabilityStatus) {u : Unit {0}}
    → assert_valid_transition from to ≡ ok u
    → includes to (allowed_transitions from) ≡ true
unfolding assert_valid_transition
assert-eq-ok from to h = passed (includes to (allowed_transitions from)) _ h
  where
    passed : (b : Bool) (e : LiabilityError) {u : Unit {0}} → throw_if (not b) e ≡ ok u → b ≡ true
    passed true e h = refl
    passed false e h = cc

pub found-eq-ok {ℓ} : {A : Type ℓ} (o : Option A) {a : A} → found o ≡ ok a → o ≡ some a
found-eq-ok none h = cc
found-eq-ok (some a) h = cc

-- `transition` returns: the row was there, the step is allowed, and the row and the log change.
pub transition-eq-ok :
    (id : ℕ) (to : TaxLiabilityStatus) (actor : RecordId) (extra : TaxLiability → TaxLiability)
    (s s' : Store)
    → transition id to actor extra s ≡ ok s'
    → (l : TaxLiability) × (row_at id s.liabilities ≡ some l)
      × (includes to (allowed_transitions l.status) ≡ true)
      × (s'.liabilities ≡ put_at id (extra (record l { status = to })) s.liabilities)
      × (s'.audit ≡ s.audit ++ change_entry id actor l.status to ∷ [])
unfolding transition
transition-eq-ok id to actor extra s s' h =
    let (l, looked, h1) = >>=-eq-ok (found (row_at id s.liabilities)) _ h in
    let (u, checked, h2) = >>=-eq-ok (assert_valid_transition l.status to) _ h1 in
    let store : record {
      liabilities = put_at id (extra (record l { status = to })) s.liabilities;
      audit = s.audit ++ change_entry id actor l.status to ∷ [];
    }
        ≡ s' =
      cc h2 in
    rw (← store) (l, found-eq-ok _ looked, assert-eq-ok l.status to checked, refl, refl)

-- A step that writes the status only, not to APPROVED, keeps an approval.
pub step-IsChecked :
    (threshold : Option ℤ) (l : TaxLiability) (to : TaxLiabilityStatus)
    → includes to (allowed_transitions l.status) ≡ true
    → enters to ≡ is_past_approval to
    → IsChecked threshold l
    → IsChecked threshold (record l { status = to })
step-IsChecked threshold l to allowed plain checked = elim (Bool-cases (is_past_approval to)) [
  | inl past ↦
      let before : IsApproved threshold l =
        rw (stays_past l.status to allowed (plain ∙ past)) at checked in
      rw past (record {
        checker = before.checker;
        approved_it = before.approved_it;
        independent = before.independent;
      })
  | inr outside ↦ rw outside tt
]
