-- ===== src/Tax/Liability.antt =====
-- Tax liabilities: the state machine of backend/src/tax/domain/liability/tax-liability.types.ts, and
-- `TaxLiabilityService` of backend/src/tax/infrastructure/repositories/tax-liability.service.ts. A
-- liability's id is its position in the table; time stamps, the due date, the reasons in free text and
-- the audit entries' hashes are left out.
pub mod Approval
pub mod Calls
mod Tests
use ticketflow_kenya.Base.{
  ℕ, Bool, true, false, not, ◌&&◌, ◌||◌, List, [], ◌∷◌, ◌++◌, Option, none, some, Result, ok, err,
  ◌>>=◌, ◌>>◌, throw_if, ◌==◌, if◌then◌else◌, length,
}
use ticketflow_kenya.Base.Int.{ℤ, pos, ltb_ℤ, leb_ℤ}
use ticketflow_kenya.Base.Tables.{row_at, put_at}
use ticketflow_kenya.Tax.Types.{RecordId}

pub data TaxLiabilityStatus : Type 0 where
  draft calculated reconciled approved prn_required prn_attached : TaxLiabilityStatus
  payment_processing paid kra_confirmed rejected failed cancelled : TaxLiabilityStatus
  requires_review : TaxLiabilityStatus

pub TaxLiabilityStatus-discrete : Discrete TaxLiabilityStatus
TaxLiabilityStatus-discrete = hlevel

-- `ALLOWED_LIABILITY_TRANSITIONS`
abbrev pub allowed_transitions : TaxLiabilityStatus → List TaxLiabilityStatus
allowed_transitions draft = calculated ∷ cancelled ∷ []
allowed_transitions calculated = reconciled ∷ requires_review ∷ cancelled ∷ []
allowed_transitions reconciled = approved ∷ rejected ∷ requires_review ∷ []
allowed_transitions approved = prn_required ∷ cancelled ∷ []
allowed_transitions prn_required = prn_attached ∷ cancelled ∷ []
allowed_transitions prn_attached = payment_processing ∷ cancelled ∷ []
allowed_transitions payment_processing = paid ∷ failed ∷ requires_review ∷ []
allowed_transitions paid = kra_confirmed ∷ []
allowed_transitions kra_confirmed = []
allowed_transitions rejected = draft ∷ []
allowed_transitions failed = payment_processing ∷ requires_review ∷ []
allowed_transitions cancelled = []
allowed_transitions requires_review = calculated ∷ reconciled ∷ cancelled ∷ []

abbrev pub is_yes {ℓ} : {A : Type ℓ} → Dec A → Bool
is_yes (yes a) = true
is_yes (no a) = false

abbrev pub same_status : TaxLiabilityStatus → TaxLiabilityStatus → Bool
same_status a b = is_yes (TaxLiabilityStatus-discrete a b)

abbrev pub includes : TaxLiabilityStatus → List TaxLiabilityStatus → Bool
includes to [] = false
includes to (x ∷ xs) = same_status x to || includes to xs

pub data LiabilityError : Type 0 where
  invalid_transition : TaxLiabilityStatus → TaxLiabilityStatus → LiabilityError
  organizer_required organizer_forbidden negative_amount : LiabilityError
  liability_not_found same_actor : LiabilityError

abbrev pub Checked {ℓ} : Type ℓ → Type ℓ
Checked A = Result LiabilityError A

unfoldable pub assert_valid_transition :
    TaxLiabilityStatus → TaxLiabilityStatus → Checked (Unit {0})
assert_valid_transition from to =
    throw_if (not (includes to (allowed_transitions from))) (invalid_transition from to)

pub data Owner : Type 0 where
  ticket_flow organizer : Owner

pub record CreateTaxLiabilityInput : Type 0 where
  pub period_id : Option RecordId
  pub tax_head : RecordId
  pub owner : Owner
  pub organizer_id : Option RecordId
  pub amount_minor : ℤ

pub record TaxLiability : Type 0 where
  pub input : CreateTaxLiabilityInput
  pub status : TaxLiabilityStatus
  pub prepared_by : RecordId
  pub reconciled_by : Option RecordId
  pub approved_by : Option RecordId
  pub rejected_by : Option RecordId

-- The entry that the audit service logs.
pub record AuditEntry : Type 0 where
  pub entity_id : RecordId
  pub actor : RecordId
  pub from : Option TaxLiabilityStatus
  pub to : TaxLiabilityStatus

pub record Store : Type 0 where
  pub liabilities : List TaxLiability
  pub audit : List AuditEntry

abbrev pub found {ℓ} : {A : Type ℓ} → Option A → Checked A
found none = err liability_not_found
found (some a) = ok a

abbrev pub change_entry : RecordId → RecordId → TaxLiabilityStatus → TaxLiabilityStatus → AuditEntry
change_entry id actor old new = record { entity_id = id; actor = actor; from = some old; to = new }

abbrev is_none : Option RecordId → Bool
is_none none = true
is_none (some a) = false

abbrev same_id : Option RecordId → Option RecordId → Bool
same_id none none = true
same_id (some a) (some b) = a == b
same_id _ _ = false

abbrev same_owner : Owner → Owner → Bool
same_owner ticket_flow ticket_flow = true
same_owner organizer organizer = true
same_owner _ _ = false

-- Equal values of `idempotencyKey`.
abbrev pub same_key : CreateTaxLiabilityInput → CreateTaxLiabilityInput → Bool
same_key a b =
    same_id a.period_id b.period_id
    && a.tax_head == b.tax_head
    && same_owner a.owner b.owner
    && same_id a.organizer_id b.organizer_id

unfoldable pub find_key : CreateTaxLiabilityInput → List TaxLiability → Option TaxLiability
find_key input [] = none
find_key input (l ∷ ls) = if same_key l.input input then some l else find_key input ls

-- The guards of `create`.
unfoldable pub check_input : CreateTaxLiabilityInput → Checked (Unit {0})
check_input input =
    throw_if (same_owner input.owner organizer && is_none input.organizer_id) organizer_required
    >> throw_if (same_owner input.owner ticket_flow && not (is_none input.organizer_id))
        organizer_forbidden
    >> throw_if (ltb_ℤ input.amount_minor (pos 0)) negative_amount

abbrev pub new_liability : CreateTaxLiabilityInput → RecordId → TaxLiability
new_liability input actor = record {
  input = input;
  status = calculated;
  prepared_by = actor;
  reconciled_by = none;
  approved_by = none;
  rejected_by = none;
}

abbrev pub create_row :
    CreateTaxLiabilityInput → RecordId → Option TaxLiability → Store → TaxLiability × Store
create_row input actor (some existing) s = (existing, s)
create_row input actor none s = (
  new_liability input actor,
  record {
    liabilities = s.liabilities ++ new_liability input actor ∷ [];
    audit =
        s.audit
        ++ record { entity_id = length s.liabilities; actor = actor; from = none; to = calculated }
          ∷ [];
  },
)

unfoldable pub create : CreateTaxLiabilityInput → RecordId → Store → Checked (TaxLiability × Store)
create input actor s = do
  check_input input
  ok (create_row input actor (find_key input s.liabilities) s)

-- `transition`, with the other fields that it writes as a function.
unfoldable pub transition :
    RecordId → TaxLiabilityStatus → RecordId → (TaxLiability → TaxLiability) → Store → Checked Store
transition id to actor extra s = do
  l ← found (row_at id s.liabilities)
  assert_valid_transition l.status to
  ok (record {
    liabilities = put_at id (extra (record l { status = to })) s.liabilities;
    audit = s.audit ++ change_entry id actor l.status to ∷ [];
  })

unfoldable pub reconcile : RecordId → RecordId → Store → Checked Store
reconcile id actor s =
    transition id reconciled actor (λ l. record l { reconciled_by = some actor }) s

-- `threshold !== null && liability.amountMinor <= threshold`
abbrev pub is_low_value : Option ℤ → ℤ → Bool
is_low_value none amount = false
is_low_value (some threshold) amount = leb_ℤ amount threshold

-- `makerUserId && makerUserId === checkerUserId`
abbrev pub is_same_actor : Option RecordId → RecordId → Bool
is_same_actor none checker = false
is_same_actor (some maker) checker = maker == checker

unfoldable pub assert_different_actors : Option RecordId → RecordId → Checked (Unit {0})
assert_different_actors maker checker = throw_if (is_same_actor maker checker) same_actor

-- The check of `approve`, with the threshold of the configuration.
unfoldable pub check_approver : Option ℤ → TaxLiability → RecordId → Checked (Unit {0})
check_approver threshold l actor =
    if is_low_value threshold l.input.amount_minor
    then ok tt
    else assert_different_actors l.reconciled_by actor

unfoldable pub approve : Option ℤ → RecordId → RecordId → Store → Checked Store
approve threshold id actor s = do
  l ← found (row_at id s.liabilities)
  check_approver threshold l actor
  s1 ← transition id approved actor (λ r. record r { approved_by = some actor }) s
  transition id prn_required actor (λ r. r) s1

unfoldable pub reject : RecordId → RecordId → Store → Checked Store
reject id actor s = transition id rejected actor (λ l. record l { rejected_by = some actor }) s

unfoldable pub require_review : RecordId → RecordId → Store → Checked Store
require_review id actor s = transition id requires_review actor (λ l. l) s

unfoldable pub cancel : RecordId → RecordId → Store → Checked Store
cancel id actor s = transition id cancelled actor (λ l. l) s

-- `transitionTo`, with no other fields, as the PRN and remittance services call it.
unfoldable pub transition_to : RecordId → TaxLiabilityStatus → RecordId → Store → Checked Store
transition_to id to actor s = transition id to actor (λ l. l) s
