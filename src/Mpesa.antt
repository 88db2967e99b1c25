-- ===== src/Mpesa.antt =====
-- The M-Pesa client: `MpesaService` of backend/src/mpesa/mpesa.service.ts. The data and the result
-- codes here, the status query in Query, the requests in Client. The text shown to the buyer is left
-- out.
pub mod Query
pub mod Client
pub mod Retries
pub mod Push
mod Tests
use ticketflow_kenya.Base.{
  ℕ, Bool, true, false, Option, none, some, List, [], ◌∷◌, ◌==◌, if◌then◌else◌,
}

pub data MpesaOutcome : Type 0 where
  success cancelled expired failed processing : MpesaOutcome

-- A result code as Daraja sends it, a number or a text: none, an empty text, the decimal text of a
-- number or the number, any other text. The names that every JavaScript object has ("constructor",
-- "toString" and so on) are not among the other texts: for these the look-up in RESULT_CODE_MAP finds
-- what the object inherits, which has no outcome.
pub data ResultCode : Type 0 where
  absent empty other_text : ResultCode
  code : ℕ → ResultCode

pub record StkQueryResult : Type 0 where
  pub outcome : MpesaOutcome
  pub result_code : ResultCode
  pub unavailable : Bool

-- RESULT_CODE_MAP.
abbrev pub result_code_map : List (ℕ × MpesaOutcome)
result_code_map =
    (0, MpesaOutcome.success)
    ∷ (1, MpesaOutcome.failed)
    ∷ (17, MpesaOutcome.failed)
    ∷ (26, MpesaOutcome.failed)
    ∷ (1_001, MpesaOutcome.failed)
    ∷ (1_019, MpesaOutcome.expired)
    ∷ (1_025, MpesaOutcome.failed)
    ∷ (1_032, MpesaOutcome.cancelled)
    ∷ (1_037, MpesaOutcome.expired)
    ∷ (1_101, MpesaOutcome.failed)
    ∷ (2_001, MpesaOutcome.failed)
    ∷ (9_999, MpesaOutcome.failed)
    ∷ []

-- A code that is not in the map counts as a failure.
unfoldable pub look_up : ℕ → List (ℕ × MpesaOutcome) → MpesaOutcome
look_up n [] = MpesaOutcome.failed
look_up n ((k, o) ∷ rest) = if n == k then o else look_up n rest

-- `classifyResultCode`
abbrev pub classify : ResultCode → MpesaOutcome
classify ResultCode.absent = MpesaOutcome.processing
classify ResultCode.empty = MpesaOutcome.processing
classify ResultCode.other_text = MpesaOutcome.failed
classify (ResultCode.code n) = look_up n result_code_map

abbrev pub is_success : MpesaOutcome → Bool
is_success MpesaOutcome.success = true
is_success _ = false

abbrev pub is_processing : MpesaOutcome → Bool
is_processing MpesaOutcome.processing = true
is_processing _ = false

-- The names of the entries of the callback's metadata that the source looks for.
pub data ItemName : Type 0 where
  amount mpesa_receipt_number other_name : ItemName

-- A value of the metadata: the whole number that `Number(value)` is, none when it is any other
-- number, and the value as a receipt, none when it is falsy.
pub record ItemValue : Type 0 where
  pub as_number : Option ℕ
  pub as_receipt : Option ℕ

pub record CallbackItem : Type 0 where
  pub name : ItemName
  pub value : Option ItemValue

abbrev pub is_receipt_name : ItemName → Bool
is_receipt_name ItemName.mpesa_receipt_number = true
is_receipt_name _ = false

abbrev pub is_amount_name : ItemName → Bool
is_amount_name ItemName.amount = true
is_amount_name _ = false

-- `items.find((i) => i.Name === name)`, and its value.
abbrev pub find_value : (ItemName → Bool) → List CallbackItem → Option ItemValue
find_value test [] = none
find_value test (i ∷ is) = if test i.name then i.value else find_value test is

abbrev pub receipt_of : Option ItemValue → Option ℕ
receipt_of none = none
receipt_of (some v) = v.as_receipt

-- `extractReceiptFromCallback`
abbrev pub extract_receipt : List CallbackItem → Option ℕ
extract_receipt items = receipt_of (find_value is_receipt_name items)
