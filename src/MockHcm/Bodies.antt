-- ===== src/MockHcm/Bodies.antt =====
-- What the bodies of the routes of the mock have to be, as class-validator reads their classes
-- (src/mock-hcm/dto/file-timeoff.dto.ts and src/mock-hcm/dto/control.dto.ts), and the routes behind
-- `ValidationPipe`.
use mathlib.Core.Option
use wizdaa_takehome.Prelude.{ℕ, String, Bool, true, false, Option, none, some, List, ◌&&◌}
use wizdaa_takehome.Prelude.Int.{pos}
use wizdaa_takehome.Entities.{HcmBalance, BatchCorpus, FileTimeOffCommand}
use wizdaa_takehome.Http.{
  Field, text, whole, missing, text_field, is_not_empty, int_field, positive_field, both_given,
  each_given, make_entry, text_of,
}
use wizdaa_takehome.MockHcm.Store.{MockResult, MockStore}
use wizdaa_takehome.MockHcm.Routes.{Answer, status, mock_file_time_off, mock_reverse_time_off}
use wizdaa_takehome.MockHcm.Control.{
  Overrides, Delivery, Emitted, scenario_of, mock_set_scenario, mock_refresh, emit_batch,
}

abbrev pub is_given : {A : Type 0} → Option A → Bool
is_given none = false
is_given (some a) = true

-- `@IsOptional()`.
abbrev pub optional : {A : Type 0} → (Field → Option A) → Field → Option (Option A)
optional f missing = some none
optional f x = Option.map some (f x)

-- `FileTimeOffDto` and `ReverseTimeOffDto`, which have the same fields, as they come.
pub record RawCommand : Type 0 where
  pub employee_id : Field
  pub location_id : Field
  pub days : Field
  pub start_date : Field
  pub end_date : Field
  pub idempotency_key : Field

-- The properties of a command in JSON.
abbrev pub body_of : FileTimeOffCommand → RawCommand
body_of cmd = record {
  employee_id = text cmd.employee_id;
  location_id = text cmd.location_id;
  days = whole (pos cmd.days);
  start_date = text cmd.start_date;
  end_date = text cmd.end_date;
  idempotency_key = text cmd.idempotency_key;
}

abbrev pub make_command : (String × String) × ℕ → (String × String) × String → FileTimeOffCommand
make_command ((employee, location), days) ((start_date, end_date), key) = record {
  employee_id = employee;
  location_id = location;
  days = days;
  start_date = start_date;
  end_date = end_date;
  idempotency_key = key;
}

abbrev pub paired : {A B : Type 0} → Option A → Option B → Option (A × B)
paired = both_given (λ a b. (a, b))

-- An answer to a body that is not of its class, or what the handler answers.
abbrev pub answered_or :
    {A B : Type 0}
    → Option B
    → (B → MockStore → Answer A × MockStore)
    → MockStore
    → Answer A × MockStore
answered_or none handler s = (status 400, s)
answered_or (some b) handler s = handler b s

-- `@IsDateString()` is class-validator's to decide.
module _ (is_date : String → Bool) where
  unfoldable pub command_of_body : RawCommand → Option FileTimeOffCommand
  command_of_body raw =
      both_given make_command
        (paired
          (paired (text_field is_not_empty raw.employee_id)
            (text_field is_not_empty raw.location_id))
          (positive_field raw.days))
        (paired (paired (text_field is_date raw.start_date) (text_field is_date raw.end_date))
          (text_field is_not_empty raw.idempotency_key))

  unfoldable pub file_route :
      ℕ → Option String → RawCommand → MockStore → Answer MockResult × MockStore
  file_route now key raw =
      answered_or (command_of_body raw) (λ cmd. mock_file_time_off (text_of key) cmd now)

  unfoldable pub reverse_route :
      ℕ → Option String → RawCommand → MockStore → Answer MockResult × MockStore
  reverse_route now key raw =
      answered_or (command_of_body raw) (λ cmd. mock_reverse_time_off (text_of key) cmd now)

-- `ScenarioDto`: `@IsIn(VALID_SCENARIOS)`.
unfoldable pub scenario_route : Field → MockStore → Answer String × MockStore
scenario_route raw =
    answered_or (text_field (λ s. is_not_empty s && is_given (scenario_of s)) raw) mock_set_scenario

-- `RefreshDto`.
unfoldable pub refresh_route : ℕ → Field → Field → Field → MockStore → Answer HcmBalance × MockStore
refresh_route now employee location balance =
    answered_or
      (paired (paired (text_field is_not_empty employee) (text_field is_not_empty location))
        (int_field balance))
      (λ ((a, b), days). mock_refresh now a b days)

-- `HcmBalanceWireDto` and `EmitBatchDto`, as they come. The balances are missing, a list, or
-- something else.
pub record RawWireEntry : Type 0 where
  pub employee_id : Field
  pub location_id : Field
  pub balance : Field
  pub as_of : Field

pub data RawList : Type 0 where
  entries : List RawWireEntry → RawList
  no_list no_entries : RawList

-- `@IsISO8601()` is class-validator's to decide, and `time_of` is the time of such a text.
module _ (is_iso : String → Bool) (time_of : String → ℕ) where
  abbrev pub wire_time : Field → Option ℕ
  wire_time raw = Option.map time_of (text_field is_iso raw)

  unfoldable pub wire_entry : RawWireEntry → Option HcmBalance
  wire_entry raw =
      both_given make_entry
        (paired (text_field is_not_empty raw.employee_id) (text_field is_not_empty raw.location_id))
        (paired (int_field raw.balance) (wire_time raw.as_of))

  abbrev pub wire_entries : RawList → Option (Option (List HcmBalance))
  wire_entries (entries xs) = Option.map some (each_given wire_entry xs)
  wire_entries no_list = none
  wire_entries no_entries = some none

  abbrev pub make_overrides : Option (List HcmBalance) → Option ℕ × Option ℕ → Overrides
  make_overrides balances (as_of, sequence) = record {
    balances = balances;
    as_of = as_of;
    sequence = sequence;
  }

  unfoldable pub emit_route :
      (BatchCorpus → Delivery)
      → ℕ
      → Field
      → RawList
      → Field
      → Field
      → MockStore
      → Answer Emitted × MockStore
  emit_route post now target balances as_of sequence =
      answered_or
        (paired (text_field is_not_empty target) (
          both_given make_overrides (wire_entries balances)
            (paired (optional wire_time as_of) (optional positive_field sequence))))
        (λ (url, overrides). emit_batch post now url overrides)
