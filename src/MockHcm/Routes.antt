-- ===== src/MockHcm/Routes.antt =====
-- The routes that the service calls (src/mock-hcm/hcm.controller.ts). A missing header or query
-- parameter is the empty text: the source tests both alike.
use wizdaa_takehome.Prelude.{
  ℕ, String, Bool, true, false, Option, none, some, ◌||◌, same, first, if◌then◌else◌,
}
use wizdaa_takehome.Prelude.Int.{ℤ, pos, negsuc, ◌+ℤ◌, ◌-ℤ◌, ltb_ℤ}
use wizdaa_takehome.Entities.{HcmBalance, FileTimeOffCommand, ReverseTimeOffCommand}
use wizdaa_takehome.MockHcm.Store.{
  MockResult, AckText, blank, time_text, BalanceEntry, ResultSlot, HcmScenario, MockStore,
  store_key, result_is, get_entry, set_entry, set_result,
}

-- An answer, or the status of the exception that is thrown.
pub data Answer (A : Type 0) : Type 0 where
  gives : A → Answer A
  status : ℕ → Answer A

abbrev pub is_timeout : HcmScenario → Bool
is_timeout HcmScenario.timeout = true
is_timeout _ = false

abbrev pub is_mutating : HcmScenario → Bool
is_mutating HcmScenario.mutate_between_calls = true
is_mutating _ = false

abbrev pub is_silent : HcmScenario → Bool
is_silent HcmScenario.silent_insufficient = true
is_silent _ = false

-- `shouldDedup`.
abbrev pub should_dedup : HcmScenario → Bool
should_dedup HcmScenario.ignore_idempotency_key = false
should_dedup _ = true

-- `Math.max(0, value)`.
abbrev pub max_zero : ℤ → ℤ
max_zero (pos n) = pos n
max_zero (negsuc n) = pos 0

abbrev pub wire_balance : BalanceEntry → HcmBalance
wire_balance entry = record {
  employee_id = entry.employee_id;
  location_id = entry.location_id;
  balance = entry.balance;
  as_of = entry.as_of;
}

-- The entry, or a new one of zero days.
abbrev pub provisioned : String → String → ℕ → Option BalanceEntry → BalanceEntry
provisioned employee location now none = record {
  employee_id = employee;
  location_id = location;
  balance = pos 0;
  as_of = now;
}
provisioned employee location now (some entry) = entry

-- One day less at each read, in the scenario that changes balances between calls.
abbrev pub read_entry : HcmScenario → ℕ → BalanceEntry → BalanceEntry
read_entry scenario now entry =
    if is_mutating scenario
    then record entry { balance = max_zero (entry.balance -ℤ pos 1); as_of = now }
    else entry

-- To set an entry that is there to itself changes nothing.
unfoldable pub mock_get_balance : ℕ → String → String → MockStore → Answer HcmBalance × MockStore
mock_get_balance now employee location s =
    if same employee "" || same location ""
    then (status 400, s)
    else if is_timeout s.scenario
    then (status 503, s)
    else (let key = store_key employee location in
        let entry =
          read_entry s.scenario now (provisioned employee location now (get_entry key s)) in
        (gives (wire_balance entry), set_entry key entry s))

abbrev pub accepts : ℕ → MockResult
accepts now = record { is_ok = true; acked_at = some (time_text now); error_hint = none }

abbrev pub declines : String → MockResult
declines hint = record { is_ok = false; acked_at = none; error_hint = some hint }

abbrev pub prior_result : ResultSlot → MockResult
prior_result slot = record { is_ok = slot.is_ok; acked_at = some slot.acked_at; error_hint = none }

-- The text that is kept: the empty one for an answer with no time.
abbrev pub kept_text : Option AckText → AckText
kept_text none = blank
kept_text (some text) = text

-- The result is kept under the key, unless the scenario ignores the keys.
abbrev pub keep_result : String → MockResult → MockStore → Answer MockResult × MockStore
keep_result key r s = (
  gives r,
  if should_dedup s.scenario then set_result key r.is_ok (kept_text r.acked_at) s else s,
)

abbrev pub or_prior :
    Option ResultSlot
    → (MockStore → Answer MockResult × MockStore)
    → MockStore
    → Answer MockResult × MockStore
or_prior none fresh s = fresh s
or_prior (some prior) fresh s = (gives (prior_result prior), s)

-- What both routes check first, and the result of an earlier call of the same key.
unfoldable pub deduplicated :
    String → (MockStore → Answer MockResult × MockStore) → MockStore → Answer MockResult × MockStore
deduplicated key fresh s =
    if same key ""
    then (status 400, s)
    else if is_timeout s.scenario
    then (status 503, s)
    else if should_dedup s.scenario
    then or_prior (first (result_is key) s.results) fresh s
    else fresh s

-- A filing of a new key against the entry that is there.
abbrev pub file_entry :
    String
    → FileTimeOffCommand
    → ℕ
    → Option BalanceEntry
    → MockStore
    → Answer MockResult × MockStore
file_entry key cmd now none s = keep_result key (declines "Employee/location not found") s
file_entry key cmd now (some entry) s =
    if ltb_ℤ entry.balance (pos cmd.days)
    then keep_result key (declines "Insufficient balance") s
    else keep_result key (accepts now) (
        set_entry (store_key cmd.employee_id cmd.location_id)
          (record entry { balance = entry.balance -ℤ pos cmd.days; as_of = now }) s)

abbrev pub file_fresh : String → FileTimeOffCommand → ℕ → MockStore → Answer MockResult × MockStore
file_fresh key cmd now s =
    if is_silent s.scenario
    then keep_result key (accepts now) s
    else file_entry key cmd now (get_entry (store_key cmd.employee_id cmd.location_id) s) s

unfoldable pub mock_file_time_off :
    String → FileTimeOffCommand → ℕ → MockStore → Answer MockResult × MockStore
mock_file_time_off key cmd now = deduplicated key (file_fresh key cmd now)

abbrev pub reverse_entry :
    String
    → ReverseTimeOffCommand
    → ℕ
    → Option BalanceEntry
    → MockStore
    → Answer MockResult × MockStore
reverse_entry key cmd now none s = keep_result key (accepts now) s
reverse_entry key cmd now (some entry) s = keep_result key (accepts now) (
    set_entry (store_key cmd.employee_id cmd.location_id)
      (record entry { balance = entry.balance +ℤ pos cmd.days; as_of = now }) s)

unfoldable pub mock_reverse_time_off :
    String → ReverseTimeOffCommand → ℕ → MockStore → Answer MockResult × MockStore
mock_reverse_time_off key cmd now =
    deduplicated key
      (λ s. reverse_entry key cmd now (get_entry (store_key cmd.employee_id cmd.location_id) s) s)
