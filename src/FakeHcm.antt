-- ===== src/FakeHcm.antt =====
-- The client of HCM that the integration tests put in the place of the real one
-- (src/testing/fake-hcm-client.ts). Its `Map` is a list of slots in the order of insertion. It shares
-- with the mock service the names of the scenarios and the shape of a kept result.
use wizdaa_takehome.Prelude.{
  ℕ, ◌+◌, String, Bool, Option, none, some, List, [], same, first, upsert, if◌then◌else◌,
}
use wizdaa_takehome.Prelude.Int.{ℤ, pos, ◌+ℤ◌, ◌-ℤ◌, ltb_ℤ}
use wizdaa_takehome.Entities.{FileTimeOffCommand, ReverseTimeOffCommand}
use wizdaa_takehome.Balances.{HcmReply, snapshot, unavailable}
use wizdaa_takehome.MockHcm.{
  MockResult, AckText, kept_text, HcmScenario, ResultSlot, store_key, result_is, result_key_is,
  is_timeout, is_mutating, is_silent, should_dedup, max_zero, accepts, declines, prior_result,
}

-- `StoredBalance`, and a slot of `store`.
pub record FakeEntry : Type 0 where
  pub balance : ℤ
  pub as_of : ℕ

pub record FakeSlot : Type 0 where
  pub key : String
  pub entry : FakeEntry

pub record CallCounters : Type 0 where
  pub get_balance : ℕ
  pub file_time_off : ℕ
  pub reverse_time_off : ℕ

pub record FakeStore : Type 0 where
  pub balances : List FakeSlot
  pub results : List ResultSlot
  pub scenario : HcmScenario
  pub calls_to : CallCounters

abbrev pub fake_slot_is : String → FakeSlot → Bool
fake_slot_is key slot = same key slot.key

abbrev pub fake_key_is : FakeSlot → FakeSlot → Bool
fake_key_is slot = fake_slot_is slot.key

abbrev pub fake_entry_of : Option FakeSlot → Option FakeEntry
fake_entry_of none = none
fake_entry_of (some slot) = some slot.entry

-- `store.get`, `store.set` and `idempotencyStore.set`.
abbrev pub get_fake : String → FakeStore → Option FakeEntry
get_fake key s = fake_entry_of (first (fake_slot_is key) s.balances)

abbrev pub set_fake : String → FakeEntry → FakeStore → FakeStore
set_fake key entry s = record s {
  balances = upsert fake_key_is (record { key = key; entry = entry }) s.balances;
}

abbrev pub set_fake_result : String → Bool → AckText → FakeStore → FakeStore
set_fake_result key is_ok acked_at s = record s {
  results =
      upsert result_key_is (record { key = key; is_ok = is_ok; acked_at = acked_at }) s.results;
}

-- `asOf` is the time of the call where it is left out.
unfoldable pub seed_balance : ℕ → String → String → ℤ → Option ℕ → FakeStore → FakeStore
seed_balance now employee location balance none s =
    set_fake (store_key employee location) (record { balance = balance; as_of = now }) s
seed_balance now employee location balance (some as_of) s =
    set_fake (store_key employee location) (record { balance = balance; as_of = as_of }) s

unfoldable pub set_scenario : HcmScenario → FakeStore → FakeStore
set_scenario scenario s = record s { scenario = scenario }

abbrev pub no_calls : CallCounters
no_calls = record { get_balance = 0; file_time_off = 0; reverse_time_off = 0 }

-- `reset`, and a client that is new.
unfoldable pub reset_fake : FakeStore
reset_fake = record {
  balances = [];
  results = [];
  scenario = HcmScenario.correct;
  calls_to = no_calls;
}

abbrev pub count_read : CallCounters → CallCounters
count_read c = record c { get_balance = c.get_balance + 1 }

abbrev pub count_file : CallCounters → CallCounters
count_file c = record c { file_time_off = c.file_time_off + 1 }

abbrev pub count_reverse : CallCounters → CallCounters
count_reverse c = record c { reverse_time_off = c.reverse_time_off + 1 }

-- The entry, or a new one of zero days; one day less in the scenario that changes balances.
abbrev pub fake_provisioned : ℕ → Option FakeEntry → FakeEntry
fake_provisioned now none = record { balance = pos 0; as_of = now }
fake_provisioned now (some entry) = entry

abbrev pub fake_read : HcmScenario → ℕ → FakeEntry → FakeEntry
fake_read scenario now entry =
    if is_mutating scenario
    then record { balance = max_zero (entry.balance -ℤ pos 1); as_of = now }
    else entry

-- To set an entry that is there to itself changes nothing.
abbrev pub fake_answer : ℕ → String → String → FakeStore → HcmReply × FakeStore
fake_answer now employee location s =
    let key = store_key employee location in
    let entry = fake_read s.scenario now (fake_provisioned now (get_fake key s)) in
    (
      snapshot (record {
        employee_id = employee;
        location_id = location;
        balance = entry.balance;
        as_of = entry.as_of;
      }),
      set_fake key entry s,
    )

unfoldable pub fake_get_balance : ℕ → String → String → FakeStore → HcmReply × FakeStore
fake_get_balance now employee location s =
    let counted = record s { calls_to = count_read s.calls_to } in
    if is_timeout s.scenario
    then (unavailable, counted)
    else fake_answer now employee location counted

-- The result is kept under the key, unless the scenario ignores the keys.
abbrev pub keep_fake : String → MockResult → FakeStore → MockResult × FakeStore
keep_fake key r s =
    (r, if should_dedup s.scenario then set_fake_result key r.is_ok (kept_text r.acked_at) s else s)

abbrev pub or_kept :
    Option ResultSlot → (FakeStore → MockResult × FakeStore) → FakeStore → MockResult × FakeStore
or_kept none fresh s = fresh s
or_kept (some prior) fresh s = (prior_result prior, s)

-- What `fileTimeOff` and `reverseTimeOff` begin with.
abbrev pub fake_deduplicated :
    String → (FakeStore → MockResult × FakeStore) → FakeStore → MockResult × FakeStore
fake_deduplicated key fresh s =
    if is_timeout s.scenario
    then (declines "unreachable", s)
    else if should_dedup s.scenario
    then or_kept (first (result_is key) s.results) fresh s
    else fresh s

abbrev pub fake_file_entry :
    FileTimeOffCommand → ℕ → Option FakeEntry → FakeStore → MockResult × FakeStore
fake_file_entry cmd now none s =
    keep_fake cmd.idempotency_key (declines "Employee/location not found") s
fake_file_entry cmd now (some entry) s =
    if ltb_ℤ entry.balance (pos cmd.days)
    then keep_fake cmd.idempotency_key (declines "Insufficient balance") s
    else keep_fake cmd.idempotency_key (accepts now) (
        set_fake (store_key cmd.employee_id cmd.location_id)
          (record { balance = entry.balance -ℤ pos cmd.days; as_of = now }) s)

abbrev pub fake_file_fresh : FileTimeOffCommand → ℕ → FakeStore → MockResult × FakeStore
fake_file_fresh cmd now s =
    if is_silent s.scenario
    then keep_fake cmd.idempotency_key (accepts now) s
    else fake_file_entry cmd now (get_fake (store_key cmd.employee_id cmd.location_id) s) s

unfoldable pub fake_file_time_off : FileTimeOffCommand → ℕ → FakeStore → MockResult × FakeStore
fake_file_time_off cmd now s =
    fake_deduplicated cmd.idempotency_key (fake_file_fresh cmd now)
      (record s { calls_to = count_file s.calls_to })

abbrev pub fake_reverse_entry :
    ReverseTimeOffCommand → ℕ → Option FakeEntry → FakeStore → MockResult × FakeStore
fake_reverse_entry cmd now none s = keep_fake cmd.idempotency_key (accepts now) s
fake_reverse_entry cmd now (some entry) s = keep_fake cmd.idempotency_key (accepts now) (
    set_fake (store_key cmd.employee_id cmd.location_id)
      (record { balance = entry.balance +ℤ pos cmd.days; as_of = now }) s)

unfoldable pub fake_reverse_time_off :
    ReverseTimeOffCommand → ℕ → FakeStore → MockResult × FakeStore
fake_reverse_time_off cmd now s =
    fake_deduplicated cmd.idempotency_key
      (λ s. fake_reverse_entry cmd now (get_fake (store_key cmd.employee_id cmd.location_id) s) s)
      (record s { calls_to = count_reverse s.calls_to })
