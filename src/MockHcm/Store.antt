-- ===== src/MockHcm/Store.antt =====
-- The store (src/mock-hcm/mock-hcm.store.ts): its module-level variables are one record. A `Map` is a
-- list of slots in the order of insertion; a key that is there keeps its place when it is set.
use wizdaa_takehome.Prelude.{
  ℕ, ◌+◌, String, Bool, Option, none, some, List, [], same, join, first, upsert,
}
use wizdaa_takehome.Prelude.Int.{ℤ, pos}

pub record BalanceEntry : Type 0 where
  pub employee_id : String
  pub location_id : String
  pub balance : ℤ
  pub as_of : ℕ

-- The text of `ackedAt`: empty, or that of a time.
pub data AckText : Type 0 where
  blank : AckText
  time_text : ℕ → AckText

-- `FileTimeOffResult` and `ReverseTimeOffResult`, as the mock sends them.
pub record MockResult : Type 0 where
  pub is_ok : Bool
  pub acked_at : Option AckText
  pub error_hint : Option String

-- A slot of `balanceStore`, and one of `idempotencyStore`.
pub record BalanceSlot : Type 0 where
  pub key : String
  pub entry : BalanceEntry

pub record ResultSlot : Type 0 where
  pub key : String
  pub is_ok : Bool
  pub acked_at : AckText

pub data HcmScenario : Type 0 where
  correct silent_insufficient timeout mutate_between_calls divergent_batch : HcmScenario
  duplicate_delivery ignore_idempotency_key : HcmScenario

pub record MockStore : Type 0 where
  pub balances : List BalanceSlot
  pub results : List ResultSlot
  pub sequence : ℕ
  pub scenario : HcmScenario

abbrev pub store_key : String → String → String
store_key employee location = join employee (join "::" location)

abbrev pub slot_is : String → BalanceSlot → Bool
slot_is key slot = same key slot.key

abbrev pub result_is : String → ResultSlot → Bool
result_is key slot = same key slot.key

abbrev pub slot_key_is : BalanceSlot → BalanceSlot → Bool
slot_key_is slot = slot_is slot.key

abbrev pub result_key_is : ResultSlot → ResultSlot → Bool
result_key_is slot = result_is slot.key

abbrev pub entry_of : Option BalanceSlot → Option BalanceEntry
entry_of none = none
entry_of (some slot) = some slot.entry

-- `balanceStore.get`, `balanceStore.set` and `idempotencyStore.set`.
abbrev pub get_entry : String → MockStore → Option BalanceEntry
get_entry key s = entry_of (first (slot_is key) s.balances)

abbrev pub set_entry : String → BalanceEntry → MockStore → MockStore
set_entry key entry s = record s {
  balances = upsert slot_key_is (record { key = key; entry = entry }) s.balances;
}

abbrev pub set_result : String → Bool → AckText → MockStore → MockStore
set_result key is_ok acked_at s = record s {
  results =
      upsert result_key_is (record { key = key; is_ok = is_ok; acked_at = acked_at }) s.results;
}

-- `getNextSequence`.
unfoldable pub next_sequence : MockStore → ℕ × MockStore
next_sequence s = (s.sequence + 1, record s { sequence = s.sequence + 1 })

abbrev pub seeded : ℕ → MockStore → String → String → ℕ → MockStore
seeded now s employee location balance =
    set_entry (store_key employee location)
      (record {
        employee_id = employee;
        location_id = location;
        balance = pos balance;
        as_of = now;
      })
      s

unfoldable pub seed_balances : ℕ → MockStore → MockStore
seed_balances now s =
    let s = seeded now s "emp1" "loc1" 10 in
    let s = seeded now s "emp1" "loc2" 5 in
    let s = seeded now s "emp2" "loc1" 8 in
    let s = seeded now s "emp3" "loc1" 15 in seeded now s "emp3" "loc2" 3

unfoldable pub reset_mock_store : ℕ → MockStore
reset_mock_store now =
    seed_balances now
      (record { balances = []; results = []; sequence = 0; scenario = HcmScenario.correct })
