-- ===== src/MockHcm/Control.antt =====
-- The routes that tests use (src/mock-hcm/control.controller.ts).
use wizdaa_takehome.Prelude.{
  ℕ, String, Bool, true, false, Option, none, some, List, map, ◌||◌, same, if◌then◌else◌,
}
use wizdaa_takehome.Prelude.Int.{ℤ, pos, ◌-ℤ◌, ltb_ℤ}
use wizdaa_takehome.Entities.{HcmBalance, BatchCorpus}
use wizdaa_takehome.MockHcm.Store.{
  BalanceSlot, HcmScenario, MockStore, store_key, set_entry, next_sequence,
}
use wizdaa_takehome.MockHcm.Routes.{Answer, gives, status, max_zero}

-- `VALID_SCENARIOS`: a text that is one of them.
unfoldable pub scenario_of : String → Option HcmScenario
scenario_of text =
    if same text "correct"
    then some HcmScenario.correct
    else if same text "silent-insufficient"
    then some HcmScenario.silent_insufficient
    else if same text "timeout"
    then some HcmScenario.timeout
    else if same text "mutate-between-calls"
    then some HcmScenario.mutate_between_calls
    else if same text "divergent-batch"
    then some HcmScenario.divergent_batch
    else if same text "duplicate-delivery"
    then some HcmScenario.duplicate_delivery
    else if same text "ignore-idempotency-key"
    then some HcmScenario.ignore_idempotency_key
    else none

abbrev pub set_found : String → Option HcmScenario → MockStore → Answer String × MockStore
set_found text none s = (status 400, s)
set_found text (some scenario) s = (gives text, record s { scenario = scenario })

unfoldable pub mock_set_scenario : String → MockStore → Answer String × MockStore
mock_set_scenario text = set_found text (scenario_of text)

unfoldable pub mock_refresh : ℕ → String → String → ℤ → MockStore → Answer HcmBalance × MockStore
mock_refresh now employee location balance s =
    if same employee "" || same location ""
    then (status 400, s)
    else if ltb_ℤ balance (pos 0)
    then (status 400, s)
    else (
      gives (record {
        employee_id = employee;
        location_id = location;
        balance = balance;
        as_of = now;
      }),
      set_entry (store_key employee location)
          (record {
            employee_id = employee;
            location_id = location;
            balance = balance;
            as_of = now;
          })
          s,
    )

abbrev pub is_divergent : HcmScenario → Bool
is_divergent HcmScenario.divergent_batch = true
is_divergent _ = false

-- What a batch says of one entry: three days less, in the scenario that diverges.
abbrev pub reported : HcmScenario → ℕ → BalanceSlot → HcmBalance
reported scenario as_of slot = record {
  employee_id = slot.entry.employee_id;
  location_id = slot.entry.location_id;
  balance =
      if is_divergent scenario then max_zero (slot.entry.balance -ℤ pos 3) else slot.entry.balance;
  as_of = as_of;
}

-- The overrides of a batch.
pub record Overrides : Type 0 where
  pub balances : Option (List HcmBalance)
  pub as_of : Option ℕ
  pub sequence : Option ℕ

abbrev pub given_or : {A : Type 0} → A → Option A → A
given_or a none = a
given_or a (some b) = b

-- The sequence that is asked for, or the next one.
abbrev pub take_sequence : Option ℕ → MockStore → ℕ × MockStore
take_sequence none s = next_sequence s
take_sequence (some n) s = (n, s)

unfoldable pub build_corpus : ℕ → Overrides → MockStore → BatchCorpus × MockStore
build_corpus now o s =
    let as_of = given_or now o.as_of in
    let taken = take_sequence o.sequence s in
    (
      record {
        sequence = taken.0;
        as_of = as_of;
        balances = given_or (map (reported s.scenario as_of) s.balances) o.balances;
      },
      taken.1,
    )

unfoldable pub get_batch : ℕ → MockStore → BatchCorpus × MockStore
get_batch now = build_corpus now (record { balances = none; as_of = none; sequence = none })

-- What `axios.post` to the target comes to: the status of a response, or of the response that an
-- error carries, if it does.
pub data Delivery : Type 0 where
  delivered : ℕ → Delivery
  undelivered : Option ℕ → Delivery

pub record Emitted : Type 0 where
  pub is_ok : Bool
  pub status_code : ℕ
  pub corpus : BatchCorpus

abbrev pub emitted : BatchCorpus → Delivery → Emitted
emitted corpus (delivered code) = record { is_ok = true; status_code = code; corpus = corpus }
emitted corpus (undelivered code) = record {
  is_ok = false;
  status_code = given_or 500 code;
  corpus = corpus;
}

unfoldable pub emit_batch :
    (BatchCorpus → Delivery) → ℕ → String → Overrides → MockStore → Answer Emitted × MockStore
emit_batch post now target o s =
    if same target ""
    then (status 400, s)
    else (let built = build_corpus now o s in (gives (emitted built.0 (post built.0)), built.1))
