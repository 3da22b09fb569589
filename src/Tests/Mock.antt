-- ===== src/Tests/Mock.antt =====
-- The mock of HCM at concrete calls.
use wizdaa_takehome.Prelude.{
  ℕ, zero, suc, ◌<◌, String, false, true, none, some, List, [], ◌∷◌, ◌≡◌, refl, ◌⊎◌,
}
use wizdaa_takehome.Prelude.Int.{pos, ◌-ℤ◌, ◌+ℤ◌}
use wizdaa_takehome.Entities.{FileTimeOffCommand, BatchSyncLog}
use wizdaa_takehome.Reconciliation.{is_stale}
use wizdaa_takehome.HcmClient.{post_with_retry}
use wizdaa_takehome.MockHcm.{
  deduplicated, BalanceEntry, MockStore, HcmScenario, accepts, gives, get_entry, store_key,
  mock_file_time_off, mock_reverse_time_off, get_batch,
}
use wizdaa_takehome.Guarantees.Keys.{SaysAgain, repeat_changes_nothing}
use wizdaa_takehome.Guarantees.Delivery.{
  Network, answer_lost, passed, seen_at, store_at, FiledOnce, FiledAs, retries_file_once,
}
use wizdaa_takehome.Guarantees.MockBalances.{
  MockCall, file, reverse, read, set_scenario, batch, mock_serve_all,
}
use wizdaa_takehome.Guarantees.MockRestored.{days_at, filing_and_reversal}
use wizdaa_takehome.Guarantees.MockBatches.{later_batch_is_newer}
use wizdaa_takehome.Tests.Data.{settings, june_row}

abbrev pub june_entry : BalanceEntry
june_entry = record { employee_id = "e1"; location_id = "l1"; balance = pos 10; as_of = 1000 }

abbrev pub june_store : MockStore
june_store = record {
  balances = record { key = "e1::l1"; entry = june_entry } ∷ [];
  results = [];
  sequence = 0;
  scenario = HcmScenario.correct;
}

abbrev june_command : FileTimeOffCommand
june_command = june_row.payload

-- After another command of another key.
abbrev later_store : MockStore → MockStore
later_store u = (mock_file_time_off "other" june_command 1500 u).1

repeat_changes_nothing_example :
    SaysAgain
      (mock_file_time_off "key" june_command 1000)
      (mock_file_time_off "key" june_command 2000)
      june_store
      (later_store (mock_file_time_off "key" june_command 1000 june_store).1)
    × SaysAgain
        (mock_reverse_time_off "key" june_command 1000)
        (mock_reverse_time_off "key" june_command 2000)
        june_store
        (later_store (mock_reverse_time_off "key" june_command 1000 june_store).1)
unfolding mock_file_time_off mock_reverse_time_off deduplicated ◌-ℤ◌ ◌+ℤ◌
repeat_changes_nothing_example =
    repeat_changes_nothing "key" june_command june_command 1000 2000 june_store
      (later_store (mock_file_time_off "key" june_command 1000 june_store).1)
      (later_store (mock_reverse_time_off "key" june_command 1000 june_store).1) refl (refl, refl)
      (refl, refl) (refl, refl) refl refl

-- The first answer is lost.
abbrev first_lost : ℕ → Network
first_lost zero = answer_lost
first_lost (suc k) = passed

retries_file_once_example :
    FiledOnce
      (λ _. none)
      first_lost
      (λ n. n)
      june_command
      june_store
      (store_at
        (λ _. none)
        first_lost
        (λ n. n)
        june_command
        june_store
        (post_with_retry settings
          (λ _. "HTTP")
          (seen_at (λ _. none) first_lost (λ n. n) june_command june_store)
          1000).sent)
    × (((post_with_retry settings
            (λ _. "HTTP")
            (seen_at (λ _. none) first_lost (λ n. n) june_command june_store)
            1000).result.is_ok
          ≡ false)
        ⊎ FiledAs
            (λ _. none)
            first_lost
            (λ n. n)
            june_command
            june_store
            true
            (store_at
              (λ _. none)
              first_lost
              (λ n. n)
              june_command
              june_store
              (post_with_retry settings
                (λ _. "HTTP")
                (seen_at (λ _. none) first_lost (λ n. n) june_command june_store)
                1000).sent))
retries_file_once_example =
    retries_file_once settings (λ _. "HTTP") (λ _. none) first_lost (λ n. n) june_command june_store
      1000 refl (refl, refl)

abbrev june_calls : List MockCall
june_calls =
    file "a" june_command 1000
    ∷ set_scenario "mutate-between-calls"
    ∷ read "e1" "l1" 2000
    ∷ reverse "b" june_command 3000
    ∷ batch 4000
    ∷ []

filing_and_reversal_example :
    ((mock_file_time_off "a" june_command 1000 june_store).0 ≡ gives (accepts 1000))
    × (days_at
          (get_entry (store_key "e1" "l1") (mock_file_time_off "a" june_command 1000 june_store).1)
        ≡ some (pos 10 -ℤ pos 5))
    × ((mock_reverse_time_off "b" june_command 2000
          (mock_file_time_off "a" june_command 1000 june_store).1).0
        ≡ gives (accepts 2000))
    × ((p : String)
        → days_at (
            get_entry p
              (mock_reverse_time_off "b" june_command 2000
                (mock_file_time_off "a" june_command 1000 june_store).1).1)
          ≡ days_at (get_entry p june_store))
filing_and_reversal_example =
    filing_and_reversal "a" "b" june_command 1000 2000 june_store june_entry refl refl refl
      (refl, refl) refl refl refl refl refl

abbrev june_log : BatchSyncLog
june_log = record { sequence = 7; as_of = 0 }

later_batch_is_newer_example :
    ((get_batch 1000 june_store).0.sequence
      < (get_batch 2000 (mock_serve_all june_calls (get_batch 1000 june_store).1)).0.sequence)
    × (is_stale
          (get_batch 2000 (mock_serve_all june_calls (get_batch 1000 june_store).1)).0
          (some (record june_log { sequence = (get_batch 1000 june_store).0.sequence }))
        ≡ false)
    × (is_stale (get_batch 1000 june_store).0 (
          some (record june_log {
            sequence =
                (get_batch 2000
                  (mock_serve_all june_calls (get_batch 1000 june_store).1)).0.sequence;
          }))
        ≡ true)
later_batch_is_newer_example = later_batch_is_newer 1000 2000 june_calls june_store june_log
