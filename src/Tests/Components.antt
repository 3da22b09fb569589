-- ===== src/Tests/Components.antt =====
-- The parts one by one: saves, reads, batches and counts of days.
use wizdaa_takehome.Prelude.{
  text_lt, ℕ, zero, suc, ◌+◌, ◌++◌, true, false, some, [], ◌∷◌, ◌≡◌, ◌⊎◌, refl, upsert, ◌==◌, arith,
  if◌then◌else◌, none, ◌≤◌,
}
use wizdaa_takehome.Prelude.Int.{pos, ◌+ℤ◌, ◌-ℤ◌, ◌≤ℤ◌, ltb_ℤ}
use wizdaa_takehome.Entities.{BatchCorpus}
use wizdaa_takehome.Database.{
  Tables, Engine, saved, mismatch, ok, err, deadlock, conflict, balance_key_is,
}
use wizdaa_takehome.Calendar.{
  count_business_days, civil_date, no_holidays, misordered, counted, day_number, parse_date,
  parts_of, number_from,
}
use wizdaa_takehome.Balances.{
  add_reserved, free_days, reserve, save_with_retry, save_attempts, reconcile_balance,
}
use wizdaa_takehome.Requests.{submit, check_range}
use wizdaa_takehome.Reconciliation.{
  stale_event, ingest_batch, sequence_guard, reconcile_entry, record_batch,
}
use wizdaa_takehome.Ledger.Rows.{balance_of}
use wizdaa_takehome.Ledger.Reached.{no_rows_yet}
use wizdaa_takehome.Guarantees.Batches.{ingest_refuses_older}
use wizdaa_takehome.Guarantees.Days.{weekdays_between, count_is_of_weekdays}
use wizdaa_takehome.Guarantees.Locks.{cold_submit_hangs}
use wizdaa_takehome.Guarantees.Reconciling.{reconcile_replays_local}
use wizdaa_takehome.Guarantees.Reservations.{reserve_never_overdraws}
use wizdaa_takehome.Guarantees.Retries.{AppliedOnce, retry_applies_once}
use wizdaa_takehome.Config.{AppConfig}
use wizdaa_takehome.HcmClient.{
  Attempt, body, raised, with_response, PostBody, result_of, post_with_retry, post_attempts,
  backoff_delay,
}
use wizdaa_takehome.Guarantees.Attempts.{filing_is_bounded}
use wizdaa_takehome.Tests.Reference.{reference, reference_engine}
use wizdaa_takehome.Tests.Data.{
  settings, hcm_down, ten_days, today, june_week, june_batch, june_balance, tables_of,
  synced_tables,
}

reconcile_replays_local_example :
    ((reconcile_balance reference.engine ten_days 2000 [] synced_tables).0 ≡ ok tt)
    × ((balance_of "e1" "l1"
          (reconcile_balance reference.engine ten_days 2000 [] synced_tables).1).available
        ≡ pos 10 -ℤ pos 5 +ℤ pos 0)
    × ((balance_of "e1" "l1"
          (reconcile_balance reference.engine ten_days 2000 [] synced_tables).1).reserved
        ≡ 0)
    × ((balance_of "e1" "l1"
          (reconcile_balance reference.engine ten_days 2000 [] synced_tables).1).last_hcm_as_of
        ≡ some 2000)
    × ((ltb_ℤ
            (balance_of "e1" "l1"
              (reconcile_balance reference.engine ten_days 2000 [] synced_tables).1).available
            (pos 0)
          ≡ false)
        ⊎ ((balance_of "e1" "l1"
              (reconcile_balance reference.engine ten_days 2000 [] synced_tables).1).needs_review
            ≡ true))
reconcile_replays_local_example = reconcile_replays_local reference ten_days 2000 [] synced_tables

abbrev older_batch : BatchCorpus
older_batch = record june_batch { sequence = 2 }

abbrev after_batch : Tables
after_batch = (ingest_batch reference.engine june_batch [] no_rows_yet).1

batch_returns : ingest_batch reference.engine june_batch [] no_rows_yet ≡ (ok tt, after_batch)
unfolding ingest_batch sequence_guard reconcile_entry reconcile_balance save_with_retry
    save_attempts record_batch
batch_returns = refl

ingest_refuses_older_example :
    ingest_batch reference.engine older_batch [] after_batch
    ≡ (ok tt, record after_batch { events = after_batch.events ++ stale_event ∷ [] })
ingest_refuses_older_example =
    ingest_refuses_older reference june_batch older_batch [] no_rows_yet after_batch (omega arith)
      batch_returns

-- The first save of one reserved day meets another writer, who reserved four.
abbrev contended : Engine
contended = record reference_engine {
  save_balance = λ b rows.
      if b.reserved == 1
      then mismatch (june_balance (pos 10) 4 ∷ [])
      else saved (upsert balance_key_is b rows);
}

abbrev one_balance : ℕ → Tables
one_balance reserved = tables_of (june_balance (pos 10) reserved) [] []

contended_run :
    save_with_retry contended (june_balance (pos 10) 0) (add_reserved 1) [] (one_balance 0)
    ≡ (ok tt, one_balance 5)
unfolding save_with_retry save_attempts
contended_run = refl

retry_applies_once_example :
    AppliedOnce contended "e1" "l1"
      (add_reserved 1)
      (june_balance (pos 10) 0)
      (june_balance (pos 10) 0 ∷ [])
      (june_balance (pos 10) 5 ∷ [])
retry_applies_once_example =
    retry_applies_once contended (june_balance (pos 10) 0) (add_reserved 1) [] (one_balance 0)
      (one_balance 5) contended_run

-- Another writer before every save.
abbrev hostile : Engine
hostile = record reference_engine {
  save_balance = λ b rows. mismatch (june_balance (pos 10) 4 ∷ []);
}

reserve_never_overdraws_example :
    ((ltb_ℤ (free_days (june_balance (pos 10) 0)) (pos 3) ≡ true)
      × (reserve reference.engine "e1" "l1" 3 [] (one_balance 0) ≡ (err conflict, one_balance 0)))
    ⊎ ((ltb_ℤ (free_days (june_balance (pos 10) 0)) (pos 3) ≡ false)
        × ((reserve reference.engine "e1" "l1" 3 [] (one_balance 0)).0 ≡ ok tt)
        × (balance_of "e1" "l1" (reserve reference.engine "e1" "l1" 3 [] (one_balance 0)).1
            ≡ june_balance (pos 10) 3)
        × (pos 0
            ≤ℤ free_days
                (balance_of "e1" "l1" (reserve reference.engine "e1" "l1" 3 [] (one_balance 0)).1)))
reserve_never_overdraws_example = reserve_never_overdraws reference "e1" "l1" 3 [] (one_balance 0)

june_range :
    check_range reference.engine settings hcm_down today june_week ("e1::l1" ∷ []) no_rows_yet
    ≡ (ok 5, no_rows_yet)
unfolding check_range count_business_days civil_date
june_range = refl

cold_submit_hangs_example :
    submit reference.engine settings hcm_down today june_week [] no_rows_yet
    ≡ (deadlock, no_rows_yet)
cold_submit_hangs_example =
    cold_submit_hangs reference settings hcm_down today june_week 5 no_rows_yet refl refl refl refl
      june_range

june_fifth : parse_date "2026-06-05" ≡ some (2026, 6, 5)
unfolding parse_date parts_of number_from
june_fifth = refl

june_sixteenth : parse_date "2026-06-16" ≡ some (2026, 6, 16)
unfolding parse_date parts_of number_from
june_sixteenth = refl

count_is_of_weekdays_example :
    ((text_lt "2026-06-16" "2026-06-05" ≡ true)
      × (count_business_days no_holidays "2026-06-05" "2026-06-16" ≡ misordered))
    ⊎ ((text_lt "2026-06-16" "2026-06-05" ≡ false)
        × (count_business_days no_holidays "2026-06-05" "2026-06-16"
            ≡ counted (weekdays_between (day_number 2026 6 5) (day_number 2026 6 16))))
count_is_of_weekdays_example =
    count_is_of_weekdays "2026-06-05" "2026-06-16" 2026 6 5 2026 6 16 june_fifth june_sixteenth

-- HCM is down for the first attempt, and takes the second.
abbrev flaky : ℕ → Attempt PostBody
flaky zero = raised (with_response 503 none)
flaky (suc n) = body (record { is_ok = some true; acked_at = some 1500; error_hint = none })

abbrev patient : AppConfig
patient = record settings { hcm_retry_max_attempts = 3 }

filing_is_bounded_example :
    ((post_with_retry patient (λ n. "http") flaky 1000).sent ≤ 3)
    × (((post_with_retry patient (λ n. "http") flaky 1000).result.is_ok ≡ false)
        ⊎ ((k : ℕ) × (b : PostBody) × (flaky k ≡ body b)
            × (k + 1 ≡ (post_with_retry patient (λ n. "http") flaky 1000).sent)
            × (result_of 1000 b ≡ (post_with_retry patient (λ n. "http") flaky 1000).result)))
filing_is_bounded_example = filing_is_bounded patient (λ n. "http") flaky 1000

flaky_run : post_with_retry patient (λ n. "http") flaky 1000 ≡ record {
  result = record { is_ok = true; acked_at = some 1500; error_hint = none };
  sent = 2;
  delays = 100 ∷ [];
}
unfolding post_with_retry post_attempts backoff_delay
flaky_run = refl
