-- ===== src/Tests/Overlap.antt =====
-- Two weeks asked for, one after the other.
use wizdaa_takehome.Prelude.{some, first, none, [], ◌∷◌, ◌≡◌, refl, subst, true, text_le}
use wizdaa_takehome.Prelude.Int.{pos, ◌-ℤ◌}
use wizdaa_takehome.Entities.{is_active, TimeOffRequest, RequestStatus}
use wizdaa_takehome.Balances.{
  get_balance, hydrate, hydrate_cold, apply_hcm_snapshot, change_balance, save_with_retry,
  save_attempts, validate_availability, reserve,
}
use wizdaa_takehome.Calendar.{count_business_days, civil_date}
use wizdaa_takehome.Requests.{
  has_key, SubmitArgs, same_body, submit_locked, submit_with, submit_new, check_range, submit_days,
  submit_tx, create_tx, reload,
}
use wizdaa_takehome.Database.{Tables, ok, err, unprocessable}
use wizdaa_takehome.Ledger.Reached.{perform, submitting, Reached, next}
use wizdaa_takehome.Guarantees.Overlaps.{no_day_twice}
use wizdaa_takehome.Guarantees.Replays.{submit_twice_is_once}
use wizdaa_takehome.Tests.Reference.{reference}
use wizdaa_takehome.Tests.Data.{
  settings, hcm_up, hcm_down, today, june_request, june_balance, tables_of, pending_tables,
}
use wizdaa_takehome.Tests.Runs.{pending_tables-Reached}

abbrev second_week : SubmitArgs
second_week = record {
  employee_id = "e1";
  location_id = "l1";
  start_date = "2026-06-08";
  end_date = "2026-06-12";
  idempotency_key = "other";
}

abbrev second_request : TimeOffRequest
second_request = record (june_request RequestStatus.pending none) {
  id = "kk";
  start_date = "2026-06-08";
  end_date = "2026-06-12";
  idempotency_key = "other";
}

abbrev two_weeks : Tables
two_weeks =
    tables_of (june_balance (pos 10) 10)
      (june_request RequestStatus.pending none ∷ second_request ∷ []) []

two_weeks-eq :
    perform reference.engine settings (submitting hcm_up today second_week) [] pending_tables
    ≡ two_weeks
unfolding perform get_balance hydrate hydrate_cold apply_hcm_snapshot change_balance save_with_retry
    save_attempts validate_availability reserve submit_locked submit_with submit_new check_range
    submit_days submit_tx create_tx reload count_business_days civil_date ◌-ℤ◌
two_weeks-eq = refl

two_weeks-Reached : Reached reference.engine settings two_weeks
two_weeks-Reached =
    subst (Reached reference.engine settings) two_weeks-eq
      (next (submitting hcm_up today second_week) [] pending_tables pending_tables-Reached)

no_day_twice_example : ¬ (
    (text_le "2026-06-01" "2026-06-08" ≡ true)
    × (text_le "2026-06-08" "2026-06-05" ≡ true)
    × (text_le "2026-06-08" "2026-06-08" ≡ true)
    × (text_le "2026-06-08" "2026-06-12" ≡ true))
no_day_twice_example =
    no_day_twice reference settings two_weeks (june_request RequestStatus.pending none)
      second_request "2026-06-08" two_weeks-Reached refl refl refl refl refl refl refl

second_submitted :
    submit_locked reference.engine settings hcm_up today second_week [] pending_tables
    ≡ (ok second_request, two_weeks)
unfolding get_balance hydrate hydrate_cold apply_hcm_snapshot change_balance save_with_retry
    save_attempts validate_availability reserve submit_locked submit_with submit_new check_range
    submit_days submit_tx create_tx reload count_business_days civil_date ◌-ℤ◌
second_submitted = refl

-- Another week under the same key.
submit_twice_is_once_example :
    (same_body second_week second_request ≡ true)
    × (first (has_key "other") two_weeks.requests ≡ some second_request)
    × (is_active second_request.status ≡ true)
    × (submit_locked reference.engine settings hcm_down today
          (record second_week { start_date = "2026-06-09" })
          []
          two_weeks
        ≡ (err unprocessable, two_weeks))
submit_twice_is_once_example =
    submit_twice_is_once reference settings hcm_up hcm_down today today second_week
      (record second_week { start_date = "2026-06-09" }) [] [] pending_tables two_weeks two_weeks
      second_request second_request pending_tables-Reached refl second_submitted refl refl refl refl
