-- ===== src/Tests/Dates.antt =====
-- Dates, days and their texts.
use wizdaa_takehome.Prelude.{◌+◌, ◌-◌, ◌≤◌, true, false, some, ◌≡◌, refl, arith}
use wizdaa_takehome.Calendar.{
  civil_date, count_business_days, counted, no_holidays, parse_date, parts_of, number_from,
  split_dash, civil_of, padded, day_number,
}
use wizdaa_takehome.Http.{
  SubmitBody, is_date_shape, is_real_date, iso_text, is_end_after_start, is_valid_body,
}
use wizdaa_takehome.Guarantees.Days.{business_days}
use wizdaa_takehome.Guarantees.Ranges.{accepted_range_is_short}

new_year : civil_date 1767225600000 ≡ "2026-01-01"
unfolding civil_date
new_year = refl

leap_day : civil_date 1835395200000 ≡ "2028-02-29"
unfolding civil_date
leap_day = refl

one_week : count_business_days no_holidays "2026-06-01" "2026-06-14" ≡ counted 10
unfolding count_business_days
one_week = refl

not_padded : parse_date "2026-6-1" ≡ some (2026, 6, 1)
unfolding parse_date
not_padded = refl

-- The dates that the DTO lets through.
abbrev june_body : SubmitBody
june_body = record {
  employee_id = "e1";
  location_id = "l1";
  start_date = "2026-06-01";
  end_date = "2026-06-05";
}

leap_day_is_real : is_real_date "2028-02-29" ≡ true
unfolding is_real_date is_date_shape iso_text civil_of padded parse_date parts_of number_from
    split_dash
leap_day_is_real = refl

no_such_day : is_real_date "2028-02-30" ≡ false
unfolding is_real_date is_date_shape iso_text civil_of padded parse_date parts_of number_from
    split_dash
no_such_day = refl

june_body_passes : is_valid_body (λ _. true) june_body ≡ true
unfolding is_valid_body is_end_after_start is_real_date is_date_shape iso_text civil_of padded
    parse_date parts_of number_from split_dash
june_body_passes = refl

june_first : parse_date june_body.start_date ≡ some (2026, 6, 1)
unfolding parse_date parts_of number_from split_dash
june_first = refl

june_fifth : parse_date june_body.end_date ≡ some (2026, 6, 5)
unfolding parse_date parts_of number_from split_dash
june_fifth = refl

accepted_range_is_short_example :
    (count_business_days no_holidays "2026-06-01" "2026-06-05"
      ≡ counted (
          business_days no_holidays
            (day_number 2026 6 1)
            (day_number 2026 6 5 + 1 - day_number 2026 6 1)))
    × (day_number 2026 6 5 + 1 ≤ day_number 2026 6 1 + 365)
accepted_range_is_short_example =
    accepted_range_is_short (λ _. true) june_body 2026 6 1 2026 6 5 june_body_passes june_first
      june_fifth (omega arith) (omega arith)
