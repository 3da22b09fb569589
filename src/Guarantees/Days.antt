-- ===== src/Guarantees/Days.antt =====
-- The count of business days.
use wizdaa_takehome.Prelude.{
  String, true, false, ◌⊎◌, text_lt, ℕ, zero, suc, ◌+◌, ◌-◌, ◌*◌, ◌/◌, ◌%◌, ◌≤◌, Bool, some, ◌≡◌,
  refl, ap, ◌∙◌, inl, inr, leb, leb→le, Bool-cases, arith, if◌then◌else◌,
}
use wizdaa_takehome.Calendar.{
  parse_date, day_number, counted, misordered, day_count, count_business_days, count_between,
  is_business_day, no_holidays, count_days, count_range,
}

-- The business days among the days from one on.
abbrev pub business_days : (ℕ → Bool) → ℕ → ℕ → ℕ
business_days holiday day zero = 0
business_days holiday day (suc n) =
    (if is_business_day holiday day then 1 else 0) + business_days holiday (day + 1) n

-- With one unit of fuel for each day the loop ends, and adds the business days of the range.
enough_fuel :
    (holiday : ℕ → Bool) (fuel cursor last count : ℕ)
    → last + 1 ≡ cursor + fuel
    → count_days holiday fuel cursor last count ≡ some (count + business_days holiday cursor fuel)
unfolding count_days
enough_fuel holiday zero cursor last count h = ground arith
enough_fuel holiday (suc fuel) cursor last count h = ground (
  arith,
  enough_fuel holiday fuel (cursor + 1) last (count + 1),
  enough_fuel holiday fuel (cursor + 1) last count,
)

-- Of the days that come before a day, from a Sunday on, those that are neither on a Saturday nor on a
-- Sunday: five in each whole week, and in the week that is left all but its Sunday.
abbrev pub weekdays_before : ℕ → ℕ
weekdays_before n = 5 * (n / 7) + (n % 7 - 1)

-- The weekdays from one day to another, both counted. Day 4 of the count is a Sunday.
abbrev pub weekdays_between : ℕ → ℕ → ℕ
weekdays_between first last = weekdays_before (last + 1 + 3) - weekdays_before (first + 3)

one_day_more :
    (n : ℕ)
    → weekdays_before (n + 3 + 1)
      ≡ weekdays_before (n + 3) + (if is_business_day no_holidays n then 1 else 0)
one_day_more n = ground arith

business_days-weekdays :
    (day n : ℕ)
    → weekdays_before (day + n + 3) ≡ weekdays_before (day + 3) + business_days no_holidays day n
business_days-weekdays day zero = omega arith
business_days-weekdays day (suc n) =
    let there : day + suc n + 3 ≡ day + 1 + n + 3 = omega arith in
    let next : day + 1 + 3 ≡ day + 3 + 1 = omega arith in
    rw (there, business_days-weekdays (day + 1) n, next, one_day_more day) (omega arith)

-- The loop ends, and counts the business days of the range.
pub count_range_ends :
    (holiday : ℕ → Bool) (first last : ℕ)
    → count_range holiday first last ≡ some (business_days holiday first (last + 1 - first))
unfolding count_range count_days
count_range_ends holiday first last = elim (Bool-cases (leb first last)) [
  | inl up ↦
      let le : first ≤ last = leb→le first last up in
      enough_fuel holiday (last + 1 - first) first last 0 (omega (arith, le))
      ∙ ap some (omega arith)
  | inr over ↦ let zero_eq : last + 1 - first ≡ 0 = ground arith in rw (zero_eq, over) refl
]

-- A range that ends before it starts has no weekdays.
counted_weekdays :
    (first last : ℕ)
    → business_days no_holidays first (last + 1 - first) ≡ weekdays_between first last
counted_weekdays first last = elim (Bool-cases (leb first last)) [
  | inr over ↦ let zero_eq : last + 1 - first ≡ 0 = ground arith in rw zero_eq (ground arith)
  | inl up ↦
      let le : first ≤ last = leb→le first last up in
      let n = last + 1 - first in
      let there : first + n + 3 ≡ last + 1 + 3 = omega (arith, le) in
      let w = business_days-weekdays first n in omega (arith, rw there at w)
]

-- Of two dates, `countBusinessDays` throws exactly if the text of the second is below that of the
-- first. If not, its loop ends, within as many rounds as the range has days, and it gives the number
-- of days from the first to the last, both counted, that are neither on a Saturday nor on a Sunday,
-- by a sum over whole weeks.
pub count_is_of_weekdays :
    (start end : String) (sy sm sd ey em ed : ℕ)
    → parse_date start ≡ some (sy, sm, sd)
    → parse_date end ≡ some (ey, em, ed)
    → ((text_lt end start ≡ true) × (count_business_days no_holidays start end ≡ misordered))
      ⊎ ((text_lt end start ≡ false)
          × (count_business_days no_holidays start end
              ≡ counted (weekdays_between (day_number sy sm sd) (day_number ey em ed))))
unfolding count_business_days count_between
count_is_of_weekdays start end sy sm sd ey em ed from to =
    let first = day_number sy sm sd in
    let last = day_number ey em ed in
    elim (Bool-cases (text_lt end start)) [
      | inl below ↦ inl (below, rw below refl)
      | inr above ↦ inr (
        above,
        rw (above, from, to)
            (ap day_count
              (count_range_ends no_holidays first last ∙ ap some (counted_weekdays first last))),
      )
    ]
