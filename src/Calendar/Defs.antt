-- ===== src/Calendar/Defs.antt =====
-- Days are numbered from the first of March of the year 0, in the Gregorian calendar.
use wizdaa_takehome.Prelude.{
  ℕ, zero, suc, ◌+◌, ◌-◌, ◌*◌, ◌/◌, ◌%◌, String, Bool, false, not, Option, none, some, List, [],
  ◌∷◌, ◌&&◌, ◌==◌, leb, ltb, join, text_lt, codes, if◌then◌else◌,
}

-- `text.split('-')`, on the codes of the text.
unfoldable pub split_dash : List ℕ → List (List ℕ)
split_dash [] = [] ∷ []
split_dash (c ∷ cs) = elim (split_dash cs) [
  | [] ↦ []
  | word ∷ rest ↦ if c == b'-' then [] ∷ word ∷ rest else (c ∷ word) ∷ rest
]

abbrev pub is_digit : ℕ → Bool
is_digit c = leb b'0' c && leb c b'9'

-- `Number(text)` on digits; `none` stands for `NaN`.
unfoldable pub number_from : ℕ → List ℕ → Option ℕ
number_from n [] = some n
number_from n (c ∷ cs) =
    let rest = number_from (n * 10 + (c - b'0')) cs in if is_digit c then rest else none

-- `[y, m, d] = text.split('-').map(Number)`.
unfoldable pub parts_of : List (List ℕ) → Option (ℕ × ℕ × ℕ)
unfolding number_from
parts_of (y ∷ m ∷ d ∷ _) = elim (number_from 0 y) [
  | none ↦ none
  | some year ↦ elim (number_from 0 m) [
    | none ↦ none
    | some month ↦ elim (number_from 0 d) [ none ↦ none | some day ↦ some (year, month, day) ]
  ]
]
parts_of _ = none

unfoldable pub parse_date : String → Option (ℕ × ℕ × ℕ)
unfolding parts_of split_dash
parse_date s = parts_of (split_dash (codes s))

-- `Date.UTC` reads the years 0 to 99 as 1900 to 1999.
abbrev pub full_year : ℕ → ℕ
full_year y = if leb y 99 then 1900 + y else y

-- The day of year y, month m + 3 (so 0 is March) and day d of the month.
abbrev pub march_day : ℕ → ℕ → ℕ → ℕ
march_day y m d = 365 * y + y / 4 + y / 400 + (153 * m + 2) / 5 + d - y / 100 - 1

-- `Date.UTC(y, m - 1, d)`, in days. A month past 12 goes on into the next years, as there.
unfoldable pub day_number : ℕ → ℕ → ℕ → ℕ
day_number y m d = let months = 12 * full_year y + m - 3 in march_day (months / 12) (months % 12) d

-- `getUTCDay()`: 0 is Sunday, 6 is Saturday.
abbrev pub day_of_week : ℕ → ℕ
day_of_week n = (n + 3) % 7

abbrev pub is_business_day : (ℕ → Bool) → ℕ → Bool
is_business_day holiday n = not (day_of_week n == 0) && not (day_of_week n == 6) && not (holiday n)

-- `while (cursor <= end)`, on fuel; `none` means that the fuel ran out.
unfoldable pub count_days : (ℕ → Bool) → ℕ → ℕ → ℕ → ℕ → Option ℕ
count_days holiday zero cursor last count = if leb cursor last then none else some count
count_days holiday (suc fuel) cursor last count =
    let rest =
      count_days holiday fuel (cursor + 1) last
        (if is_business_day holiday cursor then count + 1 else count) in
    if leb cursor last then rest else some count

-- The days from one to another, both counted; the fuel is the number of days in the range.
unfoldable pub count_range : (ℕ → Bool) → ℕ → ℕ → Option ℕ
unfolding count_days
count_range holiday cursor last = count_days holiday (last + 1 - cursor) cursor last 0

-- A comparison with an invalid date is false, so nothing is counted.
unfoldable pub count_between : (ℕ → Bool) → Option (ℕ × ℕ × ℕ) → Option (ℕ × ℕ × ℕ) → Option ℕ
unfolding count_range day_number
count_between holiday none last = some 0
count_between holiday (some first) none = some 0
count_between holiday (some (sy, sm, sd)) (some (ey, em, ed)) =
    count_range holiday (day_number sy sm sd) (day_number ey em ed)

-- `misordered` stands for the exception, and `unended` for a loop that would not end.
pub data DayCount : Type 0 where
  misordered unended : DayCount
  counted : ℕ → DayCount

abbrev pub day_count : Option ℕ → DayCount
day_count none = unended
day_count (some n) = counted n

unfoldable pub count_business_days : (ℕ → Bool) → String → String → DayCount
unfolding count_between parse_date
count_business_days holiday start end =
    if text_lt end start
    then misordered
    else day_count (count_between holiday (parse_date start) (parse_date end))

-- The default: no day is a holiday.
abbrev pub no_holidays : ℕ → Bool
no_holidays n = false

-- The digits of a number below 10 ^ k, with leading zeros.
digit : ℕ → String
digit n =
    if n == 0
    then "0"
    else if n == 1
    then "1"
    else if n == 2
    then "2"
    else if n == 3
    then "3"
    else if n == 4
    then "4"
    else if n == 5
    then "5"
    else if n == 6
    then "6"
    else if n == 7
    then "7"
    else if n == 8
    then "8"
    else "9"

unfoldable pub padded : ℕ → ℕ → String
unfolding digit
padded zero n = ""
padded (suc k) n = join (padded k (n / 10)) (digit (n % 10))

abbrev pub ms_per_day : ℕ
ms_per_day = 86400000

-- The civil date of a day number, by the lengths of 400, 100 and 4 years.
abbrev pub year_of_era : ℕ → ℕ
year_of_era day = (day - day / 1460 + day / 36524 - day / 146096) / 365

unfoldable pub civil_of : ℕ → ℕ × ℕ × ℕ
civil_of n =
    let in_era = n % 146097 in
    let yoe = year_of_era in_era in
    let of_year = in_era - (365 * yoe + yoe / 4 - yoe / 100) in
    let month = (5 * of_year + 2) / 153 in
    let day = of_year - (153 * month + 2) / 5 + 1 in
    let year = yoe + n / 146097 * 400 in
    if ltb month 10 then (year, month + 3, day) else (year + 1, month - 9, day)

-- `date.toISOString().slice(0, 10)` of a time from 1970 on; day 719468 is 1970-01-01.
unfoldable pub civil_date : ℕ → String
unfolding civil_of padded
civil_date ms =
    let (y, m, d) = civil_of (ms / ms_per_day + 719468) in
    join (padded 4 y) (join "-" (join (padded 2 m) (join "-" (padded 2 d))))
