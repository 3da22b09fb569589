-- ===== src/Guarantees/Ranges.antt =====
-- The range of a submission that the DTO lets through.
use wizdaa_takehome.Prelude.{
  ℕ, ◌+◌, ◌-◌, ◌≤◌, String, Bool, true, false, some, ◌≡◌, sym, ap, ◌∙◌, inl, inr, leb, leb→le, same,
  text_lt, eq_of_same, codes, Bool-cases, arith,
}
use wizdaa_takehome.Calendar.{
  parse_date, day_number, no_holidays, counted, day_count, count_between, count_business_days,
}
use wizdaa_takehome.Http.{
  SubmitBody, is_date_shape, is_real_date, iso_day, in_range, is_end_after_start, is_valid_body,
}
use wizdaa_takehome.Ledger.Rows.{and_true}
use wizdaa_takehome.Guarantees.Days.{business_days, count_range_ends}

-- From the year 100 on both ways to make a date agree, but for where the days are counted from.
iso_shift : (y m d : ℕ) → 100 ≤ y → iso_day (y, m, d) ≡ day_number y m d + 146097
unfolding day_number
iso_shift y m d h = ground arith

-- A real date is no empty text.
real_date_text : (s : String) → is_real_date s ≡ true → same s "" ≡ false
unfolding is_real_date is_date_shape
real_date_text s h = elim (Bool-cases (same s "")) [
  | inr named ↦ named
  | inl blank ↦
      let shape : is_date_shape (codes s) ≡ true = (and_true (is_date_shape (codes s)) _ h).0 in
      absurd (cc (shape, ap (λ x. is_date_shape (codes x)) (eq_of_same s "" blank)))
]

-- The three checks of the dates of a body that passes.
dates_of :
    (is_short : String → Bool) (body : SubmitBody)
    → is_valid_body is_short body ≡ true
    → (is_real_date body.start_date ≡ true)
      × (is_real_date body.end_date ≡ true)
      × (is_end_after_start body.start_date body.end_date ≡ true)
unfolding is_valid_body
dates_of is_short body h = ground arith

ordered :
    (start end : String)
    → same start "" ≡ false
    → same end "" ≡ false
    → is_end_after_start start end ≡ true
    → (text_lt end start ≡ false) × (in_range (parse_date start) (parse_date end) ≡ true)
unfolding is_end_after_start
ordered start end named named' h = elim (Bool-cases (text_lt end start)) [
  | inl before ↦ absurd (ground arith)
  | inr after ↦ (after, ground arith)
]

-- A body passes, and the dates of its range are in the years from 100 on. Then `countBusinessDays` does
-- not throw: it counts the business days from the first day to the last, in a loop that goes over at
-- most 365 days.
pub accepted_range_is_short :
    (is_short : String → Bool) (body : SubmitBody) (sy sm sd ey em ed : ℕ)
    → is_valid_body is_short body ≡ true
    → parse_date body.start_date ≡ some (sy, sm, sd)
    → parse_date body.end_date ≡ some (ey, em, ed)
    → 100 ≤ sy
    → 100 ≤ ey
    → let first = day_number sy sm sd in
      let last = day_number ey em ed in
      (count_business_days no_holidays body.start_date body.end_date
        ≡ counted (business_days no_holidays first (last + 1 - first)))
      × (last + 1 ≤ first + 365)
unfolding count_business_days count_between
accepted_range_is_short is_short body sy sm sd ey em ed valid start end late late' =
    let (real, real', after) = dates_of is_short body valid in
    let (in_order, short) =
      ordered body.start_date body.end_date (real_date_text body.start_date real)
        (real_date_text body.end_date real') after in
    let at_most : leb (iso_day (ey, em, ed) + 1) (iso_day (sy, sm, sd) + 365) ≡ true =
      sym (ap (λ o. in_range o (some (ey, em, ed))) start)
      ∙ sym (ap (in_range (parse_date body.start_date)) end)
      ∙ short in
    (
      rw (in_order, start, end)
          (ap day_count (count_range_ends no_holidays (day_number sy sm sd) (day_number ey em ed))),
      omega (arith, leb→le _ _ at_most, iso_shift sy sm sd late, iso_shift ey em ed late'),
    )
