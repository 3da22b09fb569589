-- ===== src/Http/Dates.antt =====
-- What the body of a submission has to be (src/time-off-request/dto/submit-request.dto.ts).
use wizdaa_takehome.Prelude.{
  ℕ, ◌+◌, ◌-◌, ◌*◌, ◌/◌, ◌%◌, String, Bool, true, false, not, Option, none, some, List, [], ◌∷◌,
  ◌&&◌, ◌||◌, ◌==◌, leb, same, join, text_lt, codes, if◌then◌else◌,
}
use wizdaa_takehome.Calendar.{is_digit, parse_date, march_day, civil_of, padded}
use wizdaa_takehome.Entities.{TimeOffRequest}
use wizdaa_takehome.Config.{AppConfig}
use wizdaa_takehome.Database.{Engine, Action, bad_request, throw_if, ◌>>◌}
use wizdaa_takehome.Requests.{HcmReplies}
use wizdaa_takehome.Http.Defs.{SubmitBody, post_submit}

-- `DATE_PATTERN`, on the codes of the text.
abbrev pub is_month_text : ℕ → ℕ → Bool
is_month_text a b =
    (a == b'0' && leb b'1' b && leb b b'9') || (a == b'1' && leb b'0' b && leb b b'2')

abbrev pub is_day_text : ℕ → ℕ → Bool
is_day_text a b =
    (a == b'0' && leb b'1' b && leb b b'9')
    || ((a == b'1' || a == b'2') && is_digit b)
    || (a == b'3' && (b == b'0' || b == b'1'))

unfoldable pub is_date_shape : List ℕ → Bool
is_date_shape (a ∷ b ∷ c ∷ d ∷ dash ∷ e ∷ f ∷ dash2 ∷ g ∷ h ∷ []) =
    is_digit a
    && is_digit b
    && is_digit c
    && is_digit d
    && dash == b'-'
    && is_month_text e f
    && dash2 == b'-'
    && is_day_text g h
is_date_shape _ = false

-- The day of `new Date(`${text}T00:00:00Z`)` for a text of the pattern, in days. Days past the end of a
-- month go on into the next one. It is counted from the first of March of the year -400, so
-- that no difference is below zero.
abbrev pub iso_day : ℕ × ℕ × ℕ → ℕ
iso_day (y, m, d) = let months = 12 * (y + 400) + m - 3 in march_day (months / 12) (months % 12) d

-- `date.toISOString().slice(0, 10)`.
unfoldable pub iso_text : ℕ → String
iso_text n =
    let (y, m, d) = civil_of n in
    join (padded 4 (y - 400)) (join "-" (join (padded 2 m) (join "-" (padded 2 d))))

abbrev pub same_day : String → Option (ℕ × ℕ × ℕ) → Bool
same_day text none = false
same_day text (some date) = same (iso_text (iso_day date)) text

-- `RealCalendarDateConstraint`, which tests the pattern too.
unfoldable pub is_real_date : String → Bool
is_real_date text = is_date_shape (codes text) && same_day text (parse_date text)

abbrev pub max_request_range_days : ℕ
max_request_range_days = 365

abbrev pub in_range : Option (ℕ × ℕ × ℕ) → Option (ℕ × ℕ × ℕ) → Bool
in_range none last = false
in_range (some first) none = false
in_range (some first) (some last) = leb (iso_day last + 1) (iso_day first + max_request_range_days)

-- `EndDateAfterStartDateConstraint`, for texts of the pattern, as the other constraints want them.
unfoldable pub is_end_after_start : String → String → Bool
is_end_after_start start end =
    if same start "" || same end ""
    then true
    else if text_lt end start
    then false
    else in_range (parse_date start) (parse_date end)

-- `SubmitRequestDto`. Whether a text has at most 128 characters is class-validator's to say.
unfoldable pub is_valid_body : (String → Bool) → SubmitBody → Bool
is_valid_body is_short body =
    not (same body.employee_id "")
    && is_short body.employee_id
    && not (same body.location_id "")
    && is_short body.location_id
    && is_real_date body.start_date
    && is_real_date body.end_date
    && is_end_after_start body.start_date body.end_date

-- `ValidationPipe` tests the body before the handler runs.
unfoldable pub submit_route :
    Engine
    → AppConfig
    → (String → Bool)
    → Option String
    → Option String
    → HcmReplies
    → ℕ
    → SubmitBody
    → Option String
    → Action TimeOffRequest
submit_route e config is_short principal role hcm now body key =
    throw_if (not (is_valid_body is_short body)) bad_request
    >> post_submit e config principal role hcm now body key
