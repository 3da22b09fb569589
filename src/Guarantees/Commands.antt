-- ===== src/Guarantees/Commands.antt =====
-- What the service sends to HCM, and what the mock of HCM takes.
use Prim.Native.String.{count}
use text.Mathlib.TextLemmas.{length-append}
use wizdaa_takehome.Prelude.{
  ℕ, zero, suc, ◌≤◌, String, Bool, true, false, some, ◌≡◌, refl, ap, inl, inr, same, eq_of_same,
  join, join_not_empty, Bool-cases, arith,
}
use wizdaa_takehome.Prelude.Int.{pos, ◌-ℤ◌, ltb_ℤ}
use wizdaa_takehome.Entities.{TimeOffRequest, FileTimeOffCommand}
use wizdaa_takehome.Requests.{build_file_command, build_reverse_command}
use wizdaa_takehome.Http.{positive_field, whole}
use wizdaa_takehome.Guarantees.Keys.{Answers}
use wizdaa_takehome.Guarantees.MockRestored.{New, days_at, filing_and_reversal}
use wizdaa_takehome.MockHcm.{
  BalanceEntry, gives, accepts, is_silent, store_key, get_entry, MockStore, body_of,
  command_of_body, file_route, reverse_route, mock_file_time_off, mock_reverse_time_off,
}

positive_back : (n : ℕ) → 1 ≤ n → positive_field (whole (pos n)) ≡ some n
positive_back zero h = absurd (omega (arith, h))
positive_back (suc n) h = refl

module _ (is_date : String → Bool) where
  -- A command that is put into JSON and read again.
  command_back :
      (cmd : FileTimeOffCommand)
      → same cmd.employee_id "" ≡ false
      → same cmd.location_id "" ≡ false
      → same cmd.idempotency_key "" ≡ false
      → 1 ≤ cmd.days
      → is_date cmd.start_date ≡ true
      → is_date cmd.end_date ≡ true
      → command_of_body is_date (body_of cmd) ≡ some cmd
  unfolding command_of_body
  command_back cmd e l k days first_day last_day =
      rw (e, l, k, positive_back cmd.days days, first_day, last_day) refl

-- The two keys of one request are two keys.
keys_differ : (k : String) → same (join k ":REVERSE") (join k ":FILE") ≡ false
keys_differ k = elim (Bool-cases (same (join k ":REVERSE") (join k ":FILE"))) [
  | inr differ ↦ differ
  | inl here ↦ absurd (
      omega (
        arith,
        ap count (eq_of_same (join k ":REVERSE") (join k ":FILE") here),
        length-append k ":REVERSE",
        length-append k ":FILE",
      ))
]

-- What a request says, under a key.
abbrev pub said_by : TimeOffRequest → String → FileTimeOffCommand
said_by r key = record {
  employee_id = r.employee_id;
  location_id = r.location_id;
  days = r.days;
  start_date = r.start_date;
  end_date = r.end_date;
  idempotency_key = key;
}

-- The ids of a request are not empty, it has a day at least, and class-validator takes its dates for
-- dates. The mock answers, keeps to the keys and is not silent, has not seen the two keys of the
-- request, and has a balance for its employee and location of no fewer days. Then the filing that the
-- service builds arrives at the mock's route as the request's employee, location, days and dates under
-- the key with :FILE, is accepted, and takes the days of the request off that balance; the reversal
-- arrives as the same under the key with :REVERSE, is accepted, and after it every place has the
-- balance that it had before.
pub request_is_filed_and_reversed :
    (is_date : String → Bool) (r : TimeOffRequest) (now now' : ℕ) (s : MockStore)
    (entry : BalanceEntry)
    → same r.employee_id "" ≡ false
    → same r.location_id "" ≡ false
    → 1 ≤ r.days
    → is_date r.start_date ≡ true
    → is_date r.end_date ≡ true
    → Answers s
    → is_silent s.scenario ≡ false
    → New (join r.hcm_idempotency_key ":FILE") s
    → New (join r.hcm_idempotency_key ":REVERSE") s
    → get_entry (store_key r.employee_id r.location_id) s ≡ some entry
    → ltb_ℤ entry.balance (pos r.days) ≡ false
    → let key = join r.hcm_idempotency_key ":FILE" in
      let key' = join r.hcm_idempotency_key ":REVERSE" in
      let filed = file_route is_date now (some key) (body_of (build_file_command r)) s in
      let reversed =
        reverse_route is_date now' (some key') (body_of (build_reverse_command r)) filed.1 in
      (filed ≡ mock_file_time_off key (said_by r key) now s)
      × (reversed ≡ mock_reverse_time_off key' (said_by r key') now' filed.1)
      × (filed.0 ≡ gives (accepts now))
      × (days_at (get_entry (store_key r.employee_id r.location_id) filed.1)
          ≡ some (entry.balance -ℤ pos r.days))
      × (reversed.0 ≡ gives (accepts now'))
      × ((p : String) → days_at (get_entry p reversed.1) ≡ days_at (get_entry p s))
unfolding build_file_command build_reverse_command file_route reverse_route mock_file_time_off
    mock_reverse_time_off
request_is_filed_and_reversed is_date r now now' s entry e l days first_day last_day answers loud
      new new' found enough =
    let key = join r.hcm_idempotency_key ":FILE" in
    let key' = join r.hcm_idempotency_key ":REVERSE" in
    let named : same key "" ≡ false = join_not_empty r.hcm_idempotency_key "FILE" in
    let named' : same key' "" ≡ false = join_not_empty r.hcm_idempotency_key "REVERSE" in
    let file_back = command_back is_date (said_by r key) e l named days first_day last_day in
    let reverse_back = command_back is_date (said_by r key') e l named' days first_day last_day in
    let (took, less, gave, restored) =
      filing_and_reversal key key' (said_by r key) now now' s entry named named'
        (keys_differ r.hcm_idempotency_key) answers loud new new' found enough in
    rw (file_back, reverse_back) (refl, refl, took, less, gave, restored)
