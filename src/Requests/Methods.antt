-- ===== src/Requests/Methods.antt =====
-- `submit`, `approve`, `reject`, `cancel` and `expire`. A `_locked` function is the callback that
-- its method hands to `runExclusive`, a `_tx` function one that it hands to `transaction`.
use wizdaa_takehome.Prelude.{
  ℕ, String, Bool, true, false, not, Option, none, some, ◌||◌, ◌==◌, text_lt, if◌then◌else◌,
}
use wizdaa_takehome.Prelude.Int.{pos, ltb_ℤ}
use wizdaa_takehome.Entities.{
  TimeOffRequest, Outbox, RequestStatus, OutboxOperation, is_pending, is_pending_sync, is_approved,
  is_cancelled, is_sent,
}
use wizdaa_takehome.Config.{AppConfig}
use wizdaa_takehome.Calendar.{count_business_days, no_holidays, civil_date}
use wizdaa_takehome.Database.{
  Engine, Action, not_found, bad_request, conflict, unprocessable, other_error, pure, throw, gets,
  throw_if, or_throw, ◌>>=◌, ◌>>◌,
}
use wizdaa_takehome.Balances.{
  HcmReply, BalanceView, snapshot, unavailable, broken, free_days, balance_key, run_exclusive,
  get_balance, validate_availability, reserve, release, commit, restore, apply_hcm_snapshot,
}
use wizdaa_takehome.Requests.Defs.{
  HcmReplies, SubmitArgs, KeyUse, set_status, set_committed, is_file_of, overlaps, has_key, free,
  replay, reused, key_use, days_or_throw, new_request, find_request, save_request_row, save_new_row,
  void_pending_file_rows, retire,
}

abbrev pub is_there {ℓ} : {A : Type ℓ} → Option A → Bool
is_there none = false
is_there (some a) = true

abbrev pub or_else {ℓ} : {A : Type ℓ} → A → Option A → A
or_else a none = a
or_else a (some b) = b

-- A FILE row that HCM has taken.
abbrev pub file_sent : Option Outbox → Bool
file_sent none = false
file_sent (some o) = is_sent o.status

module _ (e : Engine) (config : AppConfig) (hcm : HcmReplies) (now : ℕ) where
  unfoldable pub find_by_id : String → Action (Option TimeOffRequest)
  find_by_id id = gets (find_request e id)

  -- Steps 4 and 5: the request saved, and its days reserved.
  unfoldable pub create_tx : SubmitArgs → ℕ → Action TimeOffRequest
  create_tx args days = do
    request ←
        gets λ t. new_request config now args days (e.new_request_id t.requests) (e.random_uuid t)
    save_request_row e request
    reserve e args.employee_id args.location_id days
    pure request

  unfoldable pub submit_tx : SubmitArgs → ℕ → Option TimeOffRequest → Action TimeOffRequest
  submit_tx args days existing = retire e existing >> create_tx args days

  -- Step 2, the days, and the guard against a range in the past.
  unfoldable pub check_range : SubmitArgs → Action ℕ
  check_range args = do
    overlapping ← gets λ t. e.find_one TimeOffRequest (overlaps args) t.requests
    throw_if (is_there overlapping) conflict
    days ← days_or_throw (count_business_days no_holidays args.start_date args.end_date)
    throw_if (days == 0) bad_request
    throw_if (text_lt args.end_date (civil_date now)) bad_request
    pure days

  -- `saved ?? request`.
  unfoldable pub reload : TimeOffRequest → Action TimeOffRequest
  reload request = gets λ t. or_else request (find_request e request.id t)

  -- Step 3, and the transaction.
  unfoldable pub submit_days : SubmitArgs → Option TimeOffRequest → ℕ → Action TimeOffRequest
  submit_days args existing days =
      validate_availability e config hcm.recheck args.employee_id args.location_id days
      >> (e.transaction TimeOffRequest (submit_tx args days existing) >>= reload)

  unfoldable pub submit_new : SubmitArgs → Option TimeOffRequest → Action TimeOffRequest
  submit_new args existing = check_range args >>= submit_days args existing

  -- What a submission under this use of its key comes to.
  unfoldable pub submit_with : SubmitArgs → Option TimeOffRequest → KeyUse → Action TimeOffRequest
  submit_with args existing free = submit_new args existing
  submit_with args existing (replay r) = pure r
  submit_with args existing reused = throw unprocessable

  unfoldable pub submit_locked : SubmitArgs → Action TimeOffRequest
  submit_locked args = do
    existing ← gets λ t. e.find_one TimeOffRequest (has_key args.idempotency_key) t.requests
    submit_with args existing (key_use args existing)

  unfoldable pub submit : SubmitArgs → Action TimeOffRequest
  submit args = do
    get_balance e config hcm.prewarm args.employee_id args.location_id
    run_exclusive (balance_key args.employee_id args.location_id) (submit_locked args)

  unfoldable pub release_tx : RequestStatus → TimeOffRequest → Action TimeOffRequest
  release_tx status r = do
    release e r.employee_id r.location_id r.days
    save_request_row e (set_status status r)
    pure (set_status status r)

  unfoldable pub commit_tx : TimeOffRequest → Action TimeOffRequest
  commit_tx r = do
    commit e r.employee_id r.location_id r.days
    save_new_row e (set_committed now r) OutboxOperation.file
    save_request_row e (set_committed now r)
    pure (set_committed now r)

  abbrev pub reject_short : TimeOffRequest → Action TimeOffRequest
  reject_short r = e.transaction TimeOffRequest (release_tx RequestStatus.rejected r)

  abbrev pub commit_approval : TimeOffRequest → Action TimeOffRequest
  commit_approval r = e.transaction TimeOffRequest (commit_tx r)

  -- The decision on the days that are free after the refresh.
  unfoldable pub decide_on : TimeOffRequest → Option BalanceView → Action TimeOffRequest
  decide_on r none = throw other_error
  decide_on r (some view) =
      if ltb_ℤ (free_days view.balance) (pos r.days) then reject_short r else commit_approval r

  unfoldable pub decide : TimeOffRequest → Action TimeOffRequest
  decide r = get_balance e config hcm.recheck r.employee_id r.location_id >>= decide_on r

  -- The refresh from HCM; if HCM is down, the local row decides.
  unfoldable pub approve_refreshed : HcmReply → TimeOffRequest → Action TimeOffRequest
  approve_refreshed unavailable r = commit_approval r
  approve_refreshed broken r = throw other_error
  approve_refreshed (snapshot h) r = apply_hcm_snapshot e h >> decide r

  unfoldable pub approve_locked : String → Action TimeOffRequest
  approve_locked id = do
    r ← or_throw (← gets (find_request e id)) not_found
    throw_if (not (is_pending r.status)) bad_request
    if text_lt r.start_date (civil_date now)
        then reject_short r
        else approve_refreshed hcm.refresh r

  -- What every method on an existing request does first: find it, and warm the balance.
  abbrev pub on_request : (String → Action TimeOffRequest) → String → Action TimeOffRequest
  on_request locked id = do
    preload ← or_throw (← gets (find_request e id)) not_found
    get_balance e config hcm.prewarm preload.employee_id preload.location_id
    run_exclusive (balance_key preload.employee_id preload.location_id) (locked id)

  unfoldable pub approve : String → Action TimeOffRequest
  approve id = on_request approve_locked id

  unfoldable pub reject_tx : String → TimeOffRequest → Action TimeOffRequest
  reject_tx id r = do
    if is_pending r.status
        then release e r.employee_id r.location_id r.days
        else (do restore e r.employee_id r.location_id r.days; void_pending_file_rows e id)
    save_request_row e (set_status RequestStatus.rejected r)
    pure (set_status RequestStatus.rejected r)

  unfoldable pub reject_locked : String → Action TimeOffRequest
  reject_locked id = do
    r ← or_throw (← gets (find_request e id)) not_found
    throw_if (not (is_pending r.status || is_pending_sync r.status)) bad_request
    e.transaction TimeOffRequest (reject_tx id r)

  unfoldable pub reject : String → Action TimeOffRequest
  reject id = on_request reject_locked id

  -- A request that HCM may know of: give the days back, and enqueue the reversal.
  abbrev pub restore_and_reverse : TimeOffRequest → Action (Unit {0})
  restore_and_reverse r = do
    restore e r.employee_id r.location_id r.days
    save_new_row e r OutboxOperation.reverse

  unfoldable pub cancel_synced : String → TimeOffRequest → Action (Unit {0})
  cancel_synced id r = do
    row ← gets λ t. e.find_one Outbox (is_file_of id) t.outbox
    if not (file_sent row)
        then (do void_pending_file_rows e id; restore e r.employee_id r.location_id r.days)
        else restore_and_reverse r

  unfoldable pub cancel_tx : String → TimeOffRequest → Action TimeOffRequest
  cancel_tx id r = do
    if is_pending r.status
        then (do void_pending_file_rows e id; release e r.employee_id r.location_id r.days)
        else if is_pending_sync r.status
        then cancel_synced id r
        else restore_and_reverse r
    save_request_row e (set_status RequestStatus.cancelled r)
    pure (set_status RequestStatus.cancelled r)

  unfoldable pub cancel_locked : String → Action TimeOffRequest
  cancel_locked id = do
    r ← or_throw (← gets (find_request e id)) not_found
    if is_cancelled r.status then pure r else (do
      throw_if (not (is_pending r.status || is_pending_sync r.status || is_approved r.status))
          bad_request
      e.transaction TimeOffRequest (cancel_tx id r))

  unfoldable pub cancel : String → Action TimeOffRequest
  cancel id = on_request cancel_locked id

module _ (e : Engine) where
  unfoldable pub expire_tx : String → TimeOffRequest → Action TimeOffRequest
  expire_tx id r = do
    if is_pending r.status
        then (do release e r.employee_id r.location_id r.days; void_pending_file_rows e id)
        else (do restore e r.employee_id r.location_id r.days; void_pending_file_rows e id)
    save_request_row e (set_status RequestStatus.expired r)
    pure (set_status RequestStatus.expired r)

  -- Its caller, the reaper, holds the lock.
  unfoldable pub expire : String → Action TimeOffRequest
  expire id = do
    r ← or_throw (← gets (find_request e id)) not_found
    throw_if (not (is_pending r.status || is_pending_sync r.status)) bad_request
    e.transaction TimeOffRequest (expire_tx id r)
