-- ===== src/Ledger/Entries.antt =====
-- The sections of a submission, of a batch and of a review, as calls that keep a relation which the
-- writes of the services keep.
use wizdaa_takehome.Prelude.{ℕ, String, true, false, Option, ◌==◌, first, upsert, text_lt}
use wizdaa_takehome.Entities.{TimeOffRequest, HcmBalance, BatchCorpus}
use wizdaa_takehome.Config.{AppConfig}
use wizdaa_takehome.Calendar.{
  DayCount, misordered, unended, counted, count_business_days, no_holidays, civil_date,
}
use wizdaa_takehome.Database.{
  Tables, request_key_is, modify, bad_request, conflict, Database, memory_of, last_of, pure,
  throw_if, ◌>>=◌, ◌>>◌,
}
use wizdaa_takehome.Balances.{
  balance_key, validate_availability, reserve, resolve_review, change_balance, clear_review,
  reconcile_balance, save_with_retry, save_attempts,
}
use wizdaa_takehome.Requests.{
  HcmReplies, SubmitArgs, KeyUse, free, replay, reused, overlaps, is_there, days_or_throw,
  new_request, retire, create_tx, submit_tx, check_range, reload, submit_days, submit_new,
  submit_with, submit_locked, key_use, has_key,
}
use wizdaa_takehome.Reconciliation.{
  is_stale, stale_event, sequence_guard, reconcile_entry, record_batch,
}
use wizdaa_takehome.Ledger.Respects.{Respects, exclusive-Respects}
use wizdaa_takehome.Ledger.Walk.{
  Closed, also, chained, choice, checked, change-Respects, reserve-Respects, retire-Respects,
  validate-Respects,
}
use wizdaa_takehome.Ledger.Approving.{atomic, stays}

module _ (db : Database) (R : Tables → Tables → Type 0) (Writes : TimeOffRequest → Type 0)
    (Voids : String → Type 0) (c : Closed R Writes Voids) where
  module _ (config : AppConfig) (hcm : HcmReplies) (now : ℕ) (args : SubmitArgs) where
    create_tx-Respects : (days : ℕ) → Respects R (create_tx (memory_of db) config hcm now args days)
    unfolding create_tx
    create_tx-Respects days locks t =
        let r =
          new_request config now args days (db.new_request_id t.requests) (db.random_uuid t) in
        c.trans t (record t { requests = upsert request_key_is r t.requests }) _
          (c.created t r (db.new_request_id_lem t.requests))
          (also db R Writes Voids c (reserve (memory_of db) args.employee_id args.location_id days)
            (pure r) (reserve-Respects db R Writes Voids c args.employee_id args.location_id days)
            (stays db R Writes Voids c r) locks
            (record t { requests = upsert request_key_is r t.requests }))

    days_or-Respects : (days : DayCount) → Respects R (days_or_throw days)
    days_or-Respects misordered = λ locks t. c.stay t
    days_or-Respects unended = λ locks t. c.stay t
    days_or-Respects (counted n) = λ locks t. c.stay t

    range-Respects : Respects R (check_range (memory_of db) config hcm now args)
    unfolding check_range
    range-Respects locks t =
        checked db R Writes Voids c (is_there (first (overlaps args) t.requests)) conflict
          (days_or_throw (count_business_days no_holidays args.start_date args.end_date) >>= λ days.
            throw_if (days == 0) bad_request
            >> (throw_if (text_lt args.end_date (civil_date now)) bad_request >> pure days))
          (λ apart.
            chained db R Writes Voids c
              (days_or_throw (count_business_days no_holidays args.start_date args.end_date))
              (λ days.
                throw_if (days == 0) bad_request
                >> (throw_if (text_lt args.end_date (civil_date now)) bad_request >> pure days))
              (days_or-Respects (count_business_days no_holidays args.start_date args.end_date))
              (λ days.
                checked db R Writes Voids c (days == 0) bad_request
                  (throw_if (text_lt args.end_date (civil_date now)) bad_request >> pure days)
                  (λ some_days.
                    checked db R Writes Voids c (text_lt args.end_date (civil_date now)) bad_request
                      (pure days) (λ ahead. stays db R Writes Voids c days))))
          locks t

    submit_days-Respects :
        (existing : Option TimeOffRequest) (days : ℕ)
        → Respects R (submit_days (memory_of db) config hcm now args existing days)
    unfolding submit_days submit_tx reload
    submit_days-Respects existing days =
        also db R Writes Voids c
          (validate_availability (memory_of db) config hcm.recheck args.employee_id args.location_id
            days)
          ((memory_of db).transaction TimeOffRequest
              (submit_tx (memory_of db) config hcm now args days existing)
            >>= reload (memory_of db) config hcm now)
          (validate-Respects db R Writes Voids c config hcm.recheck args.employee_id
            args.location_id days)
          (chained db R Writes Voids c
            ((memory_of db).transaction TimeOffRequest
              (submit_tx (memory_of db) config hcm now args days existing))
            (reload (memory_of db) config hcm now)
            (atomic db R Writes Voids c (submit_tx (memory_of db) config hcm now args days existing)
              (also db R Writes Voids c (retire (memory_of db) existing)
                (create_tx (memory_of db) config hcm now args days)
                (retire-Respects db R Writes Voids c existing) (create_tx-Respects days)))
            (λ request locks t. c.stay t))

    submit_with-Respects :
        (existing : Option TimeOffRequest) (used : KeyUse)
        → Respects R (submit_with (memory_of db) config hcm now args existing used)
    unfolding submit_with submit_new
    submit_with-Respects existing free =
        chained db R Writes Voids c (check_range (memory_of db) config hcm now args)
          (submit_days (memory_of db) config hcm now args existing) range-Respects
          (submit_days-Respects existing)
    submit_with-Respects existing (replay r) = λ locks t. c.stay t
    submit_with-Respects existing reused = λ locks t. c.stay t

    pub submit_locked-Respects : Respects R (submit_locked (memory_of db) config hcm now args)
    unfolding submit_locked
    submit_locked-Respects locks t =
        let existing = first (has_key args.idempotency_key) t.requests in
        submit_with-Respects existing (key_use args existing) locks t

  pub resolve-Respects :
      (employee location : String) → Respects R (resolve_review (memory_of db) employee location)
  unfolding resolve_review
  resolve-Respects employee location =
      exclusive-Respects R c.stay c.trans (balance_key employee location)
        (change_balance (memory_of db) employee location clear_review)
        (change-Respects db R Writes Voids c employee location clear_review)

  pub guard-Respects : (corpus : BatchCorpus) → Respects R (sequence_guard (memory_of db) corpus)
  unfolding sequence_guard
  guard-Respects corpus locks t =
      choice db R Writes Voids c (is_stale corpus (last_of t.batch_logs))
        (modify (λ u. record u { events = (memory_of db).save_event stale_event u.events })
          >> pure true)
        (pure false) (λ locks u. c.events u _) (stays db R Writes Voids c false) locks t

  pub record-Respects : (corpus : BatchCorpus) → Respects R (record_batch (memory_of db) corpus)
  unfolding record_batch
  record-Respects corpus locks t = c.batch_logs t _

  reconcile-Respects :
      (entry : HcmBalance) (as_of : ℕ) → Respects R (reconcile_balance (memory_of db) entry as_of)
  unfolding reconcile_balance save_with_retry save_attempts
  reconcile-Respects entry as_of locks t = c.trans t _ _ (c.balances t _) (c.events _ _)

  pub entry-Respects :
      (as_of : ℕ) (entry : HcmBalance) → Respects R (reconcile_entry (memory_of db) as_of entry)
  unfolding reconcile_entry
  entry-Respects as_of entry =
      exclusive-Respects R c.stay c.trans (balance_key entry.employee_id entry.location_id)
        ((memory_of db).transaction (Unit {0}) (reconcile_balance (memory_of db) entry as_of))
        (atomic db R Writes Voids c (reconcile_balance (memory_of db) entry as_of)
          (reconcile-Respects entry as_of))
