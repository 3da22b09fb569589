-- ===== src/Ledger/Approving.antt =====
-- The section of an approval, as a call that keeps a relation which the writes of the services keep.
use wizdaa_takehome.Prelude.{
  ℕ, String, not, Option, none, some, true, false, Bool, List, first, ◌≡◌, text_lt, refl,
  if◌then◌else◌,
}
use wizdaa_takehome.Prelude.Int.{pos, ltb_ℤ}
use wizdaa_takehome.Entities.{
  TimeOffRequest, request_id_is, RequestStatus, OutboxOperation, is_pending,
}
use wizdaa_takehome.Config.{AppConfig}
use wizdaa_takehome.Calendar.{civil_date}
use wizdaa_takehome.Database.{
  Tables, Action, bad_request, Database, memory_of, pure, throw_if, ◌>>◌,
}
use wizdaa_takehome.Balances.{
  HcmReply, snapshot, unavailable, broken, BalanceView, free_days, apply_hcm_snapshot, get_balance,
  release, commit,
}
use wizdaa_takehome.Requests.{
  HcmReplies, set_status, set_committed, save_request_row, save_new_row, release_tx, commit_tx,
  reject_short, commit_approval, decide_on, decide, approve_refreshed, approve_locked,
}
use wizdaa_takehome.Ledger.Respects.{Respects, transaction-Respects}
use wizdaa_takehome.Ledger.Walk.{
  Closed, also, chained, choice, checked, sought, release-Respects, commit-Respects,
  snapshot-Respects, save_request-Respects, save_new-Respects, get_balance-Respects,
}

-- A guard on what a test refuses, that lets the call go on.
pub of_not : (b : Bool) → not b ≡ false → b ≡ true
of_not true e = refl
of_not false e = absurd (cc e)

module _ (db : Database) (R : Tables → Tables → Type 0) (Writes : TimeOffRequest → Type 0)
    (Voids : String → Type 0) (c : Closed R Writes Voids) where
  pub atomic :
      {A : Type 0} (m : Action A) → Respects R m → Respects R ((memory_of db).transaction A m)
  atomic m = transaction-Respects R c.stay c.trans m

  pub stays : {A : Type 0} (a : A) → Respects R {A = A} (pure a)
  stays a locks t = c.stay t

  -- The request saved in another state, as the end of a transaction.
  pub saved :
      (r : TimeOffRequest) → Writes r → Respects R (save_request_row (memory_of db) r >> pure r)
  saved r w =
      also db R Writes Voids c (save_request_row (memory_of db) r) (pure r)
        (save_request-Respects db R Writes Voids c r w) (stays r)

  module _ (config : AppConfig) (hcm : HcmReplies) (now : ℕ) where
    release_tx-Respects :
        (status : RequestStatus) (r : TimeOffRequest)
        → Writes (set_status status r)
        → Respects R (release_tx (memory_of db) config hcm now status r)
    unfolding release_tx
    release_tx-Respects status r w =
        also db R Writes Voids c (release (memory_of db) r.employee_id r.location_id r.days)
          (save_request_row (memory_of db) (set_status status r) >> pure (set_status status r))
          (release-Respects db R Writes Voids c r.employee_id r.location_id r.days)
          (saved (set_status status r) w)

    commit_tx-Respects :
        (r : TimeOffRequest)
        → Writes (set_committed now r)
        → Respects R (commit_tx (memory_of db) config hcm now r)
    unfolding commit_tx
    commit_tx-Respects r w =
        also db R Writes Voids c (commit (memory_of db) r.employee_id r.location_id r.days)
          (save_new_row (memory_of db) (set_committed now r) OutboxOperation.file
            >> (save_request_row (memory_of db) (set_committed now r)
                >> pure (set_committed now r)))
          (commit-Respects db R Writes Voids c r.employee_id r.location_id r.days)
          (also db R Writes Voids c
            (save_new_row (memory_of db) (set_committed now r) OutboxOperation.file)
            (save_request_row (memory_of db) (set_committed now r) >> pure (set_committed now r))
            (save_new-Respects db R Writes Voids c (set_committed now r) OutboxOperation.file)
            (saved (set_committed now r) w))

    decide_on-Respects :
        (r : TimeOffRequest) (view : Option BalanceView)
        → Writes (set_status RequestStatus.rejected r) × Writes (set_committed now r)
        → Respects R (decide_on (memory_of db) config hcm now r view)
    unfolding decide_on
    decide_on-Respects r none w = λ locks t. c.stay t
    decide_on-Respects r (some v) w =
        choice db R Writes Voids c (ltb_ℤ (free_days v.balance) (pos r.days))
          (reject_short (memory_of db) config hcm now r)
          (commit_approval (memory_of db) config hcm now r)
          (atomic (release_tx (memory_of db) config hcm now RequestStatus.rejected r)
            (release_tx-Respects RequestStatus.rejected r w.0))
          (atomic (commit_tx (memory_of db) config hcm now r) (commit_tx-Respects r w.1))

    refreshed-Respects :
        (reply : HcmReply) (r : TimeOffRequest)
        → Writes (set_status RequestStatus.rejected r) × Writes (set_committed now r)
        → Respects R (approve_refreshed (memory_of db) config hcm now reply r)
    unfolding approve_refreshed decide
    refreshed-Respects unavailable r w =
        atomic (commit_tx (memory_of db) config hcm now r) (commit_tx-Respects r w.1)
    refreshed-Respects broken r w = λ locks t. c.stay t
    refreshed-Respects (snapshot h) r w =
        also db R Writes Voids c (apply_hcm_snapshot (memory_of db) h)
          (decide (memory_of db) config hcm now r) (snapshot-Respects db R Writes Voids c h)
          (chained db R Writes Voids c
            (get_balance (memory_of db) config hcm.recheck r.employee_id r.location_id)
            (decide_on (memory_of db) config hcm now r)
            (get_balance-Respects db R Writes Voids c config hcm.recheck r.employee_id
              r.location_id)
            (λ view. decide_on-Respects r view w))

    pub approve_locked-Respects :
        (id : String) (locks : List String) (t : Tables)
        → ((r : TimeOffRequest)
            → first (request_id_is id) t.requests ≡ some r
            → is_pending r.status ≡ true
            → Writes (set_status RequestStatus.rejected r) × Writes (set_committed now r))
        → R t (approve_locked (memory_of db) config hcm now id locks t).1
    unfolding approve_locked
    approve_locked-Respects id locks t w =
        sought db R Writes Voids c id
          (λ r.
            throw_if (not (is_pending r.status)) bad_request
            >> (if text_lt r.start_date (civil_date now)
                then reject_short (memory_of db) config hcm now r
                else approve_refreshed (memory_of db) config hcm now hcm.refresh r))
          locks t
          (λ r e.
            checked db R Writes Voids c (not (is_pending r.status)) bad_request
              (if text_lt r.start_date (civil_date now)
                then reject_short (memory_of db) config hcm now r
                else approve_refreshed (memory_of db) config hcm now hcm.refresh r)
              (λ fresh.
                let w' = w r e (of_not (is_pending r.status) fresh) in
                choice db R Writes Voids c (text_lt r.start_date (civil_date now))
                  (reject_short (memory_of db) config hcm now r)
                  (approve_refreshed (memory_of db) config hcm now hcm.refresh r)
                  (atomic (release_tx (memory_of db) config hcm now RequestStatus.rejected r)
                    (release_tx-Respects RequestStatus.rejected r w'.0))
                  (refreshed-Respects hcm.refresh r w'))
              locks t)
