-- ===== src/Guarantees/Accounts.antt =====
-- What holds of the balances, the requests and the outbox together, for every database that keeps
-- the documented promises.
use wizdaa_takehome.Prelude.{ℕ, ◌≤◌, String, true, false, some, List, ◌≡◌, first, sym, subst}
use wizdaa_takehome.Entities.{TimeOffRequest, request_id_is, is_pending, is_pending_sync}
use wizdaa_takehome.Config.{AppConfig}
use wizdaa_takehome.Database.{Tables, Database, engine-eq-memory}
use wizdaa_takehome.Requests.{
  HcmReplies, SubmitArgs, submit, approve, cancel_locked, reject_locked, is_file_of, file_sent,
}
use wizdaa_takehome.Dispatcher.{HcmWrites, dispatch_pending}
use wizdaa_takehome.Reconciliation.{ingest_batch}
use wizdaa_takehome.Entities.{BatchCorpus}
use wizdaa_takehome.Reaper.{sweep}
use wizdaa_takehome.Ledger.Rows.{balance_of}
use wizdaa_takehome.Ledger.Reserved.{held-le, pending_days_of}
use wizdaa_takehome.Ledger.Moves.{Inv}
use wizdaa_takehome.Ledger.Reject.{Kept, reject_locked-Kept}
use wizdaa_takehome.Ledger.Cancel.{cancel_locked-Kept, not_sent}
use wizdaa_takehome.Ledger.Reconcile.{ingest_batch-Inv}
use wizdaa_takehome.Ledger.Methods.{submit-Inv, approve-Inv, dispatch_pending-Kept, sweep-Kept}
use wizdaa_takehome.Ledger.Reached.{Reached, in_memory-Inv}

-- In every state that the service can come to, whatever HCM answers and in whatever order the
-- sections of the methods follow each other: the reserved days of each balance are the days of its
-- PENDING requests, a request has a FILE row that waits (and then one) exactly if it is
-- PENDING_SYNC, no request has two FILE rows, or one while it is PENDING, and of two rows of active
-- requests of one employee and location the ranges do not meet.
pub Reached-Inv :
    (db : Database) (config : AppConfig) (t : Tables) → Reached db.engine config t → Inv t
Reached-Inv db config =
    subst (λ e. (t : Tables) → Reached e config t → Inv t) (sym (engine-eq-memory db))
      (in_memory-Inv db config)

-- A tick of the dispatcher keeps the tables consistent, and for each balance the sum of its available
-- days and of the days of its APPROVED and PENDING_SYNC requests, whatever HCM answers and however
-- often it failed before.
pub dispatch_keeps_days :
    (db : Database) (config : AppConfig) (hcm : HcmWrites) (now : ℕ) (locks : List String)
    (t : Tables)
    → Inv t
    → Kept t (dispatch_pending db.engine config hcm now locks t)
dispatch_keeps_days db config hcm now locks t inv =
    rw (engine-eq-memory db) (dispatch_pending-Kept db config hcm now locks t inv)

-- A sweep of the reaper keeps the tables consistent, and for each balance the sum of its available
-- days and of the days of its APPROVED and PENDING_SYNC requests.
pub sweep_keeps_days :
    (db : Database) (now : ℕ) (locks : List String) (t : Tables)
    → Inv t
    → Kept t (sweep db.engine now locks t)
sweep_keeps_days db now locks t inv = rw (engine-eq-memory db) (sweep-Kept db now locks t inv)

-- A cancellation under the lock keeps the tables consistent, and for each balance the sum of its
-- available days and of the days of its APPROVED and PENDING_SYNC requests.
pub cancel_keeps_days :
    (db : Database) (config : AppConfig) (hcm : HcmReplies) (now : ℕ) (id : String)
    (locks : List String) (t : Tables)
    → Inv t
    → Kept t (cancel_locked db.engine config hcm now id locks t)
cancel_keeps_days db config hcm now id locks t inv =
    rw (engine-eq-memory db) (cancel_locked-Kept db config hcm now id locks t inv)

-- A rejection under the lock keeps the tables consistent, and for each balance the sum of its
-- available days and of the days of its APPROVED and PENDING_SYNC requests.
pub reject_keeps_days :
    (db : Database) (config : AppConfig) (hcm : HcmReplies) (now : ℕ) (id : String)
    (locks : List String) (t : Tables)
    → Inv t
    → Kept t (reject_locked db.engine config hcm now id locks t)
reject_keeps_days db config hcm now id locks t inv =
    rw (engine-eq-memory db) (reject_locked-Kept db config hcm now id locks t inv)

-- A submission keeps the tables consistent, however it ends.
pub submit_keeps_consistent :
    (db : Database) (config : AppConfig) (hcm : HcmReplies) (now : ℕ) (args : SubmitArgs)
    (locks : List String) (t : Tables)
    → Inv t
    → Inv (submit db.engine config hcm now args locks t).1
submit_keeps_consistent db config hcm now args locks t inv =
    rw (engine-eq-memory db) (submit-Inv db config hcm now args locks t inv)

-- An approval keeps the tables consistent, however it ends.
pub approve_keeps_consistent :
    (db : Database) (config : AppConfig) (hcm : HcmReplies) (now : ℕ) (id : String)
    (locks : List String) (t : Tables)
    → Inv t
    → Inv (approve db.engine config hcm now id locks t).1
approve_keeps_consistent db config hcm now id locks t inv =
    rw (engine-eq-memory db) (approve-Inv db config hcm now id locks t inv)

-- The ingest of a batch keeps the tables consistent, however it ends.
pub ingest_keeps_consistent :
    (db : Database) (corpus : BatchCorpus) (locks : List String) (t : Tables)
    → Inv t
    → Inv (ingest_batch db.engine corpus locks t).1
ingest_keeps_consistent db corpus locks t inv =
    rw (engine-eq-memory db) (ingest_batch-Inv db corpus locks t inv)

-- In every state that the service can come to, a request that is PENDING_SYNC has no FILE row that
-- is SENT, so a cancellation never finds one.
pub synced_is_unsent :
    (db : Database) (config : AppConfig) (t : Tables) (r : TimeOffRequest)
    → Reached db.engine config t
    → first (request_id_is r.id) t.requests ≡ some r
    → is_pending_sync r.status ≡ true
    → file_sent (first (is_file_of r.id) t.outbox) ≡ false
synced_is_unsent db config t r reached found sync =
    not_sent t r sync (Reached-Inv db config t reached) found

-- In every state that the service can come to, a PENDING request has its days reserved, so that
-- `release` and `commit`, which subtract them, never take the reserved days below zero.
pub pending_is_reserved :
    (db : Database) (config : AppConfig) (t : Tables) (r : TimeOffRequest)
    → Reached db.engine config t
    → first (request_id_is r.id) t.requests ≡ some r
    → is_pending r.status ≡ true
    → r.days ≤ (balance_of r.employee_id r.location_id t).reserved
pending_is_reserved db config t r reached found was =
    let days_eq : pending_days_of r ≡ r.days = rw was in
    subst (λ n. n ≤ (balance_of r.employee_id r.location_id t).reserved) days_eq
      (held-le r t (Reached-Inv db config t reached).reserved found)
