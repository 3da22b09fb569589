-- ===== src/Ledger/Endings.antt =====
-- The sections that end a request, as calls that keep a relation which the writes of the services
-- keep.
use wizdaa_takehome.Prelude.{ℕ, String, not, ◌||◌, true, some, List, ◌≡◌, first, if◌then◌else◌}
use wizdaa_takehome.Entities.{
  TimeOffRequest, request_id_is, RequestStatus, OutboxOperation, is_pending, is_pending_sync,
  is_approved, is_cancelled,
}
use wizdaa_takehome.Config.{AppConfig}
use wizdaa_takehome.Database.{
  Tables, Action, bad_request, Database, memory_of, pure, throw_if, ◌>>◌,
}
use wizdaa_takehome.Balances.{release, restore}
use wizdaa_takehome.Requests.{
  HcmReplies, set_status, save_request_row, save_new_row, void_pending_file_rows, is_file_of,
  file_sent, reject_tx, reject_locked, restore_and_reverse, cancel_synced, cancel_tx, cancel_locked,
  expire_tx, expire,
}
use wizdaa_takehome.Ledger.Respects.{Respects}
use wizdaa_takehome.Ledger.Walk.{
  Closed, also, choice, checked, sought, release-Respects, restore-Respects, save_new-Respects,
  void-Respects,
}
use wizdaa_takehome.Ledger.Approving.{of_not, atomic, stays, saved}

module _ (db : Database) (R : Tables → Tables → Type 0) (Writes : TimeOffRequest → Type 0)
    (Voids : String → Type 0) (c : Closed R Writes Voids) where
  -- The days of a request given back, and its FILE rows voided.
  restored_void :
      (id : String) (r : TimeOffRequest)
      → Voids id
      → Respects R (
          restore (memory_of db) r.employee_id r.location_id r.days
          >> void_pending_file_rows (memory_of db) id)
  restored_void id r w =
      also db R Writes Voids c (restore (memory_of db) r.employee_id r.location_id r.days)
        (void_pending_file_rows (memory_of db) id)
        (restore-Respects db R Writes Voids c r.employee_id r.location_id r.days)
        (void-Respects db R Writes Voids c id w)

  -- What a transaction that ends a request does last.
  ended :
      (first_part : Action (Unit {0})) (status : RequestStatus) (r : TimeOffRequest)
      → Writes (set_status status r)
      → Respects R first_part
      → Respects R (
          first_part
          >> (save_request_row (memory_of db) (set_status status r) >> pure (set_status status r)))
  ended first_part status r w h =
      also db R Writes Voids c first_part
        (save_request_row (memory_of db) (set_status status r) >> pure (set_status status r)) h
        (saved db R Writes Voids c (set_status status r) w)

  module _ (config : AppConfig) (hcm : HcmReplies) (now : ℕ) where
    reject_tx-Respects :
        (id : String) (r : TimeOffRequest)
        → Voids id
        → Writes (set_status RequestStatus.rejected r)
        → Respects R (reject_tx (memory_of db) config hcm now id r)
    unfolding reject_tx
    reject_tx-Respects id r w w' =
        ended
          (if is_pending r.status
            then release (memory_of db) r.employee_id r.location_id r.days
            else (restore (memory_of db) r.employee_id r.location_id r.days
                >> void_pending_file_rows (memory_of db) id))
          RequestStatus.rejected r w'
          (choice db R Writes Voids c (is_pending r.status)
            (release (memory_of db) r.employee_id r.location_id r.days)
            (restore (memory_of db) r.employee_id r.location_id r.days
              >> void_pending_file_rows (memory_of db) id)
            (release-Respects db R Writes Voids c r.employee_id r.location_id r.days)
            (restored_void id r w))

    pub reject_locked-Respects :
        (id : String) (locks : List String) (t : Tables)
        → ((r : TimeOffRequest)
            → first (request_id_is id) t.requests ≡ some r
            → (is_pending r.status || is_pending_sync r.status) ≡ true
            → Voids id × Writes (set_status RequestStatus.rejected r))
        → R t (reject_locked (memory_of db) config hcm now id locks t).1
    unfolding reject_locked
    reject_locked-Respects id locks t w =
        sought db R Writes Voids c id
          (λ r.
            throw_if (not (is_pending r.status || is_pending_sync r.status)) bad_request
            >> (memory_of db).transaction TimeOffRequest
                (reject_tx (memory_of db) config hcm now id r))
          locks t
          (λ r e.
            checked db R Writes Voids c (not (is_pending r.status || is_pending_sync r.status))
              bad_request
              ((memory_of db).transaction TimeOffRequest
                (reject_tx (memory_of db) config hcm now id r))
              (λ live.
                let w' = w r e (of_not (is_pending r.status || is_pending_sync r.status) live) in
                atomic db R Writes Voids c (reject_tx (memory_of db) config hcm now id r)
                  (reject_tx-Respects id r w'.0 w'.1))
              locks t)

    reversed :
        (r : TimeOffRequest) → Respects R (restore_and_reverse (memory_of db) config hcm now r)
    reversed r =
        also db R Writes Voids c (restore (memory_of db) r.employee_id r.location_id r.days)
          (save_new_row (memory_of db) r OutboxOperation.reverse)
          (restore-Respects db R Writes Voids c r.employee_id r.location_id r.days)
          (save_new-Respects db R Writes Voids c r OutboxOperation.reverse)

    synced-Respects :
        (id : String) (r : TimeOffRequest)
        → Voids id
        → Respects R (cancel_synced (memory_of db) config hcm now id r)
    unfolding cancel_synced
    synced-Respects id r w locks t =
        choice db R Writes Voids c (not (file_sent (first (is_file_of id) t.outbox)))
          (void_pending_file_rows (memory_of db) id
            >> restore (memory_of db) r.employee_id r.location_id r.days)
          (restore_and_reverse (memory_of db) config hcm now r)
          (also db R Writes Voids c (void_pending_file_rows (memory_of db) id)
            (restore (memory_of db) r.employee_id r.location_id r.days)
            (void-Respects db R Writes Voids c id w)
            (restore-Respects db R Writes Voids c r.employee_id r.location_id r.days))
          (reversed r) locks t

    cancel_tx-Respects :
        (id : String) (r : TimeOffRequest)
        → Voids id
        → Writes (set_status RequestStatus.cancelled r)
        → Respects R (cancel_tx (memory_of db) config hcm now id r)
    unfolding cancel_tx
    cancel_tx-Respects id r w w' =
        let pending_part =
          void_pending_file_rows (memory_of db) id
          >> release (memory_of db) r.employee_id r.location_id r.days in
        let later_part =
          (if is_pending_sync r.status
            then cancel_synced (memory_of db) config hcm now id r
            else restore_and_reverse (memory_of db) config hcm now r) in
        ended (if is_pending r.status then pending_part else later_part) RequestStatus.cancelled r
          w'
          (choice db R Writes Voids c (is_pending r.status) pending_part later_part
            (also db R Writes Voids c (void_pending_file_rows (memory_of db) id)
              (release (memory_of db) r.employee_id r.location_id r.days)
              (void-Respects db R Writes Voids c id w)
              (release-Respects db R Writes Voids c r.employee_id r.location_id r.days))
            (choice db R Writes Voids c (is_pending_sync r.status)
              (cancel_synced (memory_of db) config hcm now id r)
              (restore_and_reverse (memory_of db) config hcm now r) (synced-Respects id r w)
              (reversed r)))

    pub cancel_locked-Respects :
        (id : String) (locks : List String) (t : Tables)
        → ((r : TimeOffRequest)
            → first (request_id_is id) t.requests ≡ some r
            → (is_pending r.status || is_pending_sync r.status || is_approved r.status) ≡ true
            → Voids id × Writes (set_status RequestStatus.cancelled r))
        → R t (cancel_locked (memory_of db) config hcm now id locks t).1
    unfolding cancel_locked
    cancel_locked-Respects id locks t w =
        sought db R Writes Voids c id
          (λ r. if is_cancelled r.status then pure r else live_part id r) locks t
          (λ r e.
            choice db R Writes Voids c (is_cancelled r.status) (pure r) (live_part id r)
              (stays db R Writes Voids c r)
              (checked db R Writes Voids c
                (not (is_pending r.status || is_pending_sync r.status || is_approved r.status))
                bad_request
                ((memory_of db).transaction TimeOffRequest
                  (cancel_tx (memory_of db) config hcm now id r))
                (λ live.
                  let w' = w r e (
                    of_not (is_pending r.status || is_pending_sync r.status || is_approved r.status)
                      live) in
                  atomic db R Writes Voids c (cancel_tx (memory_of db) config hcm now id r)
                    (cancel_tx-Respects id r w'.0 w'.1)))
              locks t)
      where
        live_part : String → TimeOffRequest → Action TimeOffRequest
        live_part id r =
            throw_if (not (is_pending r.status || is_pending_sync r.status || is_approved r.status))
              bad_request
            >> (memory_of db).transaction TimeOffRequest
                (cancel_tx (memory_of db) config hcm now id r)

  expire_tx-Respects :
      (id : String) (r : TimeOffRequest)
      → Voids id
      → Writes (set_status RequestStatus.expired r)
      → Respects R (expire_tx (memory_of db) id r)
  unfolding expire_tx
  expire_tx-Respects id r w w' =
      let pending_part =
        release (memory_of db) r.employee_id r.location_id r.days
        >> void_pending_file_rows (memory_of db) id in
      let later_part =
        restore (memory_of db) r.employee_id r.location_id r.days
        >> void_pending_file_rows (memory_of db) id in
      ended (if is_pending r.status then pending_part else later_part) RequestStatus.expired r w' (
        choice db R Writes Voids c (is_pending r.status) pending_part later_part
          (also db R Writes Voids c (release (memory_of db) r.employee_id r.location_id r.days)
            (void_pending_file_rows (memory_of db) id)
            (release-Respects db R Writes Voids c r.employee_id r.location_id r.days)
            (void-Respects db R Writes Voids c id w))
          (restored_void id r w))

  pub expire-Respects :
      (id : String) (locks : List String) (t : Tables)
      → ((r : TimeOffRequest)
          → first (request_id_is id) t.requests ≡ some r
          → (is_pending r.status || is_pending_sync r.status) ≡ true
          → Voids id × Writes (set_status RequestStatus.expired r))
      → R t (expire (memory_of db) id locks t).1
  unfolding expire
  expire-Respects id locks t w =
      sought db R Writes Voids c id
        (λ r.
          throw_if (not (is_pending r.status || is_pending_sync r.status)) bad_request
          >> (memory_of db).transaction TimeOffRequest (expire_tx (memory_of db) id r))
        locks t
        (λ r e.
          checked db R Writes Voids c (not (is_pending r.status || is_pending_sync r.status))
            bad_request ((memory_of db).transaction TimeOffRequest (expire_tx (memory_of db) id r))
            (λ live.
              let w' = w r e (of_not (is_pending r.status || is_pending_sync r.status) live) in
              atomic db R Writes Voids c (expire_tx (memory_of db) id r)
                (expire_tx-Respects id r w'.0 w'.1))
            locks t)
