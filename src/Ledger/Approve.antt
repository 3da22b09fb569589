-- ===== src/Ledger/Approve.antt =====
-- `approve` under the lock.
use wizdaa_takehome.Prelude.{
  ℕ, ◌+◌, String, true, Option, none, some, List, ◌≡◌, refl, ap, ◌∙◌, subst, inl, inr, first,
  upsert, total, Bool-cases, Option-cases, same_refl, text_lt, arith,
}
use wizdaa_takehome.Prelude.Int.{pos, ltb_ℤ}
use wizdaa_takehome.Entities.{
  TimeOffRequest, Outbox, OutboxOperation, RequestStatus, request_id_is, is_pending,
}
use wizdaa_takehome.Config.{AppConfig}
use wizdaa_takehome.Calendar.{civil_date}
use wizdaa_takehome.Database.{Tables, Database, memory_of, outbox_key_is}
use wizdaa_takehome.Balances.{
  HcmReply, snapshot, unavailable, broken, BalanceView, free_days, release, commit, change_balance,
  save_with_retry, save_attempts, apply_hcm_snapshot, get_balance,
}
use wizdaa_takehome.Requests.{
  HcmReplies, build_outbox_row, set_committed, release_tx, commit_tx, decide_on, decide,
  approve_refreshed, approve_locked,
}
use wizdaa_takehome.Ledger.Rows.{found_self}
use wizdaa_takehome.Ledger.Filed.{waiting, file_row, limit_of}
use wizdaa_takehome.Ledger.Moves.{Inv, RowsFor, added_rows, released, committed_move}
use wizdaa_takehome.Ledger.Reject.{Kept, settle-Kept, follow, no_rows}
use wizdaa_takehome.Ledger.Reads.{SameButBalances, apply_hcm_snapshot-Inv, get_balance-Inv}

module _ (db : Database) (config : AppConfig) (hcm : HcmReplies) (now : ℕ) where
  file_row_of : Tables → TimeOffRequest → Outbox
  file_row_of t r =
      build_outbox_row (db.new_outbox_id t.outbox) (set_committed now r) OutboxOperation.file

  -- The new FILE row is the only one of its request.
  file_rows :
      (t : Tables) (r : TimeOffRequest)
      → is_pending r.status ≡ true
      → Inv t
      → first (request_id_is r.id) t.requests ≡ some r
      → RowsFor t r (upsert outbox_key_is (file_row_of t r) t.outbox) 1
  unfolding file_row_of build_outbox_row
  file_rows t r was inv found =
      let w : waiting r.id (file_row_of t r) ≡ 1 = rw (same_refl r.id) in
      let f : file_row r.id (file_row_of t r) ≡ 1 = rw (same_refl r.id) in
      let limit : limit_of (first (request_id_is r.id) t.requests) ≡ 0 = rw (found, was) in
      let rows =
        added_rows t r inv (file_row_of t r) refl (db.new_outbox_id_lem t.outbox)
          (omega (arith, f, inv.single r.id, limit)) in
      let sum : total (waiting r.id) t.outbox + waiting r.id (file_row_of t r) ≡ 1 =
        omega (arith, w, (no_rows t r was inv found).own) in
      subst (RowsFor t r (upsert outbox_key_is (file_row_of t r) t.outbox)) sum rows

  module _ (t : Tables) (r : TimeOffRequest) (locks : List String) (inv : Inv t)
      (found : first (request_id_is r.id) t.requests ≡ some r)
      (was : is_pending r.status ≡ true) where
    pub commit_tx-Kept : Kept t (commit_tx (memory_of db) config hcm now r locks t)
    unfolding commit_tx commit change_balance save_with_retry save_attempts file_row_of
    commit_tx-Kept =
        committed_move t r RequestStatus.pending_sync (some now) r.hcm_ack_at
          (upsert outbox_key_is (file_row_of t r) t.outbox) found was refl refl refl
          (file_rows t r was inv found) inv

    pub release_tx-Kept :
        Kept t (release_tx (memory_of db) config hcm now RequestStatus.rejected r locks t)
    unfolding release_tx release change_balance save_with_retry save_attempts
    release_tx-Kept =
        released t r RequestStatus.rejected r.committed_at r.hcm_ack_at t.outbox found was refl refl
          refl (no_rows t r was inv found) inv

    -- A decision for the days or against them, by what a read gave.
    decide_on-Inv :
        (view : Option BalanceView) → Inv (decide_on (memory_of db) config hcm now r view locks t).1
    unfolding decide_on
    decide_on-Inv none = inv
    decide_on-Inv (some v) = elim (Bool-cases (ltb_ℤ (free_days v.balance) (pos r.days))) [
      | inl short ↦ rw short (settle-Kept t _ inv release_tx-Kept).0
      | inr enough ↦ rw enough (settle-Kept t _ inv commit_tx-Kept).0
    ]

  decide-Inv :
      (t : Tables) (r : TimeOffRequest) (locks : List String)
      → Inv t
      → first (request_id_is r.id) t.requests ≡ some r
      → is_pending r.status ≡ true
      → Inv (decide (memory_of db) config hcm now r locks t).1
  unfolding decide
  decide-Inv t r locks inv found was =
      follow (λ t'. Inv t' × SameButBalances t t') Inv (decide_on (memory_of db) config hcm now r)
        locks (get_balance (memory_of db) config hcm.recheck r.employee_id r.location_id locks t)
        (get_balance-Inv db config hcm.recheck r.employee_id r.location_id locks t inv)
        (λ t' p. p.0)
        (λ view t' p.
          decide_on-Inv t' r locks p.0
            (ap (λ (u : Tables). first (request_id_is r.id) u.requests) p.1 ∙ found) was view)

  approve_refreshed-Inv :
      (reply : HcmReply) (t : Tables) (r : TimeOffRequest) (locks : List String)
      → Inv t
      → first (request_id_is r.id) t.requests ≡ some r
      → is_pending r.status ≡ true
      → Inv (approve_refreshed (memory_of db) config hcm now reply r locks t).1
  unfolding approve_refreshed
  approve_refreshed-Inv unavailable t r locks inv found was =
      (settle-Kept t _ inv (commit_tx-Kept t r locks inv found was)).0
  approve_refreshed-Inv broken t r locks inv found was = inv
  approve_refreshed-Inv (snapshot h) t r locks inv found was =
      follow (λ t'. Inv t' × SameButBalances t t') Inv (λ _. decide (memory_of db) config hcm now r)
        locks (apply_hcm_snapshot (memory_of db) h locks t)
        (apply_hcm_snapshot-Inv db h locks t inv) (λ t' p. p.0)
        (λ done t' p.
          decide-Inv t' r locks p.0
            (ap (λ (u : Tables). first (request_id_is r.id) u.requests) p.1 ∙ found) was)

  pub approve_locked-Inv :
      (id : String) (locks : List String) (t : Tables)
      → Inv t
      → Inv (approve_locked (memory_of db) config hcm now id locks t).1
  unfolding approve_locked
  approve_locked-Inv id locks t inv = elim (Option-cases (first (request_id_is id) t.requests)) [
    | inl e ↦ rw e inv
    | inr (r, e) ↦
        let found = found_self id r t.requests e in
        rw e (elim (Bool-cases (is_pending r.status)) [
          | inr settled ↦ rw settled inv
          | inl was ↦ elim (Bool-cases (text_lt r.start_date (civil_date now))) [
            | inl past ↦
                rw (was, past) (settle-Kept t _ inv (release_tx-Kept t r locks inv found was)).0
            | inr coming ↦
                rw (was, coming) (approve_refreshed-Inv hcm.refresh t r locks inv found was)
          ]
        ])
  ]
