-- ===== src/Ledger/Dispatch.antt =====
-- `dispatchOne` under the lock.
use wizdaa_takehome.Prelude.{
  ℕ, ◌+◌, ltb, String, true, false, Option, none, some, List, ◌≡◌, refl, ap, sym, ◌∙◌, inl, inr,
  first, upsert, first-upsert_self, first-holds, eq_of_same, same, Bool-cases, Option-cases,
  same_refl, arith,
}
use wizdaa_takehome.Entities.{
  TimeOffRequest, Outbox, OutboxOperation, OutboxStatus, RequestStatus, request_id_is, outbox_id_is,
  is_file, is_waiting, is_pending_sync,
}
use wizdaa_takehome.Config.{AppConfig}
use wizdaa_takehome.Database.{
  Tables, Database, Outcome, ok, err, deadlock, memory_of, outbox_key_is, settle, pure, on_option,
  then_do,
}
use wizdaa_takehome.Balances.{restore, change_balance, save_with_retry, save_attempts}
use wizdaa_takehome.Requests.{build_outbox_row, is_file_of}
use wizdaa_takehome.Dispatcher.{
  HcmWrites, count_attempt, acked_at, call_hcm, take_row, take_tx, success_tx, compensate_tx,
  failure_tx, reflect_tx, dispatch_locked,
}
use wizdaa_takehome.Ledger.Rows.{restate, and_false, total-first-le}
use wizdaa_takehome.Ledger.Value.{SameValue, committed_days_of}
use wizdaa_takehome.Ledger.Filed.{waiting, sync_of, limit_of}
use wizdaa_takehome.Ledger.Moves.{
  Inv, kept_rows, sync_only, sync_committed, committed_alive, restored,
}
use wizdaa_takehome.Ledger.Sent.{
  resend, resend-Inv, files_synced, sent_rows, restated-Inv, restated-SameValue, reverse_onto,
}
use wizdaa_takehome.Ledger.Reject.{Kept, kept_refl, kept_trans, settle-Kept, found_id}

-- A row of the outbox, and the request that it belongs to, as transaction 1 leaves them.
pub record Taken (t : Tables) (o : Outbox) (r : TimeOffRequest) : Type 0 where
  pub row : first (outbox_id_is o.id) t.outbox ≡ some o
  pub found : first (request_id_is r.id) t.requests ≡ some r
  pub own : o.aggregate_id ≡ r.id
  pub wait : is_waiting o.status ≡ true

synced :
    (t : Tables) (o : Outbox) (r : TimeOffRequest)
    → Inv t
    → Taken t o r
    → is_file o.operation ≡ true
    → is_pending_sync r.status ≡ true
synced t o r inv k file = files_synced t o r inv k.row (rw k.own k.found) file k.wait

-- No REVERSE row counts as a FILE row.
pub reverse_idle : (id : String) (o : Outbox) → is_file o.operation ≡ false → waiting id o ≡ 0
reverse_idle id o op = rw (op, and_false (same id o.aggregate_id))

module _ (db : Database) where
  module _ (t : Tables) (o : Outbox) (r : TimeOffRequest) (locks : List String) (inv : Inv t)
      (k : Taken t o r) where
    -- A REVERSE row in another state.
    idle :
        (s : OutboxStatus)
        → is_file o.operation ≡ false
        → Inv (record t { outbox = upsert outbox_key_is (resend s o.attempts o) t.outbox })
    idle s reverse =
        resend-Inv t o s o.attempts k.row
          (λ id. reverse_idle id (resend s o.attempts o) reverse ∙ sym (reverse_idle id o reverse))
          inv

    pub success_tx-Kept : (time : ℕ) → Kept t (success_tx (memory_of db) time o r locks t)
    unfolding success_tx
    success_tx-Kept time = elim (Bool-cases (is_file o.operation)) [
      | inl file ↦
          let sync = synced t o r inv k file in
          let rs =
            sent_rows t o OutboxStatus.sent o.attempts k.row r k.own file k.wait refl k.found sync
              inv in
          let days_eq : committed_days_of
                (restate RequestStatus.approved r.committed_at (some time) r)
              ≡ committed_days_of r =
            rw (sync_committed r sync) in
          rw file (
            restated-Inv t r RequestStatus.approved r.committed_at (some time)
                (upsert outbox_key_is (resend OutboxStatus.sent o.attempts o) t.outbox) k.found
                (sym (sync_only r.status sync).0) rs rs.own_files
                (λ _. committed_alive r (sync_committed r sync)) inv,
            restated-SameValue t r RequestStatus.approved r.committed_at (some time)
                (upsert outbox_key_is (resend OutboxStatus.sent o.attempts o) t.outbox) k.found
                (sym (sync_only r.status sync).0) days_eq,
          )
      | inr reverse ↦
          let t1 = record t {
            outbox = upsert outbox_key_is (resend OutboxStatus.sent o.attempts o) t.outbox;
          } in
          let inv1 = idle OutboxStatus.sent reverse in
          rw reverse (
            restated-Inv t1 r r.status r.committed_at (some time) t1.outbox k.found refl
                (kept_rows t1 r inv1 k.found) (omega (arith, inv1.single r.id, ap limit_of k.found))
                (λ alive. alive) inv1,
            restated-SameValue t r r.status r.committed_at (some time) t1.outbox k.found refl refl,
          )
    ]

    pub compensate_tx-Kept :
        is_file o.operation ≡ true → Kept t (compensate_tx (memory_of db) o r locks t)
    unfolding compensate_tx restore change_balance save_with_retry save_attempts build_outbox_row
    compensate_tx-Kept file =
        let sync = synced t o r inv k file in
        let rows0 = upsert outbox_key_is (resend OutboxStatus.failed o.attempts o) t.outbox in
        let row = build_outbox_row (db.new_outbox_id rows0) r OutboxOperation.reverse in
        let rs =
          sent_rows t o OutboxStatus.failed o.attempts k.row r k.own file k.wait refl k.found sync
            inv in
        restored t r RequestStatus.rejected r.committed_at r.hcm_ack_at
          (upsert outbox_key_is row rows0) k.found (sync_only r.status sync).0
          (sync_committed r sync) refl refl refl
          (reverse_onto t r rows0 row (db.new_outbox_id_lem rows0) refl rs) inv

    failure_tx-Kept : (config : AppConfig) → Kept t (failure_tx (memory_of db) config o r locks t)
    unfolding failure_tx
    failure_tx-Kept config = elim (Bool-cases (ltb o.attempts config.hcm_retry_max_attempts)) [
      | inl again ↦
          rw again
            (resend-Inv t o o.status o.attempts k.row (λ id. refl) inv, λ employee location. refl)
      | inr cap ↦ elim (Bool-cases (is_file o.operation)) [
        | inl file ↦ rw (cap, file) (compensate_tx-Kept file)
        | inr reverse ↦
            rw (cap, reverse) (idle OutboxStatus.failed reverse, λ employee location. refl)
      ]
    ]

    reflect_tx-Kept :
        (config : AppConfig) (acked : Option ℕ)
        → Kept t (reflect_tx (memory_of db) config acked o r locks t)
    unfolding reflect_tx
    reflect_tx-Kept config (some time) = success_tx-Kept time
    reflect_tx-Kept config none = failure_tx-Kept config

  -- What transaction 1 leaves: the row and the request that transaction 2 is about.
  abbrev pub AfterTake : Tables → Outcome (Option (Outbox × TimeOffRequest)) × Tables → Type 0
  AfterTake t (ok (some (o, r)), t') = Inv t' × SameValue t t' × Taken t' o r
  AfterTake t (ok none, t') = Inv t' × SameValue t t'
  AfterTake t (err e, t') = Inv t' × SameValue t t'
  AfterTake t (deadlock, t') = Inv t' × SameValue t t'

  -- A row whose request is gone files nothing.
  lost_idle :
      (t : Tables) (o : Outbox) (id : String)
      → Inv t
      → first (outbox_id_is o.id) t.outbox ≡ some o
      → first (request_id_is o.aggregate_id) t.requests ≡ none
      → waiting id o ≡ 0
  lost_idle t o id inv row lost = elim (Bool-cases (same id o.aggregate_id)) [
    | inl here ↦ rw (eq_of_same id o.aggregate_id here) (
        omega (
          arith,
          inv.filed o.aggregate_id ∙ ap sync_of lost,
          total-first-le (waiting o.aggregate_id) (outbox_id_is o.id) t.outbox o row,
        ))
    | inr other ↦ rw other
  ]

  module _ (t : Tables) (o : Outbox) (locks : List String) (inv : Inv t)
      (row : first (outbox_id_is o.id) t.outbox ≡ some o) (wait : is_waiting o.status ≡ true) where
    take_row-After : AfterTake t (take_row (memory_of db) o locks t)
    unfolding take_row
    take_row-After = elim (Option-cases (first (request_id_is o.aggregate_id) t.requests)) [
      | inl e ↦ rw e (
        resend-Inv t o OutboxStatus.failed o.attempts row
            (λ id. rw (and_false (is_file_of id o)) (sym (lost_idle t o id inv row e))) inv,
        λ employee location. refl,
      )
      | inr (r, e) ↦ rw e (
        resend-Inv t o o.status (o.attempts + 1) row (λ id. refl) inv,
        λ employee location. refl,
        record {
          row = first-upsert_self outbox_key_is (count_attempt o) t.outbox (same_refl o.id);
          found = rw (found_id o.aggregate_id r t e) at e;
          own = found_id o.aggregate_id r t e;
          wait = wait;
        },
      )
    ]

  pub take_tx-After :
      (id : String) (t : Tables) (locks : List String)
      → Inv t
      → AfterTake t (take_tx (memory_of db) id locks t)
  unfolding take_tx
  take_tx-After id t locks inv = elim (Option-cases (first (outbox_id_is id) t.outbox)) [
    | inl e ↦ rw e (kept_refl t inv)
    | inr (o, e) ↦ elim (Bool-cases (is_waiting o.status)) [
      | inl wait ↦
          let id_eq : id ≡ o.id = eq_of_same id o.id (first-holds (outbox_id_is id) t.outbox o e) in
          rw (e, wait) (take_row-After t o locks inv (rw id_eq at e) wait)
      | inr done ↦ rw (e, done) (kept_refl t inv)
    ]
  ]

  module _ (config : AppConfig) (hcm : HcmWrites) (now : ℕ) where
    -- Transaction 2, on what transaction 1 gave.
    reflected :
        (t : Tables) (locks : List String)
        (out : Outcome (Option (Outbox × TimeOffRequest)) × Tables)
        → Inv t
        → AfterTake t out
        → Kept t (
            then_do
              (λ taken. on_option taken (pure tt) λ (o, r).
                (memory_of db).transaction
                  (Unit {0})
                  (reflect_tx (memory_of db) config (acked_at now (call_hcm hcm o)) o r))
              locks
              (settle t out))
    reflected t locks (ok none, t') inv after = after
    reflected t locks (ok (some (o, r)), t') inv (inv', same_value, k) =
        kept_trans t t'
          (settle t'
            (reflect_tx (memory_of db) config (acked_at now (call_hcm hcm o)) o r locks t')).1
          same_value
          (settle-Kept t' _ inv'
            (reflect_tx-Kept t' o r locks inv' k config (acked_at now (call_hcm hcm o))))
    reflected t locks (err e, t') inv after = kept_refl t inv
    reflected t locks (deadlock, t') inv after = kept_refl t inv

    pub dispatch_locked-Kept :
        (id : String) (locks : List String) (t : Tables)
        → Inv t
        → Kept t (dispatch_locked (memory_of db) config hcm now id locks t)
    unfolding dispatch_locked
    dispatch_locked-Kept id locks t inv =
        reflected t locks (take_tx (memory_of db) id locks t) inv (take_tx-After id t locks inv)
