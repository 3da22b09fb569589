-- ===== src/Ledger/Cancel.antt =====
-- `cancel` under the lock.
use wizdaa_takehome.Prelude.{
  ℕ, ◌+◌, String, true, false, some, List, ◌≡◌, refl, ap, ◌∙◌, subst, ◌||◌, inl, inr, first, upsert,
  total, Bool-cases, Option-cases, same_refl, arith,
}
use wizdaa_takehome.Entities.{
  TimeOffRequest, Outbox, OutboxOperation, RequestStatus, request_id_is, is_pending,
  is_pending_sync, is_approved, is_cancelled, is_sent, is_waiting, OutboxStatus,
}
use wizdaa_takehome.Config.{AppConfig}
use wizdaa_takehome.Database.{Tables, ok, Database, memory_of, outbox_key_is, balance_key_is}
use wizdaa_takehome.Balances.{
  release, restore, change_balance, save_with_retry, save_attempts, give_days,
}
use wizdaa_takehome.Requests.{
  HcmReplies, build_outbox_row, is_file_of, is_pending_file_of, file_sent, cancel_tx, cancel_synced,
  cancel_locked, void_pending_file_rows,
}
use wizdaa_takehome.Ledger.Rows.{found_self, balance_of, and_false}
use wizdaa_takehome.Ledger.Filed.{voided_rows, waiting, waiting-none, file_row, sync_of}
use wizdaa_takehome.Ledger.Moves.{
  Inv, RowsFor, approved_only, sync_only, sync_committed, approved_committed, void_rows, added_rows,
  files-le, released, restored,
}
use wizdaa_takehome.Ledger.Reject.{Kept, kept_refl, found_id, settle-Kept}

-- Only a request in one of three states is cancelled.
cancellable :
    (r : TimeOffRequest)
    → is_cancelled r.status ≡ true
    → (is_pending r.status ≡ false)
      × (is_pending_sync r.status ≡ false)
      × (is_approved r.status ≡ false)
cancellable r h = ground arith

sent_or_waiting : (s : OutboxStatus) → is_sent s ≡ true → ¬ (is_waiting s ≡ true)
sent_or_waiting s h w = ground arith

sent_waits : (id : String) (o : Outbox) → is_sent o.status ≡ true → is_pending_file_of id o ≡ false
sent_waits id o h = elim (Bool-cases (is_waiting o.status)) [
  | inl w ↦ absurd (sent_or_waiting o.status h w)
  | inr w ↦ rw w (and_false _)
]

-- A request that waits for HCM has a FILE row that waits, so no row of it was sent.
pub not_sent :
    (t : Tables) (r : TimeOffRequest)
    → is_pending_sync r.status ≡ true
    → Inv t
    → first (request_id_is r.id) t.requests ≡ some r
    → file_sent (first (is_file_of r.id) t.outbox) ≡ false
not_sent t r was inv found = elim (Option-cases (first (is_file_of r.id) t.outbox)) [
  | inl e ↦ rw e
  | inr (o, e) ↦ elim (Bool-cases (is_sent o.status)) [
    | inl q ↦
        let sync : sync_of (some r) ≡ 1 = rw was in
        absurd (
          omega (
            arith,
            sync,
            inv.filed r.id ∙ ap sync_of found,
            waiting-none r.id t.outbox o e (sent_waits r.id o q) (files-le t r inv),
          ))
    | inr q ↦ rw (e, q)
  ]
]

module _ (db : Database) (config : AppConfig) (hcm : HcmReplies) (now : ℕ) where
  reverse_row : Tables → TimeOffRequest → Outbox
  reverse_row t r = build_outbox_row (db.new_outbox_id t.outbox) r OutboxOperation.reverse

  -- A REVERSE row leaves the FILE rows as they are.
  reverse_rows :
      (t : Tables) (r : TimeOffRequest)
      → total (waiting r.id) t.outbox ≡ 0
      → Inv t
      → RowsFor t r (upsert outbox_key_is (reverse_row t r) t.outbox) 0
  unfolding reverse_row build_outbox_row
  reverse_rows t r idle inv =
      let w : waiting r.id (reverse_row t r) ≡ 0 = rw (same_refl r.id) in
      let f : file_row r.id (reverse_row t r) ≡ 0 = rw (same_refl r.id) in
      let rows =
        added_rows t r inv (reverse_row t r) refl (db.new_outbox_id_lem t.outbox)
          (omega (arith, f, files-le t r inv)) in
      let sum : total (waiting r.id) t.outbox + waiting r.id (reverse_row t r) ≡ 0 =
        omega (arith, idle, w) in
      subst (RowsFor t r (upsert outbox_key_is (reverse_row t r) t.outbox)) sum rows

  idle_of :
      (t : Tables) (r : TimeOffRequest)
      → is_pending_sync r.status ≡ false
      → Inv t
      → first (request_id_is r.id) t.requests ≡ some r
      → total (waiting r.id) t.outbox ≡ 0
  idle_of t r was inv found =
      let none_waits : sync_of (some r) ≡ 0 = rw was in
      omega (arith, none_waits, inv.filed r.id ∙ ap sync_of found)

  module _ (t : Tables) (r : TimeOffRequest) (held : List String) (inv : Inv t)
      (found : first (request_id_is r.id) t.requests ≡ some r) where
    cancel_tx-Kept_pending :
        is_pending r.status ≡ true → Kept t (cancel_tx (memory_of db) config hcm now r.id r held t)
    unfolding cancel_tx release change_balance save_with_retry save_attempts void_pending_file_rows
    cancel_tx-Kept_pending p = rw p (
        released t r RequestStatus.cancelled r.committed_at r.hcm_ack_at (voided_rows r.id t.outbox)
          found p refl refl refl (void_rows t r inv) inv)

    -- The rows of the request are voided, and its days come back.
    cancel_synced-eq :
        is_pending_sync r.status ≡ true
        → cancel_synced (memory_of db) config hcm now r.id r held t ≡ (
          ok tt,
          record t {
            outbox = voided_rows r.id t.outbox;
            balances =
                upsert balance_key_is
                  (give_days r.days (balance_of r.employee_id r.location_id t))
                  t.balances;
          },
        )
    unfolding cancel_synced restore change_balance save_with_retry save_attempts
        void_pending_file_rows
    cancel_synced-eq q = rw (not_sent t r q inv found)

    cancel_tx-Kept_synced :
        is_pending_sync r.status ≡ true
        → Kept t (cancel_tx (memory_of db) config hcm now r.id r held t)
    unfolding cancel_tx
    cancel_tx-Kept_synced q =
        let p = (sync_only r.status q).0 in
        rw (p, q, cancel_synced-eq q)
          (restored t r RequestStatus.cancelled r.committed_at r.hcm_ack_at
            (voided_rows r.id t.outbox) found p (sync_committed r q) refl refl refl
            (void_rows t r inv) inv)

    cancel_tx-Kept_approved :
        is_approved r.status ≡ true → Kept t (cancel_tx (memory_of db) config hcm now r.id r held t)
    unfolding cancel_tx restore change_balance save_with_retry save_attempts reverse_row
    cancel_tx-Kept_approved a =
        let other = approved_only r.status a in
        rw (other.0, other.1)
          (restored t r RequestStatus.cancelled r.committed_at r.hcm_ack_at
            (upsert outbox_key_is (reverse_row t r) t.outbox) found other.0 (approved_committed r a)
            refl refl refl (reverse_rows t r (idle_of t r other.1 inv found) inv) inv)

  cancel_tx-Kept :
      (t : Tables) (r : TimeOffRequest) (held : List String)
      → Inv t
      → first (request_id_is r.id) t.requests ≡ some r
      → (is_pending r.status || is_pending_sync r.status || is_approved r.status) ≡ true
      → Kept t (cancel_tx (memory_of db) config hcm now r.id r held t)
  cancel_tx-Kept t r held inv found h = elim (Bool-cases (is_pending r.status)) [
    | inl p ↦ cancel_tx-Kept_pending t r held inv found p
    | inr p ↦ elim (Bool-cases (is_pending_sync r.status)) [
      | inl q ↦ cancel_tx-Kept_synced t r held inv found q
      | inr q ↦ cancel_tx-Kept_approved t r held inv found (ground arith)
    ]
  ]

  pub cancel_locked-Kept :
      (id : String) (held : List String) (t : Tables)
      → Inv t
      → Kept t (cancel_locked (memory_of db) config hcm now id held t)
  unfolding cancel_locked
  cancel_locked-Kept id held t inv = elim (Option-cases (first (request_id_is id) t.requests)) [
    | inl e ↦ rw e (kept_refl t inv)
    | inr (r, e) ↦
        let found = found_self id r t.requests e in
        rw (e, found_id id r t e)
          (elim (Bool-cases (is_cancelled r.status)) [
            | inl done ↦ rw done (kept_refl t inv)
            | inr active ↦
                elim (Bool-cases
                  (is_pending r.status || is_pending_sync r.status || is_approved r.status)) [
                    | inl h ↦
                        rw (active, h)
                          (settle-Kept t (cancel_tx (memory_of db) config hcm now r.id r held t) inv
                            (cancel_tx-Kept t r held inv found h))
                    | inr h ↦ rw (active, h) (kept_refl t inv)
                  ]
          ])
  ]
