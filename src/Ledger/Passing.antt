-- ===== src/Ledger/Passing.antt =====
-- The two transactions of a dispatch leave what the other flights have in memory.
use wizdaa_takehome.Prelude.{
  ℕ, String, Bool, true, false, Option, none, some, ◌≡◌, refl, sym, subst, inl, inr, first, same,
  same_refl, eq_of_same, Bool-cases, ltb, if◌then◌else◌,
}
use wizdaa_takehome.Entities.{
  TimeOffRequest, Outbox, OutboxOperation, OutboxStatus, RequestStatus, outbox_id_is, is_file,
}
use wizdaa_takehome.Config.{AppConfig}
use wizdaa_takehome.Database.{Tables, Action, Database, memory_of, ◌>>◌}
use wizdaa_takehome.Balances.{restore}
use wizdaa_takehome.Requests.{set_status, save_request_row, save_new_row}
use wizdaa_takehome.Dispatcher.{
  set_outbox_status, set_acked, save_outbox_row, success_tx, compensate_tx, failure_tx, reflect_tx,
}
use wizdaa_takehome.Ledger.Respects.{Respects}
use wizdaa_takehome.Ledger.Walk.{
  also, choice, restore-Respects, save_request-Respects, save_new-Respects,
}
use wizdaa_takehome.Ledger.Carried.{Carried, StaysCarried, carried-Closed, other_row}

-- Rows of two requests are two rows.
pub rows_apart :
    (t : Tables) (o o' : Outbox) (r : TimeOffRequest) (id : String)
    → Carried o r t
    → first (outbox_id_is id) t.outbox ≡ some o'
    → same r.id o'.aggregate_id ≡ false
    → same o.id id ≡ false
rows_apart t o o' r id k row other = elim (Bool-cases (same o.id id)) [
  | inr apart ↦ apart
  | inl here ↦ absurd (
      let row_eq : first (outbox_id_is o.id) t.outbox ≡ some o' =
        subst (λ k. first (outbox_id_is k) t.outbox ≡ some o') (sym (eq_of_same o.id id here))
          row in
      let own_eq : o.aggregate_id ≡ o'.aggregate_id = cc (k.row, row_eq) in
      let id_eq : same r.id o'.aggregate_id ≡ true = rw (← own_eq, k.own) (same_refl r.id) in
      cc (other, id_eq))
]

module _ (db : Database) (o o' : Outbox) (r r' : TimeOffRequest) (apart : same o.id o'.id ≡ false)
    (other : same r.id r'.id ≡ false) where
  both :
      {A B : Type 0} (m : Action A) (k : Action B)
      → Respects (StaysCarried o r) m
      → Respects (StaysCarried o r) k
      → Respects (StaysCarried o r) (m >> k)
  both =
      also db (StaysCarried o r) (λ r'. same r.id r'.id ≡ false) (λ id. same r.id id ≡ false)
        (carried-Closed o r)

  either :
      {A : Type 0} (b : Bool) (m k : Action A)
      → Respects (StaysCarried o r) m
      → Respects (StaysCarried o r) k
      → Respects (StaysCarried o r) (if b then m else k)
  either =
      choice db (StaysCarried o r) (λ r'. same r.id r'.id ≡ false) (λ id. same r.id id ≡ false)
        (carried-Closed o r)

  row_saved :
      (status : OutboxStatus)
      → Respects (StaysCarried o r) (save_outbox_row (memory_of db) (set_outbox_status status o'))
  row_saved status locks t = other_row o r t (set_outbox_status status o') apart

  request_saved :
      (r'' : TimeOffRequest)
      → r''.id ≡ r'.id
      → Respects (StaysCarried o r) (save_request_row (memory_of db) r'')
  request_saved r'' e =
      save_request-Respects db (StaysCarried o r) (λ r'. same r.id r'.id ≡ false)
        (λ id. same r.id id ≡ false) (carried-Closed o r) r'' (rw e other)

  success_tx-passes :
      (time : ℕ) → Respects (StaysCarried o r) (success_tx (memory_of db) time o' r')
  unfolding success_tx
  success_tx-passes time =
      both (save_outbox_row (memory_of db) (set_outbox_status OutboxStatus.sent o'))
        (save_request_row (memory_of db) (set_acked time o' r')) (row_saved OutboxStatus.sent)
        (request_saved (set_acked time o' r') refl)

  compensate_tx-passes : Respects (StaysCarried o r) (compensate_tx (memory_of db) o' r')
  unfolding compensate_tx
  compensate_tx-passes =
      let enqueue = save_new_row (memory_of db) r' OutboxOperation.reverse in
      let reject_request = save_request_row (memory_of db) (set_status RequestStatus.rejected r') in
      let fail_row = save_outbox_row (memory_of db) (set_outbox_status OutboxStatus.failed o') in
      both (restore (memory_of db) r'.employee_id r'.location_id r'.days)
        (fail_row >> (reject_request >> enqueue))
        (restore-Respects db (StaysCarried o r) (λ r'. same r.id r'.id ≡ false)
          (λ id. same r.id id ≡ false) (carried-Closed o r) r'.employee_id r'.location_id r'.days)
        (both fail_row (reject_request >> enqueue) (row_saved OutboxStatus.failed) (
          both reject_request enqueue (request_saved (set_status RequestStatus.rejected r') refl) (
            save_new-Respects db (StaysCarried o r) (λ r'. same r.id r'.id ≡ false)
              (λ id. same r.id id ≡ false) (carried-Closed o r) r' OutboxOperation.reverse)))

  pub reflect_tx-passes :
      (config : AppConfig) (acked : Option ℕ)
      → Respects (StaysCarried o r) (reflect_tx (memory_of db) config acked o' r')
  unfolding reflect_tx failure_tx
  reflect_tx-passes config (some time) = success_tx-passes time
  reflect_tx-passes config none =
      either (ltb o'.attempts config.hcm_retry_max_attempts) (save_outbox_row (memory_of db) o')
        (if is_file o'.operation
          then compensate_tx (memory_of db) o' r'
          else save_outbox_row (memory_of db) (set_outbox_status OutboxStatus.failed o'))
        (λ locks t. other_row o r t o' apart)
        (either (is_file o'.operation) (compensate_tx (memory_of db) o' r')
          (save_outbox_row (memory_of db) (set_outbox_status OutboxStatus.failed o'))
          compensate_tx-passes (row_saved OutboxStatus.failed))
