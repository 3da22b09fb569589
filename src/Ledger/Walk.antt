-- ===== src/Ledger/Walk.antt =====
-- Relations between tables that every write of the services keeps, and the parts that the methods
-- are made of.
use wizdaa_takehome.Prelude.{
  ℕ, String, Bool, true, false, Option, none, some, List, ◌≡◌, refl, inl, inr, first, upsert,
  Option-cases, if◌then◌else◌,
}
use wizdaa_takehome.Prelude.Int.{pos, ltb_ℤ}
use wizdaa_takehome.Entities.{
  Balance, TimeOffRequest, Outbox, OutboxOperation, ReconciliationEvent, BatchSyncLog, HcmBalance,
  request_id_is, outbox_id_is, balance_at, is_terminal,
}
use wizdaa_takehome.Config.{AppConfig}
use wizdaa_takehome.Database.{
  Tables, Action, Exception, not_found, conflict, Database, memory_of, request_key_is,
  outbox_key_is, update_where, pure, modify, gets, throw_if, or_throw, ◌>>=◌, ◌>>◌,
}
use wizdaa_takehome.Balances.{
  HcmReply, snapshot, unavailable, broken, change_balance, reserve, release, commit, restore,
  apply_hcm_snapshot, save_with_retry, save_attempts, hydrate_cold, hydrate, zero_on_miss,
  get_balance, warm_row, balance_key, run_exclusive, check_view, validate_availability,
  add_reserved, free_days, BalanceView,
}
use wizdaa_takehome.Requests.{
  is_pending_file_of, void, retire_key, retire, save_request_row, save_new_row, build_outbox_row,
  void_pending_file_rows,
}
use wizdaa_takehome.Ledger.Rows.{balance_of}
use wizdaa_takehome.Ledger.Respects.{Respects, bind-Respects, exclusive-Respects}

-- What the services write: `Writes r` allows them to save the request over a row of its id, and
-- `Voids id` to void the FILE rows of the request `id`.
pub record Closed (R : Tables → Tables → Type 0) (Writes : TimeOffRequest → Type 0)
    (Voids : String → Type 0) : Type 0 where
  pub stay : (t : Tables) → R t t
  pub trans : (t t' t'' : Tables) → R t t' → R t' t'' → R t t''
  pub balances : (t : Tables) (rows : List Balance) → R t (record t { balances = rows })
  pub events : (t : Tables) (rows : List ReconciliationEvent) → R t (record t { events = rows })
  pub batch_logs : (t : Tables) (rows : List BatchSyncLog) → R t (record t { batch_logs = rows })
  pub written :
      (t : Tables) (r : TimeOffRequest)
      → Writes r
      → R t (record t { requests = upsert request_key_is r t.requests })
  pub created :
      (t : Tables) (r : TimeOffRequest)
      → first (request_id_is r.id) t.requests ≡ none
      → R t (record t { requests = upsert request_key_is r t.requests })
  pub retired :
      (t : Tables) (id : String)
      → R t (record t { requests = update_where (request_id_is id) retire_key t.requests })
  pub voided :
      (t : Tables) (id : String)
      → Voids id
      → R t (record t { outbox = update_where (is_pending_file_of id) void t.outbox })
  pub enqueued :
      (t : Tables) (o : Outbox)
      → first (outbox_id_is o.id) t.outbox ≡ none
      → o.attempts ≡ 0
      → R t (record t { outbox = upsert outbox_key_is o t.outbox })

module _ (db : Database) (R : Tables → Tables → Type 0) (Writes : TimeOffRequest → Type 0)
    (Voids : String → Type 0) (c : Closed R Writes Voids) where
  pub also :
      {A B : Type 0} (m : Action A) (k : Action B)
      → Respects R m
      → Respects R k
      → Respects R (m >> k)
  also m k h h' = bind-Respects R c.stay c.trans m (λ _. k) h (λ _. h')

  pub chained :
      {A B : Type 0} (m : Action A) (f : A → Action B)
      → Respects R m
      → ((a : A) → Respects R (f a))
      → Respects R (m >>= f)
  chained m f h k = bind-Respects R c.stay c.trans m f h k

  pub choice :
      {A : Type 0} (b : Bool) (m k : Action A)
      → Respects R m
      → Respects R k
      → Respects R (if b then m else k)
  choice true m k h h' = h
  choice false m k h h' = h'

  pub checked :
      {A : Type 0} (b : Bool) (e : Exception) (k : Action A)
      → (b ≡ false → Respects R k)
      → Respects R (throw_if b e >> k)
  checked true e k h locks t = c.stay t
  checked false e k h locks t = h refl locks t

  -- A request that is looked up by its id.
  pub sought :
      {B : Type 0} (id : String) (f : TimeOffRequest → Action B) (locks : List String) (t : Tables)
      → ((r : TimeOffRequest) → first (request_id_is id) t.requests ≡ some r → R t (f r locks t).1)
      → R t ((or_throw (first (request_id_is id) t.requests) not_found >>= f) locks t).1
  sought id f locks t h = elim (Option-cases (first (request_id_is id) t.requests)) [
    | inl e ↦ rw e (c.stay t)
    | inr (r, e) ↦ rw e (h r e)
  ]

  pub change-Respects :
      (employee location : String) (mutate : Balance → Balance)
      → Respects R (change_balance (memory_of db) employee location mutate)
  unfolding change_balance save_with_retry save_attempts
  change-Respects employee location mutate locks t = c.balances t _

  pub release-Respects :
      (employee location : String) (days : ℕ)
      → Respects R (release (memory_of db) employee location days)
  unfolding release
  release-Respects employee location days = change-Respects employee location _

  pub commit-Respects :
      (employee location : String) (days : ℕ)
      → Respects R (commit (memory_of db) employee location days)
  unfolding commit
  commit-Respects employee location days = change-Respects employee location _

  pub restore-Respects :
      (employee location : String) (days : ℕ)
      → Respects R (restore (memory_of db) employee location days)
  unfolding restore
  restore-Respects employee location days = change-Respects employee location _

  pub reserve-Respects :
      (employee location : String) (days : ℕ)
      → Respects R (reserve (memory_of db) employee location days)
  unfolding reserve save_with_retry save_attempts
  reserve-Respects employee location days locks t =
      checked (ltb_ℤ (free_days (balance_of employee location t)) (pos days)) conflict
        (save_with_retry (memory_of db) (balance_of employee location t) (add_reserved days))
        (λ short locks' t'. c.balances t' _) locks t

  pub snapshot-Respects : (h : HcmBalance) → Respects R (apply_hcm_snapshot (memory_of db) h)
  unfolding apply_hcm_snapshot
  snapshot-Respects h = change-Respects h.employee_id h.location_id _

  pub save_request-Respects :
      (r : TimeOffRequest) → Writes r → Respects R (save_request_row (memory_of db) r)
  save_request-Respects r w locks t = c.written t r w

  pub save_new-Respects :
      (r : TimeOffRequest) (op : OutboxOperation) → Respects R (save_new_row (memory_of db) r op)
  unfolding build_outbox_row
  save_new-Respects r op locks t =
      c.enqueued t (build_outbox_row (db.new_outbox_id t.outbox) r op)
        (db.new_outbox_id_lem t.outbox) refl

  pub void-Respects :
      (id : String) → Voids id → Respects R (void_pending_file_rows (memory_of db) id)
  unfolding void_pending_file_rows
  void-Respects id w locks t = c.voided t id w

  pub retire-Respects : (old : Option TimeOffRequest) → Respects R (retire (memory_of db) old)
  retire-Respects none = λ locks t. c.stay t
  retire-Respects (some r) =
      choice (is_terminal r.status)
        (modify
          λ t. record t { requests = update_where (request_id_is r.id) retire_key t.requests })
        (pure tt) (λ locks t. c.retired t r.id) (λ locks t. c.stay t)

  module _ (config : AppConfig) where
    cold-Respects :
        (reply : HcmReply) (employee location : String)
        → Respects R (hydrate_cold (memory_of db) reply employee location)
    unfolding hydrate_cold
    cold-Respects (snapshot h) employee location =
        also (apply_hcm_snapshot (memory_of db) h) (gets _) (snapshot-Respects h)
          (λ locks t. c.stay t)
    cold-Respects unavailable employee location = λ locks t. c.stay t
    cold-Respects broken employee location = λ locks t. c.stay t

    hydrate-Respects :
        (reply : HcmReply) (employee location : String)
        → Respects R (hydrate (memory_of db) reply employee location)
    unfolding hydrate
    hydrate-Respects reply employee location locks t =
        elim (Option-cases (warm_row (first (balance_at employee location) t.balances))) [
          | inr (b, e) ↦ rw e (c.stay t)
          | inl e ↦ rw e (cold-Respects reply employee location locks t)
        ]

    zero-Respects :
        (employee location : String) (row : Option Balance)
        → Respects R (zero_on_miss (memory_of db) employee location row)
    unfolding zero_on_miss
    zero-Respects employee location (some b) locks t = c.stay t
    zero-Respects employee location none locks t = c.balances t _

    pub get_balance-Respects :
        (reply : HcmReply) (employee location : String)
        → Respects R (get_balance (memory_of db) config reply employee location)
    unfolding get_balance
    get_balance-Respects reply employee location locks t =
        let row = first (balance_at employee location) t.balances in
        elim (Option-cases (warm_row row)) [
          | inr (b, e) ↦ rw e (c.stay t)
          | inl e ↦ rw e (
              choice config.balance_lazy_load_enabled
                (run_exclusive (balance_key employee location)
                  (hydrate (memory_of db) reply employee location))
                (zero_on_miss (memory_of db) employee location row)
                (exclusive-Respects R c.stay c.trans (balance_key employee location)
                  (hydrate (memory_of db) reply employee location)
                  (hydrate-Respects reply employee location))
                (zero-Respects employee location row) locks t)
        ]

    view-Respects : (days : ℕ) (view : Option BalanceView) → Respects R (check_view days view)
    view-Respects days none locks t = c.stay t
    view-Respects days (some v) locks t = c.stay t

    pub validate-Respects :
        (reply : HcmReply) (employee location : String) (days : ℕ)
        → Respects R (validate_availability (memory_of db) config reply employee location days)
    unfolding validate_availability
    validate-Respects reply employee location days =
        chained (get_balance (memory_of db) config reply employee location) (check_view days)
          (get_balance-Respects reply employee location) (view-Respects days)
