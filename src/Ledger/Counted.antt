-- ===== src/Ledger/Counted.antt =====
-- The attempts that a row of the outbox counts.
use wizdaa_takehome.Prelude.{
  ℕ, ◌+◌, ◌≤◌, String, true, Option, none, some, List, [], ◌∷◌, ◌≡◌, ◌==◌, refl, inl, inr, first,
  upsert, upsert_twice, All, All-first, All-upsert, same_refl, ltb, Bool-cases, Option-cases, arith,
  if◌then◌else◌,
}
use wizdaa_takehome.Entities.{
  TimeOffRequest, Outbox, OutboxOperation, OutboxStatus, outbox_id_is, request_id_is, is_waiting,
  is_file,
}
use wizdaa_takehome.Config.{AppConfig}
use wizdaa_takehome.Database.{Tables, Database, memory_of, settle, outbox_key_is, update_where}
use wizdaa_takehome.Balances.{restore, change_balance, save_with_retry, save_attempts}
use wizdaa_takehome.Requests.{void, is_pending_file_of, build_outbox_row}
use wizdaa_takehome.Dispatcher.{
  HcmWrites, acked_at, call_hcm, count_attempt, set_outbox_status, take_row, take_tx, success_tx,
  compensate_tx, failure_tx, reflect_tx, dispatch_locked,
}
use wizdaa_takehome.Ledger.Respects.{Respects}
use wizdaa_takehome.Ledger.Walk.{Closed}

-- The cap on the attempts; a cap of zero does not keep the first from being made.
abbrev pub most_attempts : AppConfig → ℕ
most_attempts config =
    if config.hcm_retry_max_attempts == 0 then 1 else config.hcm_retry_max_attempts

-- The attempts of a row that are made, and one more if it waits.
abbrev pub attempts_due : Outbox → ℕ
attempts_due o = o.attempts + (if is_waiting o.status then 1 else 0)

module _ (config : AppConfig) where
  abbrev IsCapped : Outbox → Type 0
  IsCapped o = attempts_due o ≤ most_attempts config

  abbrev pub AllCapped : Tables → Type 0
  AllCapped t = All IsCapped t.outbox

  abbrev pub StaysCapped : Tables → Tables → Type 0
  StaysCapped t t' = AllCapped t → AllCapped t'

  most-pos : 1 ≤ most_attempts config
  most-pos = elim (Bool-cases (config.hcm_retry_max_attempts == 0)) [
    | inl zero ↦ rw zero (omega arith)
    | inr pos ↦ rw pos (ground arith)
  ]

  void-IsCapped :
      (id : String) (rows : List Outbox)
      → All IsCapped rows
      → All IsCapped (update_where (is_pending_file_of id) void rows)
  void-IsCapped id [] a = tt
  void-IsCapped id (o ∷ rows) a = elim (Bool-cases (is_pending_file_of id o)) [
    | inl hit ↦ rw hit (omega (arith, a.0), void-IsCapped id rows a.1)
    | inr miss ↦ rw miss (a.0, void-IsCapped id rows a.1)
  ]

  fresh-IsCapped : (o : Outbox) → o.attempts ≡ 0 → IsCapped o
  fresh-IsCapped o zero = elim (Bool-cases (is_waiting o.status)) [
    | inl wait ↦ rw wait (omega (arith, zero, most-pos))
    | inr stop ↦ rw stop (omega (arith, zero, most-pos))
  ]

  pub capped-Closed : Closed StaysCapped (λ r. Unit {0}) (λ id. Unit {0})
  capped-Closed = record {
    stay = λ t a. a;
    trans = λ t t' t'' f g a. g (f a);
    balances = λ t rows a. a;
    events = λ t rows a. a;
    batch_logs = λ t rows a. a;
    written = λ t r w a. a;
    created = λ t r fresh a. a;
    retired = λ t id a. a;
    voided = λ t id w a. void-IsCapped id t.outbox a;
    enqueued =
        λ t o fresh zero a. All-upsert IsCapped outbox_key_is o t.outbox (fresh-IsCapped o zero) a;
  }

  module _ (db : Database) (t : Tables) (o : Outbox) (r : TimeOffRequest) (locks : List String)
      (a : AllCapped t) (due : o.attempts + 1 ≤ most_attempts config)
      (wait : is_waiting o.status ≡ true) where
    -- The tables after transaction 1.
    abbrev counted : Tables
    counted = record t { outbox = upsert outbox_key_is (count_attempt o) t.outbox }

    -- The row in another state, over the row that transaction 1 wrote.
    over :
        (s : OutboxStatus)
        → IsCapped (set_outbox_status s (count_attempt o))
        → All IsCapped (upsert outbox_key_is (set_outbox_status s (count_attempt o)) counted.outbox)
    over s h =
        rw
          (upsert_twice outbox_key_is (set_outbox_status s (count_attempt o)) (count_attempt o)
            t.outbox (λ x. refl) (same_refl o.id))
          (All-upsert IsCapped outbox_key_is (set_outbox_status s (count_attempt o)) t.outbox h a)

    compensate_tx-capped :
        AllCapped
          (settle counted (compensate_tx (memory_of db) (count_attempt o) r locks counted)).1
    unfolding compensate_tx restore change_balance save_with_retry save_attempts build_outbox_row
    compensate_tx-capped =
        let rows =
          upsert outbox_key_is (set_outbox_status OutboxStatus.failed (count_attempt o))
            counted.outbox in
        let row = build_outbox_row (db.new_outbox_id rows) r OutboxOperation.reverse in
        All-upsert IsCapped outbox_key_is row rows (fresh-IsCapped row refl)
          (over OutboxStatus.failed (omega (arith, due)))

    again_due :
        ltb (o.attempts + 1) config.hcm_retry_max_attempts ≡ true
        → o.attempts + 1 + 1 ≤ most_attempts config
    again_due again = elim (Bool-cases (config.hcm_retry_max_attempts == 0)) [
      | inl zero ↦ absurd (ground arith)
      | inr pos ↦ rw pos (ground arith)
    ]

    reflect_tx-capped :
        (acked : Option ℕ)
        → AllCapped
            (settle counted
              (reflect_tx (memory_of db) config acked (count_attempt o) r locks counted)).1
    unfolding reflect_tx success_tx failure_tx
    reflect_tx-capped (some time) = over OutboxStatus.sent (omega (arith, due))
    reflect_tx-capped none =
        elim (Bool-cases (ltb (o.attempts + 1) config.hcm_retry_max_attempts)) [
          | inl again ↦ rw again (over o.status (rw wait (again_due again)))
          | inr cap ↦ elim (Bool-cases (is_file o.operation)) [
            | inl file ↦ rw (cap, file) compensate_tx-capped
            | inr reverse ↦ rw (cap, reverse) (over OutboxStatus.failed (omega (arith, due)))
          ]
        ]

  pub dispatch_locked-capped :
      (db : Database) (hcm : HcmWrites) (now : ℕ) (id : String)
      → Respects StaysCapped (dispatch_locked (memory_of db) config hcm now id)
  unfolding dispatch_locked take_tx take_row
  dispatch_locked-capped db hcm now id locks t a =
      elim (Option-cases (first (outbox_id_is id) t.outbox)) [
        | inl e ↦ rw e a
        | inr (o, e) ↦ elim (Bool-cases (is_waiting o.status)) [
          | inr done ↦ rw (e, done) a
          | inl wait ↦
              let capped : IsCapped o = All-first IsCapped (outbox_id_is id) t.outbox o a e in
              let due : o.attempts + 1 ≤ most_attempts config = rw wait at capped in
              elim (Option-cases (first (request_id_is o.aggregate_id) t.requests)) [
                | inl lost ↦
                    rw (e, wait, lost)
                      (All-upsert IsCapped outbox_key_is (set_outbox_status OutboxStatus.failed o)
                        t.outbox (omega (arith, due)) a)
                | inr (r, found) ↦
                    rw (e, wait, found)
                      (reflect_tx-capped db t o r locks a due wait
                        (acked_at now (call_hcm hcm (count_attempt o))))
              ]
        ]
      ]
