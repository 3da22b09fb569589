-- ===== src/Ledger/Sending.antt =====
-- Every move of the service, dispatches included, keeps the rows of the outbox or takes them on.
use wizdaa_takehome.Prelude.{
  ℕ, ◌+◌, String, true, Option, none, some, List, ◌≡◌, refl, inl, inr, first, upsert, eq_of_same,
  first-holds, Bool-cases, Option-cases, ltb, arith,
}
use wizdaa_takehome.Entities.{
  TimeOffRequest, Outbox, OutboxOperation, OutboxStatus, outbox_id_is, request_id_is, is_waiting,
  is_file,
}
use wizdaa_takehome.Config.{AppConfig}
use wizdaa_takehome.Database.{Tables, Database, memory_of, outbox_key_is}
use wizdaa_takehome.Balances.{restore, change_balance, save_with_retry, save_attempts}
use wizdaa_takehome.Requests.{build_outbox_row}
use wizdaa_takehome.Dispatcher.{
  acked_at, call_hcm, set_outbox_status, take_tx, take_row, success_tx, compensate_tx, failure_tx,
  reflect_tx,
}
use wizdaa_takehome.Ledger.Respects.{Respects}
use wizdaa_takehome.Ledger.Reached.{
  Section, reading, submitting, approving, rejecting, cancelling, expiring, dispatching, resolving,
  guarding, recording, reconciling,
}
use wizdaa_takehome.Ledger.Sections.{Asks, perform-Respects}
use wizdaa_takehome.Ledger.Flights.{
  Service, Move, running, taking_off, landing, dropping, move, take_off, land, can_run, is_unlocked,
  dispatch_key,
}
use wizdaa_takehome.Ledger.Carried.{Carried}
use wizdaa_takehome.Ledger.Aloft.{Aloft}
use wizdaa_takehome.Ledger.Halves.{settled}
use wizdaa_takehome.Ledger.Progress.{
  Progresses, progress-Closed, saved-Progress, enqueued-Progress, trans-Progresses,
}

module _ (db : Database) (config : AppConfig) where
  stays_there : (t : Tables) → Progresses t t
  stays_there t id o e = (o, e, inl refl)

  take_tx-Progresses : (id : String) → Respects Progresses (take_tx (memory_of db) id)
  unfolding take_tx take_row
  take_tx-Progresses id locks t = elim (Option-cases (first (outbox_id_is id) t.outbox)) [
    | inl e ↦ rw e (stays_there t)
    | inr (o, e) ↦ elim (Bool-cases (is_waiting o.status)) [
      | inr done ↦ rw (e, done) (stays_there t)
      | inl wait ↦
          let row : first (outbox_id_is o.id) t.outbox ≡ some o =
            rw (eq_of_same id o.id (first-holds (outbox_id_is id) t.outbox o e)) at e in
          elim (Option-cases (first (request_id_is o.aggregate_id) t.requests)) [
            | inl lost ↦
                rw (e, wait, lost)
                  (saved-Progress t o OutboxStatus.failed o.attempts row wait (omega arith))
            | inr (r, found) ↦
                rw (e, wait, found)
                  (saved-Progress t o o.status (o.attempts + 1) row wait (omega arith))
          ]
    ]
  ]

  module _ (t : Tables) (o : Outbox) (r : TimeOffRequest) (locks : List String)
      (k : Carried o r t) where
    over :
        (s : OutboxStatus)
        → Progresses t (record t { outbox = upsert outbox_key_is (set_outbox_status s o) t.outbox })
    over s = saved-Progress t o s o.attempts k.row k.wait (omega arith)

    compensate_tx-Progresses : Progresses t (compensate_tx (memory_of db) o r locks t).1
    unfolding compensate_tx restore change_balance save_with_retry save_attempts build_outbox_row
    compensate_tx-Progresses =
        let rows = upsert outbox_key_is (set_outbox_status OutboxStatus.failed o) t.outbox in
        let row = build_outbox_row (db.new_outbox_id rows) r OutboxOperation.reverse in
        trans-Progresses t (record t { outbox = rows })
          (record t { outbox = upsert outbox_key_is row rows }) (over OutboxStatus.failed)
          (enqueued-Progress (record t { outbox = rows }) row (db.new_outbox_id_lem rows))

    reflect_tx-Progresses :
        (acked : Option ℕ) → Progresses t (reflect_tx (memory_of db) config acked o r locks t).1
    unfolding reflect_tx success_tx failure_tx
    reflect_tx-Progresses (some time) = over OutboxStatus.sent
    reflect_tx-Progresses none = elim (Bool-cases (ltb o.attempts config.hcm_retry_max_attempts)) [
      | inl again ↦ rw again (over o.status)
      | inr cap ↦ elim (Bool-cases (is_file o.operation)) [
        | inl file ↦ rw (cap, file) compensate_tx-Progresses
        | inr reverse ↦ rw (cap, reverse) (over OutboxStatus.failed)
      ]
    ]

  asked :
      (s : Section) (locks : List String) (x : Service)
      → can_run (memory_of db) config s x ≡ true
      → Asks db config Progresses (λ r. Unit {0}) (λ id. Unit {0}) progress-Closed locks x.tables s
  asked (reading reply employee location) locks x free = tt
  asked (submitting hcm now args) locks x free = tt
  asked (approving hcm now id) locks x free = λ r e fresh. (tt, tt)
  asked (rejecting hcm now id) locks x free = λ r e live. (tt, tt)
  asked (cancelling hcm now id) locks x free = λ r e live. (tt, tt)
  asked (expiring id) locks x free = λ r e live. (tt, tt)
  asked (dispatching hcm now id) locks x free = absurd (cc free)
  asked (resolving employee location) locks x free = tt
  asked (guarding corpus) locks x free = tt
  asked (recording corpus) locks x free = tt
  asked (reconciling as_of entry) locks x free = tt

  pub move-Progresses :
      (m : Move) (locks : List String) (x : Service)
      → Aloft x
      → Progresses x.tables (move (memory_of db) config m locks x).tables
  unfolding move take_off land
  move-Progresses (running s) locks x a = elim (Bool-cases (can_run (memory_of db) config s x)) [
    | inl free ↦ rw free (
        perform-Respects db config Progresses (λ r. Unit {0}) (λ id. Unit {0}) progress-Closed s
          locks x.tables (asked s locks x free))
    | inr held ↦ rw held (stays_there x.tables)
  ]
  move-Progresses (taking_off id) locks x a =
      elim (Bool-cases (is_unlocked x.flights (dispatch_key (memory_of db) config id x.tables))) [
        | inl free ↦ rw free (
            settled (Progresses x.tables) x.tables (take_tx (memory_of db) id locks x.tables)
              (stays_there x.tables) (take_tx-Progresses id locks x.tables))
        | inr held ↦ rw held (stays_there x.tables)
      ]
  move-Progresses (landing hcm now key) locks x a = elim (Option-cases (x.flights key)) [
    | inl e ↦ rw e (stays_there x.tables)
    | inr ((o, r), e) ↦
        let acked = acked_at now (call_hcm hcm o) in
        rw e (
          settled (Progresses x.tables) x.tables
            (reflect_tx (memory_of db) config acked o r locks x.tables) (stays_there x.tables)
            (reflect_tx-Progresses x.tables o r locks (a.flown key o r e).1 acked))
  ]
  move-Progresses (dropping key) locks x a = stays_there x.tables
