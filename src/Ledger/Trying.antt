-- ===== src/Ledger/Trying.antt =====
-- Every move of the service, on the attempts that the rows of the outbox count.
use mathlib.Core.Option
use wizdaa_takehome.Prelude.{
  ℕ, ◌+◌, ◌≤◌, String, true, false, Option, none, some, List, ◌≡◌, refl, ap, sym, ◌∙◌, subst, inl,
  inr, first, upsert, same, same_refl, eq_of_same, first-holds, ltb, Bool-cases, Option-cases,
  arith, ◌==◌,
}
use wizdaa_takehome.Entities.{
  TimeOffRequest, Outbox, OutboxOperation, OutboxStatus, outbox_id_is, request_id_is, is_waiting,
  is_file,
}
use wizdaa_takehome.Config.{AppConfig}
use wizdaa_takehome.Database.{Database, Engine, memory_of, settle, outbox_key_is}
use wizdaa_takehome.Balances.{restore, change_balance, save_with_retry, save_attempts}
use wizdaa_takehome.Requests.{build_outbox_row}
use wizdaa_takehome.Dispatcher.{
  acked_at, call_hcm, count_attempt, set_outbox_status, take_row, take_tx, success_tx,
  compensate_tx, failure_tx, reflect_tx,
}
use wizdaa_takehome.Ledger.Reached.{
  Section, reading, submitting, approving, rejecting, cancelling, expiring, dispatching, resolving,
  guarding, recording, reconciling, no_rows_yet,
}
use wizdaa_takehome.Ledger.Sections.{Asks, perform-Respects}
use wizdaa_takehome.Ledger.Flights.{
  Flights, Service, Move, running, taking_off, landing, dropping, move, take_off, land, can_run,
  is_unlocked, is_vacant, dispatch_key, key_of, with_flight, without_flight, Interleaved,
}
use wizdaa_takehome.Ledger.Carried.{Carried}
use wizdaa_takehome.Ledger.Aloft.{Aloft}
use wizdaa_takehome.Ledger.Halves.{run-Aloft}
use wizdaa_takehome.Ledger.Counted.{most_attempts}
use wizdaa_takehome.Ledger.Tries.{
  Each, upsert-Each, IsDue, AllDue, StaysDue, counted-le, stopped-IsDue, fresh-IsDue, due-Closed,
}

-- The dispatches that have ended between their two transactions.
abbrev pub ended_after : Move → ℕ → ℕ
ended_after (running s) n = n
ended_after (taking_off id) n = n
ended_after (landing hcm now key) n = n
ended_after (dropping key) n = n + 1

-- The states that the service can come to, with the number of the dispatches that ended so.
pub data Counting (e : Engine) (config : AppConfig) : ℕ → Service → Type 0 where
  start : Counting e config 0 (record { tables = no_rows_yet; flights = λ key. none })
  next :
      (m : Move) (locks : List String) (n : ℕ) (x : Service)
      → Counting e config n x
      → Counting e config (ended_after m n) (move e config m locks x)

pub Counting-Interleaved :
    (e : Engine) (config : AppConfig) (n : ℕ) (x : Service)
    → Counting e config n x
    → Interleaved e config x
Counting-Interleaved e config n x start = Interleaved.start
Counting-Interleaved e config n x (next m locks k y run) =
    Interleaved.next m locks y (Counting-Interleaved e config k y run)

abbrev flown_or : Outbox → Option (Outbox × TimeOffRequest) → Outbox
flown_or o none = o
flown_or o (some f) = f.0

module _ (db : Database) (config : AppConfig) (n : ℕ) where
  asked :
      (s : Section) (locks : List String) (x : Service)
      → can_run (memory_of db) config s x ≡ true
      → Asks db config
          (StaysDue config n x.flights)
          (λ r. Unit {0})
          (λ id. Unit {0})
          (due-Closed config n x.flights)
          locks
          x.tables
          s
  asked (reading reply employee location) locks x free = tt
  asked (submitting hcm now args) locks x free = tt
  asked (approving hcm now id) locks x free = λ r e fresh. (tt, tt)
  asked (rejecting hcm now id) locks x free = λ r e live. (tt, tt)
  asked (cancelling hcm now id) locks x free = λ r e live. (tt, tt)
  asked (expiring id) locks x free = λ r e live. (tt, tt)
  asked (dispatching hcm now id) locks x free = absurd (cc free)
  asked (resolving employee location) locks x free = tt
  asked (guarding corpus) locks x free = tt
  asked (recording corpus) locks x free = tt
  asked (reconciling as_of entry) locks x free = tt

  -- A flight more leaves the other flights, where its lock was free.
  joined-IsDue :
      (f : Flights) (o o' : Outbox) (r : TimeOffRequest)
      → is_vacant (f (key_of r)) ≡ true
      → IsDue config n f o'
      → IsDue config n (with_flight (o, r) f) o'
  joined-IsDue f o o' r free (inl h) = inl h
  joined-IsDue f o o' r free (inr ((key, r', e), h)) = elim (Bool-cases (same (key_of r) key)) [
    | inl here ↦ absurd (cc (rw (eq_of_same (key_of r) key here, e) at free))
    | inr other ↦ inr ((key, r', rw other e), h)
  ]

  -- A flight that ends leaves the flights of other rows.
  parted-IsDue :
      (f : Flights) (key : String) (o o' : Outbox) (r : TimeOffRequest) (id : String)
      (rows : List Outbox)
      → f key ≡ some (o, r)
      → same id o.id ≡ false
      → first (outbox_id_is id) rows ≡ some o'
      → IsDue config n f o'
      → IsDue config n (without_flight key f) o'
  parted-IsDue f key o o' r id rows flown apart found (inl h) = inl h
  parted-IsDue f key o o' r id rows flown apart found (inr ((key', r', e), h)) =
      elim (Bool-cases (same key key')) [
        | inr other ↦ inr ((key', r', rw other e), h)
        | inl here ↦
            let twice : some (o, r) ≡ some (o', r') =
              sym flown ∙ rw (← eq_of_same key key' here) at e in
            let one : o ≡ o' = ap (flown_or o) twice in
            let same_id : same id o.id ≡ true =
              subst (λ y. same id y.id ≡ true) (sym one)
                (first-holds (outbox_id_is id) rows o' found) in
            absurd (cc (sym apart ∙ same_id))
      ]

  -- A row that is in no flight, when its lock is free.
  grounded-due :
      (x : Service) (o : Outbox) (r : TimeOffRequest)
      → Aloft x
      → is_vacant (x.flights (key_of r)) ≡ true
      → first (request_id_is o.aggregate_id) x.tables.requests ≡ some r
      → is_waiting o.status ≡ true
      → IsDue config n x.flights o
      → o.attempts + 1 ≤ most_attempts config + n
  grounded-due x o r a free found wait (inl h) = rw wait at h
  grounded-due x o r a free found wait (inr ((key, r', e), h)) =
      let (own, k) = a.flown key o r' e in
      let found_eq : some r ≡ some (record r' { idempotency_key = k.key }) =
        sym (rw k.own at found) ∙ k.found in
      let keys : some (key_of r) ≡ some (key_of r') = ap (Option.map key_of) found_eq in
      let here : key_of r ≡ key = cc (keys, own) in absurd (cc (rw (here, e) at free))

  take_off-AllDue :
      (id : String) (locks : List String) (x : Service)
      → Aloft x
      → is_unlocked x.flights (dispatch_key (memory_of db) config id x.tables) ≡ true
      → AllDue config n x.flights x.tables
      → AllDue config n
          (take_off (memory_of db) config id locks x).flights
          (take_off (memory_of db) config id locks x).tables
  unfolding take_off take_tx take_row
  take_off-AllDue id locks x a free all =
      elim (Option-cases (first (outbox_id_is id) x.tables.outbox)) [
        | inl e ↦ rw e all
        | inr (o, e) ↦ elim (Bool-cases (is_waiting o.status)) [
          | inr done ↦ rw (e, done) all
          | inl wait ↦
              elim (Option-cases (first (request_id_is o.aggregate_id) x.tables.requests)) [
                | inl lost ↦
                    rw (e, wait, lost)
                      (upsert-Each (IsDue config n x.flights)
                        (set_outbox_status OutboxStatus.failed o) x.tables.outbox
                        (stopped-IsDue config n x.flights (set_outbox_status OutboxStatus.failed o)
                          refl (counted-le config n x.flights o (all id o e)))
                        (λ id' x' other e'. all id' x' e'))
                | inr (r, found) ↦
                    let vacant : is_vacant (x.flights (key_of r)) ≡ true = rw (e, found) at free in
                    let due = grounded-due x o r a vacant found wait (all id o e) in
                    rw (e, wait, found)
                      (upsert-Each (IsDue config n (with_flight (count_attempt o, r) x.flights))
                        (count_attempt o) x.tables.outbox
                        (inr ((key_of r, r, rw (same_refl (key_of r)) refl), due))
                        (λ id' x' other e'.
                          joined-IsDue x.flights (count_attempt o) x' r vacant (all id' x' e')))
              ]
        ]
      ]

  module _ (x : Service) (key : String) (o : Outbox) (r : TimeOffRequest) (locks : List String)
      (flown : x.flights key ≡ some (o, r)) (k : Carried o r x.tables)
      (all : AllDue config n x.flights x.tables) where
    abbrev left : Flights
    left = without_flight key x.flights

    counted : o.attempts ≤ most_attempts config + n
    counted = counted-le config n x.flights o (all o.id o k.row)

    -- The row in another state.
    over :
        (s : OutboxStatus)
        → IsDue config n left (set_outbox_status s o)
        → Each (IsDue config n left) (upsert outbox_key_is (set_outbox_status s o) x.tables.outbox)
    over s own =
        upsert-Each (IsDue config n left) (set_outbox_status s o) x.tables.outbox own
          (λ id o' other e.
            parted-IsDue x.flights key o o' r id x.tables.outbox flown other e (all id o' e))

    stopped :
        (s : OutboxStatus)
        → is_waiting s ≡ false
        → Each (IsDue config n left) (upsert outbox_key_is (set_outbox_status s o) x.tables.outbox)
    stopped s stop = over s (stopped-IsDue config n left (set_outbox_status s o) stop counted)

    compensate_tx-AllDue :
        AllDue config n left (settle x.tables (compensate_tx (memory_of db) o r locks x.tables)).1
    unfolding compensate_tx restore change_balance save_with_retry save_attempts build_outbox_row
    compensate_tx-AllDue =
        let rows = upsert outbox_key_is (set_outbox_status OutboxStatus.failed o) x.tables.outbox in
        let row = build_outbox_row (db.new_outbox_id rows) r OutboxOperation.reverse in
        upsert-Each (IsDue config n left) row rows (fresh-IsDue config n left row refl)
          (λ id o' other e. stopped OutboxStatus.failed refl id o' e)

    again_due :
        ltb o.attempts config.hcm_retry_max_attempts ≡ true
        → o.attempts + 1 ≤ most_attempts config + n
    again_due again = elim (Bool-cases (config.hcm_retry_max_attempts == 0)) [
      | inl zero ↦ absurd (ground arith)
      | inr pos ↦ rw pos (ground arith)
    ]

    reflect_tx-AllDue :
        (acked : Option ℕ)
        → AllDue config n left
            (settle x.tables (reflect_tx (memory_of db) config acked o r locks x.tables)).1
    unfolding reflect_tx success_tx failure_tx
    reflect_tx-AllDue (some time) = stopped OutboxStatus.sent refl
    reflect_tx-AllDue none = elim (Bool-cases (ltb o.attempts config.hcm_retry_max_attempts)) [
      | inl again ↦ rw again (over o.status (inl (rw k.wait (again_due again))))
      | inr cap ↦ elim (Bool-cases (is_file o.operation)) [
        | inl file ↦ rw (cap, file) compensate_tx-AllDue
        | inr reverse ↦ rw (cap, reverse) (stopped OutboxStatus.failed refl)
      ]
    ]

  -- A dispatch that ends between its transactions lets one attempt more come.
  dropped-IsDue :
      (f : Flights) (key : String) (o : Outbox)
      → IsDue config n f o
      → IsDue config (n + 1) (without_flight key f) o
  dropped-IsDue f key o (inl h) = inl (omega (arith, h))
  dropped-IsDue f key o (inr (fly, h)) = inl (elim (Bool-cases (is_waiting o.status)) [
    | inl wait ↦ rw wait (omega (arith, h))
    | inr stop ↦ rw stop (omega (arith, h))
  ])

  pub move-AllDue :
      (m : Move) (locks : List String) (x : Service)
      → Aloft x
      → AllDue config n x.flights x.tables
      → AllDue config
          (ended_after m n)
          (move (memory_of db) config m locks x).flights
          (move (memory_of db) config m locks x).tables
  unfolding move land
  move-AllDue (running s) locks x a all = elim (Bool-cases (can_run (memory_of db) config s x)) [
    | inl free ↦ rw free (
        perform-Respects db config (StaysDue config n x.flights) (λ r. Unit {0}) (λ id. Unit {0})
          (due-Closed config n x.flights) s locks x.tables (asked s locks x free) all)
    | inr held ↦ rw held all
  ]
  move-AllDue (taking_off id) locks x a all =
      elim (Bool-cases (is_unlocked x.flights (dispatch_key (memory_of db) config id x.tables))) [
        | inl free ↦ rw free (take_off-AllDue id locks x a free all)
        | inr held ↦ rw held all
      ]
  move-AllDue (landing hcm now key) locks x a all = elim (Option-cases (x.flights key)) [
    | inl e ↦ rw e all
    | inr ((o, r), e) ↦ rw e (
        reflect_tx-AllDue x key o r locks e (a.flown key o r e).1 all
          (acked_at now (call_hcm hcm o)))
  ]
  move-AllDue (dropping key) locks x a all = λ id o e. dropped-IsDue x.flights key o (all id o e)

pub Counting-AllDue :
    (db : Database) (config : AppConfig) (n : ℕ) (x : Service)
    → Counting (memory_of db) config n x
    → AllDue config n x.flights x.tables
Counting-AllDue db config n x start = λ id o e. absurd (cc e)
Counting-AllDue db config n x (next m locks k y run) =
    move-AllDue db config k m locks y
      (run-Aloft db config y (Counting-Interleaved (memory_of db) config k y run))
      (Counting-AllDue db config k y run)
