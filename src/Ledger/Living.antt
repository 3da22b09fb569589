-- ===== src/Ledger/Living.antt =====
-- Every move of the service, on the request of one id.
use wizdaa_takehome.Prelude.{
  ℕ, String, true, ◌||◌, Option, none, some, List, ◌≡◌, refl, subst, inl, inr, first, same,
  eq_of_same, ltb, Bool-cases, Option-cases, if◌then◌else◌, arith,
}
use wizdaa_takehome.Entities.{
  TimeOffRequest, RequestStatus, Outbox, outbox_id_is, request_id_is, is_pending, is_pending_sync,
  is_approved, is_waiting, is_file,
}
use wizdaa_takehome.Config.{AppConfig}
use wizdaa_takehome.Database.{Tables, Database, memory_of}
use wizdaa_takehome.Balances.{restore, change_balance, save_with_retry, save_attempts}
use wizdaa_takehome.Requests.{set_status, set_committed, build_outbox_row}
use wizdaa_takehome.Dispatcher.{
  acked_at, call_hcm, set_acked, take_row, take_tx, success_tx, compensate_tx, failure_tx,
  reflect_tx,
}
use wizdaa_takehome.Ledger.Reject.{found_id}
use wizdaa_takehome.Ledger.Respects.{Respects}
use wizdaa_takehome.Ledger.Moves.{Inv}
use wizdaa_takehome.Ledger.Sent.{files_synced}
use wizdaa_takehome.Ledger.Reached.{
  Section, reading, submitting, approving, rejecting, cancelling, expiring, dispatching, resolving,
  guarding, recording, reconciling,
}
use wizdaa_takehome.Ledger.Sections.{Asks, perform-Respects}
use wizdaa_takehome.Ledger.Flights.{
  Service, Move, running, taking_off, landing, dropping, can_run, dispatch_key, is_unlocked,
  take_off, land, move,
}
use wizdaa_takehome.Ledger.Carried.{Carried}
use wizdaa_takehome.Ledger.Aloft.{Aloft}
use wizdaa_takehome.Ledger.Halves.{settled}
use wizdaa_takehome.Ledger.Lifecycle.{
  Follows, can_step, step_self, StaysAlive, MayWrite, rewritten-Lives, alive-Closed,
}

fresh_ends : (s : RequestStatus) → is_pending s ≡ true → can_step s RequestStatus.rejected ≡ true
fresh_ends s h = ground arith

fresh_commits :
    (s : RequestStatus) → is_pending s ≡ true → can_step s RequestStatus.pending_sync ≡ true
fresh_commits s h = ground arith

live_rejects :
    (s : RequestStatus)
    → (is_pending s || is_pending_sync s) ≡ true
    → can_step s RequestStatus.rejected ≡ true
live_rejects s h = ground arith

live_expires :
    (s : RequestStatus)
    → (is_pending s || is_pending_sync s) ≡ true
    → can_step s RequestStatus.expired ≡ true
live_expires s h = ground arith

live_cancels :
    (s : RequestStatus)
    → (is_pending s || is_pending_sync s || is_approved s) ≡ true
    → can_step s RequestStatus.cancelled ≡ true
live_cancels s h = ground arith

synced_ends :
    (s : RequestStatus)
    → is_pending_sync s ≡ true
    → (can_step s RequestStatus.approved ≡ true) × (can_step s RequestStatus.rejected ≡ true)
synced_ends s h = (ground arith, ground arith)

module _ (id : String) (r : TimeOffRequest) (t : Tables)
    (start : first (request_id_is id) t.requests ≡ some r) where
  -- Two ids that name one request.
  same_one :
      (id' : String) (r' : TimeOffRequest)
      → first (request_id_is id') t.requests ≡ some r'
      → same id r'.id ≡ true
      → r' ≡ r
  same_one id' r' e here =
      let one : id ≡ id' = cc (eq_of_same id r'.id here, found_id id' r' t e) in
      cc (rw one at start, e)

  -- A request that is looked up may be written in another state, if the diagram allows it.
  restated :
      (id' : String) (r' : TimeOffRequest) (s : RequestStatus)
      → first (request_id_is id') t.requests ≡ some r'
      → can_step r'.status s ≡ true
      → MayWrite id r (set_status s r')
  restated id' r' s e reach here =
      subst (λ y. Follows y (set_status s r')) (same_one id' r' e here)
        (record { as_was = refl; reach = reach })

  recommitted :
      (id' : String) (r' : TimeOffRequest) (now : ℕ)
      → first (request_id_is id') t.requests ≡ some r'
      → can_step r'.status RequestStatus.pending_sync ≡ true
      → MayWrite id r (set_committed now r')
  recommitted id' r' now e reach here =
      subst (λ y. Follows y (set_committed now r')) (same_one id' r' e here)
        (record { as_was = refl; reach = reach })

  -- What a flight writes, over the request that only its idempotency key may have changed of.
  landed :
      (o : Outbox) (r' r'' : TimeOffRequest)
      → (k : Carried o r' t) → r''.id ≡ r'.id
      → Follows (record r' { idempotency_key = k.key }) r''
      → MayWrite id r r''
  landed o r' r'' k own follows here =
      subst (λ y. Follows y r'')
        (same_one r'.id (record r' { idempotency_key = k.key }) k.found (rw own at here)) follows

module _ (db : Database) (config : AppConfig) (id : String) (r : TimeOffRequest) where
  asked :
      (s : Section) (locks : List String) (x : Service)
      → first (request_id_is id) x.tables.requests ≡ some r
      → can_run (memory_of db) config s x ≡ true
      → Asks db config
          (StaysAlive id r)
          (MayWrite id r)
          (λ id. Unit {0})
          (alive-Closed id r)
          locks
          x.tables
          s
  asked (reading reply employee location) locks x start free = tt
  asked (submitting hcm now args) locks x start free = tt
  asked (approving hcm now id') locks x start free = λ r' e fresh. (
    restated id r x.tables start id' r' RequestStatus.rejected e (fresh_ends r'.status fresh),
    recommitted id r x.tables start id' r' now e (fresh_commits r'.status fresh),
  )
  asked (rejecting hcm now id') locks x start free = λ r' e live. (
    tt,
    restated id r x.tables start id' r' RequestStatus.rejected e (live_rejects r'.status live),
  )
  asked (cancelling hcm now id') locks x start free = λ r' e live. (
    tt,
    restated id r x.tables start id' r' RequestStatus.cancelled e (live_cancels r'.status live),
  )
  asked (expiring id') locks x start free = λ r' e live. (
    tt,
    restated id r x.tables start id' r' RequestStatus.expired e (live_expires r'.status live),
  )
  asked (dispatching hcm now id') locks x start free = absurd (cc free)
  asked (resolving employee location) locks x start free = tt
  asked (guarding corpus) locks x start free = tt
  asked (recording corpus) locks x start free = tt
  asked (reconciling as_of entry) locks x start free = tt

  take_tx-StaysAlive : (row : String) → Respects (StaysAlive id r) (take_tx (memory_of db) row)
  unfolding take_tx take_row
  take_tx-StaysAlive row locks t = elim (Option-cases (first (outbox_id_is row) t.outbox)) [
    | inl e ↦ rw e (λ a. a)
    | inr (o, e) ↦ elim (Bool-cases (is_waiting o.status)) [
      | inr done ↦ rw (e, done) (λ a. a)
      | inl wait ↦ elim (Option-cases (first (request_id_is o.aggregate_id) t.requests)) [
        | inl lost ↦ rw (e, wait, lost) (λ a. a)
        | inr (r', found) ↦ rw (e, wait, found) (λ a. a)
      ]
    ]
  ]

  module _ (t : Tables) (o : Outbox) (r' : TimeOffRequest) (locks : List String) (inv : Inv t)
      (k : Carried o r' t) (start : first (request_id_is id) t.requests ≡ some r) where
    synced : is_file o.operation ≡ true → is_pending_sync r'.status ≡ true
    synced file =
        files_synced t o (record r' { idempotency_key = k.key }) inv k.row (rw k.own k.found) file
          k.wait

    acked_reach :
        can_step r'.status (if is_file o.operation then RequestStatus.approved else r'.status)
        ≡ true
    acked_reach = elim (Bool-cases (is_file o.operation)) [
      | inl file ↦ rw file (synced_ends r'.status (synced file)).0
      | inr reverse ↦ rw reverse (step_self r'.status)
    ]

    compensate_tx-StaysAlive :
        is_file o.operation ≡ true → StaysAlive id r t (compensate_tx (memory_of db) o r' locks t).1
    unfolding compensate_tx restore change_balance save_with_retry save_attempts build_outbox_row
    compensate_tx-StaysAlive file = rewritten-Lives id r t (set_status RequestStatus.rejected r') (
        landed id r t start o r' (set_status RequestStatus.rejected r') k refl
          (record { as_was = refl; reach = (synced_ends r'.status (synced file)).1 }))

    reflect_tx-StaysAlive :
        (acked : Option ℕ)
        → StaysAlive id r t (reflect_tx (memory_of db) config acked o r' locks t).1
    unfolding reflect_tx success_tx failure_tx
    reflect_tx-StaysAlive (some time) = rewritten-Lives id r t (set_acked time o r') (
        landed id r t start o r' (set_acked time o r') k refl
          (record { as_was = refl; reach = acked_reach }))
    reflect_tx-StaysAlive none = elim (Bool-cases (ltb o.attempts config.hcm_retry_max_attempts)) [
      | inl again ↦ rw again (λ a. a)
      | inr cap ↦ elim (Bool-cases (is_file o.operation)) [
        | inl file ↦ rw (cap, file) (compensate_tx-StaysAlive file)
        | inr reverse ↦ rw (cap, reverse) (λ a. a)
      ]
    ]

  pub move-StaysAlive :
      (m : Move) (locks : List String) (x : Service)
      → Aloft x
      → first (request_id_is id) x.tables.requests ≡ some r
      → StaysAlive id r x.tables (move (memory_of db) config m locks x).tables
  unfolding move take_off land
  move-StaysAlive (running s) locks x a start =
      elim (Bool-cases (can_run (memory_of db) config s x)) [
        | inl free ↦ rw free (
            perform-Respects db config (StaysAlive id r) (MayWrite id r) (λ id. Unit {0})
              (alive-Closed id r) s locks x.tables (asked s locks x start free))
        | inr held ↦ rw held (λ l. l)
      ]
  move-StaysAlive (taking_off row) locks x a start =
      elim (Bool-cases (is_unlocked x.flights (dispatch_key (memory_of db) config row x.tables))) [
        | inl free ↦ rw free (
            settled (StaysAlive id r x.tables) x.tables (take_tx (memory_of db) row locks x.tables)
              (λ l. l) (take_tx-StaysAlive row locks x.tables))
        | inr held ↦ rw held (λ l. l)
      ]
  move-StaysAlive (landing hcm now key) locks x a start = elim (Option-cases (x.flights key)) [
    | inl e ↦ rw e (λ l. l)
    | inr ((o, r'), e) ↦
        let acked = acked_at now (call_hcm hcm o) in
        rw e (
          settled (StaysAlive id r x.tables) x.tables
            (reflect_tx (memory_of db) config acked o r' locks x.tables) (λ l. l)
            (reflect_tx-StaysAlive x.tables o r' locks a.inv (a.flown key o r' e).1 start acked))
  ]
  move-StaysAlive (dropping key) locks x a start = λ l. l
