-- ===== src/Guarantees/Interleavings.antt =====
-- The service while dispatches wait for HCM, and other sections run between their transactions.
use wizdaa_takehome.Prelude.{ℕ, String, List, true, some, ◌≡◌, first, sym, subst}
use wizdaa_takehome.Entities.{TimeOffRequest, Outbox, request_id_is, outbox_id_is, is_waiting}
use wizdaa_takehome.Config.{AppConfig}
use wizdaa_takehome.Database.{Database, engine-eq-memory}
use wizdaa_takehome.Dispatcher.{HcmWrites}
use wizdaa_takehome.Ledger.Value.{SameValue}
use wizdaa_takehome.Ledger.Moves.{Inv}
use wizdaa_takehome.Ledger.Flights.{Service, Interleaved, key_of, Move, move, take_off, land}
use wizdaa_takehome.Ledger.Aloft.{Aloft}
use wizdaa_takehome.Ledger.Progress.{Progress, Progresses}
use wizdaa_takehome.Ledger.Sending.{move-Progresses}
use wizdaa_takehome.Ledger.Lifecycle.{Follows, Follows-refl}
use wizdaa_takehome.Ledger.Living.{move-StaysAlive}
use wizdaa_takehome.Ledger.Halves.{run-Aloft, take_off-SameValue, land-SameValue}

all-Aloft :
    (db : Database) (config : AppConfig) (x : Service) → Interleaved db.engine config x → Aloft x
all-Aloft db config =
    subst (λ e. (x : Service) → Interleaved e config x → Aloft x) (sym (engine-eq-memory db))
      (run-Aloft db config)

-- In every state that the service can come to, when sections of other keys and other dispatches run
-- between the two transactions of a dispatch, and when a dispatch ends between them: the reserved
-- days of each balance are the days of its PENDING requests, a request has a FILE row that waits
-- (and then one) exactly if it is PENDING_SYNC, no request has two FILE rows, or one while it is
-- PENDING, and of two rows of active requests of one employee and location the ranges do not meet.
pub flights_keep_consistent :
    (db : Database) (config : AppConfig) (x : Service)
    → Interleaved db.engine config x
    → Inv x.tables
flights_keep_consistent db config x run = (all-Aloft db config x run).inv

-- In every state that the service can come to, a dispatch that waits for HCM holds the lock of its own
-- request, its row still waits in the outbox as its first transaction left it, and its request is
-- still in the tables as its first transaction read it, but for the idempotency key.
pub flight_is_current :
    (db : Database) (config : AppConfig) (x : Service) (key : String) (o : Outbox)
    (r : TimeOffRequest)
    → Interleaved db.engine config x
    → x.flights key ≡ some (o, r)
    → (key_of r ≡ key)
      × (first (outbox_id_is o.id) x.tables.outbox ≡ some o)
      × (is_waiting o.status ≡ true)
      × (k : String) × (first (request_id_is r.id) x.tables.requests
          ≡ some (record r { idempotency_key = k }))
flight_is_current db config x key o r run flown =
    let (own, carried) = (all-Aloft db config x run).flown key o r flown in
    (own, carried.row, carried.wait, carried.key, carried.found)

-- Whatever the service does in a state that it can come to, no row of the outbox is lost: the row of
-- an id is afterwards as it was, or it waited, and then its state is another or its attempts are no
-- fewer, and its request, operation, payload and key are the same. So a row that is SENT, FAILED or
-- VOIDED stays as it is.
pub outbox_only_progresses :
    (db : Database) (config : AppConfig) (m : Move) (locks : List String) (x : Service)
    (id : String) (o : Outbox)
    → Interleaved db.engine config x
    → first (outbox_id_is id) x.tables.outbox ≡ some o
    → (o' : Outbox) × (first (outbox_id_is id) (move db.engine config m locks x).tables.outbox
        ≡ some o')
      × Progress o o'
outbox_only_progresses db config m locks x id o run found =
    subst (λ e. Progresses x.tables (move e config m locks x).tables) (sym (engine-eq-memory db))
      (move-Progresses db config m locks x (all-Aloft db config x run)) id o found

-- Whatever the service does in a state that it can come to, no request is lost: the request of an id
-- is afterwards the same but for its state, its idempotency key and the times of its commit and of
-- HCM's answer. Its state is as before, or it went from PENDING to PENDING_SYNC, REJECTED, CANCELLED
-- or EXPIRED, from PENDING_SYNC to APPROVED, REJECTED, CANCELLED or EXPIRED, or from APPROVED to
-- CANCELLED. So a request that is REJECTED, CANCELLED or EXPIRED stays so, and one that is PENDING is
-- not APPROVED in one move.
pub requests_follow_the_diagram :
    (db : Database) (config : AppConfig) (m : Move) (locks : List String) (x : Service)
    (id : String) (r : TimeOffRequest)
    → Interleaved db.engine config x
    → first (request_id_is id) x.tables.requests ≡ some r
    → (r' : TimeOffRequest) × (first
          (request_id_is id)
          (move db.engine config m locks x).tables.requests
        ≡ some r')
      × Follows r r'
requests_follow_the_diagram db config m locks x id r run found =
    subst
      (λ e.
        (r' : TimeOffRequest) × (first (request_id_is id) (move e config m locks x).tables.requests
          ≡ some r')
        × Follows r r')
      (sym (engine-eq-memory db))
      (move-StaysAlive db config id r m locks x (all-Aloft db config x run) found
        (r, found, Follows-refl r))

-- In every state that the service can come to, neither half of a dispatch changes for any balance
-- the sum of its available days and of the days of its APPROVED and PENDING_SYNC requests, whatever
-- HCM answered and whatever other sections did between the halves.
pub halves_keep_days :
    (db : Database) (config : AppConfig) (hcm : HcmWrites) (now : ℕ) (id key : String)
    (locks : List String) (x : Service)
    → Interleaved db.engine config x
    → SameValue x.tables (take_off db.engine config id locks x).tables
      × SameValue x.tables (land db.engine config hcm now locks key x).tables
halves_keep_days db config hcm now id key locks x run =
    let a = all-Aloft db config x run in
    subst
      (λ e.
        SameValue x.tables (take_off e config id locks x).tables
        × SameValue x.tables (land e config hcm now locks key x).tables)
      (sym (engine-eq-memory db))
      (take_off-SameValue db config id locks x a, land-SameValue db config hcm now locks key x a)
