-- ===== src/Ledger/Sections.antt =====
-- Every section as a call that keeps a relation which the writes of the services keep.
use wizdaa_takehome.Prelude.{String, List, true, some, ◌≡◌, ◌||◌, first}
use wizdaa_takehome.Entities.{
  TimeOffRequest, RequestStatus, request_id_is, is_pending, is_pending_sync, is_approved,
}
use wizdaa_takehome.Requests.{set_status, set_committed}
use wizdaa_takehome.Config.{AppConfig}
use wizdaa_takehome.Database.{Tables, Database, memory_of}
use wizdaa_takehome.Dispatcher.{dispatch_locked}
use wizdaa_takehome.Ledger.Reached.{
  Section, reading, submitting, approving, rejecting, cancelling, expiring, dispatching, resolving,
  guarding, recording, reconciling, perform,
}
use wizdaa_takehome.Ledger.Walk.{Closed, get_balance-Respects}
use wizdaa_takehome.Ledger.Approving.{approve_locked-Respects}
use wizdaa_takehome.Ledger.Endings.{reject_locked-Respects, cancel_locked-Respects, expire-Respects}
use wizdaa_takehome.Ledger.Entries.{
  submit_locked-Respects, resolve-Respects, guard-Respects, record-Respects, entry-Respects,
}

module _ (db : Database) (config : AppConfig) (R : Tables → Tables → Type 0)
    (Writes : TimeOffRequest → Type 0) (Voids : String → Type 0) (c : Closed R Writes Voids) where
  -- What a section needs in the tables that it runs on: what it makes of the request that it finds may
  -- be written. A dispatch, which counts attempts on a row of the outbox, has to keep the relation
  -- itself.
  abbrev pub Asks : List String → Tables → Section → Type 0
  Asks locks t (approving hcm now id) =
      (r : TimeOffRequest)
      → first (request_id_is id) t.requests ≡ some r
      → is_pending r.status ≡ true
      → Writes (set_status RequestStatus.rejected r) × Writes (set_committed now r)
  Asks locks t (rejecting hcm now id) =
      (r : TimeOffRequest)
      → first (request_id_is id) t.requests ≡ some r
      → (is_pending r.status || is_pending_sync r.status) ≡ true
      → Voids id × Writes (set_status RequestStatus.rejected r)
  Asks locks t (cancelling hcm now id) =
      (r : TimeOffRequest)
      → first (request_id_is id) t.requests ≡ some r
      → (is_pending r.status || is_pending_sync r.status || is_approved r.status) ≡ true
      → Voids id × Writes (set_status RequestStatus.cancelled r)
  Asks locks t (expiring id) =
      (r : TimeOffRequest)
      → first (request_id_is id) t.requests ≡ some r
      → (is_pending r.status || is_pending_sync r.status) ≡ true
      → Voids id × Writes (set_status RequestStatus.expired r)
  Asks locks t (dispatching hcm now id) =
      R t (dispatch_locked (memory_of db) config hcm now id locks t).1
  Asks locks t s = Unit

  pub perform-Respects :
      (s : Section) (locks : List String) (t : Tables)
      → Asks locks t s
      → R t (perform (memory_of db) config s locks t)
  unfolding perform
  perform-Respects (reading reply employee location) locks t w =
      get_balance-Respects db R Writes Voids c config reply employee location locks t
  perform-Respects (submitting hcm now args) locks t w =
      submit_locked-Respects db R Writes Voids c config hcm now args locks t
  perform-Respects (approving hcm now id) locks t w =
      approve_locked-Respects db R Writes Voids c config hcm now id locks t w
  perform-Respects (rejecting hcm now id) locks t w =
      reject_locked-Respects db R Writes Voids c config hcm now id locks t w
  perform-Respects (cancelling hcm now id) locks t w =
      cancel_locked-Respects db R Writes Voids c config hcm now id locks t w
  perform-Respects (expiring id) locks t w = expire-Respects db R Writes Voids c id locks t w
  perform-Respects (dispatching hcm now id) locks t w = w
  perform-Respects (resolving employee location) locks t w =
      resolve-Respects db R Writes Voids c employee location locks t
  perform-Respects (guarding corpus) locks t w = guard-Respects db R Writes Voids c corpus locks t
  perform-Respects (recording corpus) locks t w = record-Respects db R Writes Voids c corpus locks t
  perform-Respects (reconciling as_of entry) locks t w =
      entry-Respects db R Writes Voids c as_of entry locks t
