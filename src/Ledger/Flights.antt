-- ===== src/Ledger/Flights.antt =====
-- The service with its dispatches cut in two. `dispatchOne` keeps the lock of its key from its first
-- transaction to its second, with the call of HCM between them; the sections of other keys, and the
-- dispatches of other keys, run meanwhile. A dispatch between its transactions is a flight, which
-- has in memory the row and the request that its first transaction read.
use mathlib.Core.Option
use wizdaa_takehome.Prelude.{
  ℕ, String, Bool, true, false, Option, none, some, List, same, if◌then◌else◌,
}
use wizdaa_takehome.Entities.{TimeOffRequest, Outbox}
use wizdaa_takehome.Config.{AppConfig}
use wizdaa_takehome.Database.{Tables, Engine, Outcome, ok, err, deadlock}
use wizdaa_takehome.Balances.{balance_key, find_balance, warm_row}
use wizdaa_takehome.Requests.{find_request}
use wizdaa_takehome.Dispatcher.{HcmWrites, acked_at, call_hcm, find_outbox, take_tx, reflect_tx}
use wizdaa_takehome.Ledger.Reached.{
  Section, reading, submitting, approving, rejecting, cancelling, expiring, dispatching, resolving,
  guarding, recording, reconciling, perform, no_rows_yet,
}

abbrev pub Flights : Type 0
Flights = String → Option (Outbox × TimeOffRequest)

-- The tables, and the flight that holds the lock of a key.
pub record Service : Type 0 where
  pub tables : Tables
  pub flights : Flights

abbrev pub key_of : TimeOffRequest → String
key_of r = balance_key r.employee_id r.location_id

-- The lock is with no flight; who needs no lock may always run.
abbrev pub is_vacant : Option (Outbox × TimeOffRequest) → Bool
is_vacant none = true
is_vacant (some f) = false

abbrev pub is_unlocked : Flights → Option String → Bool
is_unlocked flights none = true
is_unlocked flights (some key) = is_vacant (flights key)

abbrev pub with_flight : Outbox × TimeOffRequest → Flights → Flights
with_flight f flights key = if same (key_of f.1) key then some f else flights key

abbrev pub without_flight : String → Flights → Flights
without_flight done flights key = if same done key then none else flights key

-- What transaction 1 leaves in memory.
abbrev pub taken_off : Outcome (Option (Outbox × TimeOffRequest)) → Flights → Flights
taken_off (ok none) flights = flights
taken_off (ok (some f)) flights = with_flight f flights
taken_off (err e) flights = flights
taken_off deadlock flights = flights

-- A section runs; a dispatch runs its transaction 1, or its transaction 2 after HCM answered, or it
-- ends between them, as the process does or as transaction 2 fails.
pub data Move : Type 0 where
  running : Section → Move
  taking_off : String → Move
  landing : HcmWrites → ℕ → String → Move
  dropping : String → Move

module _ (e : Engine) (config : AppConfig) where
  -- The lock of a dispatch: that of the request which its row belongs to.
  abbrev pub key_of_row : Option Outbox → Tables → Option String
  key_of_row none t = none
  key_of_row (some o) t = Option.map key_of (find_request e o.aggregate_id t)

  abbrev pub dispatch_key : String → Tables → Option String
  dispatch_key id t = key_of_row (find_outbox e id t) t

  -- The lock under which a section runs.
  abbrev pub section_key : Section → Tables → Option String
  section_key (reading reply employee location) t =
      elim (warm_row (find_balance e employee location t)) [
        | none ↦
            if config.balance_lazy_load_enabled then some (balance_key employee location) else none
        | some b ↦ none
      ]
  section_key (submitting hcm now args) t = some (balance_key args.employee_id args.location_id)
  section_key (approving hcm now id) t = Option.map key_of (find_request e id t)
  section_key (rejecting hcm now id) t = Option.map key_of (find_request e id t)
  section_key (cancelling hcm now id) t = Option.map key_of (find_request e id t)
  section_key (expiring id) t = Option.map key_of (find_request e id t)
  section_key (dispatching hcm now id) t = dispatch_key id t
  section_key (resolving employee location) t = some (balance_key employee location)
  section_key (guarding corpus) t = none
  section_key (recording corpus) t = none
  section_key (reconciling as_of entry) t = some (balance_key entry.employee_id entry.location_id)

  unfoldable pub take_off : String → List String → Service → Service
  take_off id locks x =
      let out = e.transaction (Option (Outbox × TimeOffRequest)) (take_tx e id) locks x.tables in
      record { tables = out.1; flights = taken_off out.0 x.flights }

  abbrev pub land_flight :
      HcmWrites → ℕ → List String → String → Option (Outbox × TimeOffRequest) → Service → Service
  land_flight hcm now locks key none x = x
  land_flight hcm now locks key (some (o, r)) x = record {
    tables =
        (e.transaction (Unit {0}) (reflect_tx e config (acked_at now (call_hcm hcm o)) o r) locks
          x.tables).1;
    flights = without_flight key x.flights;
  }

  unfoldable pub land : HcmWrites → ℕ → List String → String → Service → Service
  land hcm now locks key x = land_flight hcm now locks key (x.flights key) x

  -- A section runs if its lock is free; a dispatch is run as its two halves only.
  abbrev pub can_run : Section → Service → Bool
  can_run (dispatching hcm now id) x = false
  can_run s x = is_unlocked x.flights (section_key s x.tables)

  -- Who finds the lock taken waits, and the service is as it was.
  unfoldable pub move : Move → List String → Service → Service
  move (running s) locks x =
      if can_run s x then record x { tables = perform e config s locks x.tables } else x
  move (taking_off id) locks x =
      if is_unlocked x.flights (dispatch_key id x.tables) then take_off id locks x else x
  move (landing hcm now key) locks x = land hcm now locks key x
  move (dropping key) locks x = record x { flights = without_flight key x.flights }

  -- The states that the service can come to, with dispatches in flight.
  pub data Interleaved : Service → Type 0 where
    start : Interleaved (record { tables = no_rows_yet; flights = λ key. none })
    next :
        (m : Move) (locks : List String) (x : Service)
        → Interleaved x
        → Interleaved (move m locks x)
