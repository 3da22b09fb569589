-- ===== src/Ledger/Aloft.antt =====
-- The invariants, while dispatches are between their two transactions.
use mathlib.Core.Option
use wizdaa_takehome.Prelude.{
  String, true, false, some, List, ◌≡◌, refl, inl, inr, first, same, eq_of_same, Bool-cases,
}
use wizdaa_takehome.Entities.{TimeOffRequest, Outbox, request_id_is}
use wizdaa_takehome.Config.{AppConfig}
use wizdaa_takehome.Database.{Tables, Database, memory_of}
use wizdaa_takehome.Ledger.Reject.{found_id}
use wizdaa_takehome.Ledger.Moves.{Inv}
use wizdaa_takehome.Ledger.Reached.{
  Section, reading, submitting, approving, rejecting, cancelling, expiring, dispatching, resolving,
  guarding, recording, reconciling, perform, perform-Inv,
}
use wizdaa_takehome.Ledger.Sections.{Asks, perform-Respects}
use wizdaa_takehome.Ledger.Flights.{Flights, Service, key_of, is_unlocked, without_flight, can_run}
use wizdaa_takehome.Ledger.Carried.{Carried, StaysCarried, carried-Closed}

-- Every flight holds the lock of its own request, and has in memory what the tables still say.
pub record Aloft (x : Service) : Type 0 where
  pub inv : Inv x.tables
  pub flown :
      (key : String) (o : Outbox) (r : TimeOffRequest)
      → x.flights key ≡ some (o, r)
      → (key_of r ≡ key) × Carried o r x.tables

-- A request whose lock is free is in no flight.
pub not_flown :
    (flights : Flights) (key id : String) (o : Outbox) (r : TimeOffRequest) (t : Tables)
    → flights key ≡ some (o, r)
    → key_of r ≡ key
    → Carried o r t
    → is_unlocked flights (Option.map key_of (first (request_id_is id) t.requests)) ≡ true
    → same r.id id ≡ false
not_flown flights key id o r t flown own k unlocked = elim (Bool-cases (same r.id id)) [
  | inr other ↦ other
  | inl here ↦
      let locked : is_unlocked flights (Option.map key_of (first (request_id_is id) t.requests))
          ≡ false =
        rw (← eq_of_same r.id id here, k.found, own, flown) refl in
      absurd (cc (locked, unlocked))
]

-- The row that is found under another id is another row.
apart_from :
    (r : TimeOffRequest) (id : String) (r' : TimeOffRequest) (t : Tables)
    → first (request_id_is id) t.requests ≡ some r'
    → same r.id id ≡ false
    → same r.id r'.id ≡ false
apart_from r id r' t e other = rw (← found_id id r' t e) other

module _ (db : Database) (config : AppConfig) where
  -- What a section that may run needs, if it is to leave a flight alone.
  asked :
      (s : Section) (locks : List String) (x : Service) (key : String) (o : Outbox)
      (r : TimeOffRequest)
      → can_run (memory_of db) config s x ≡ true
      → x.flights key ≡ some (o, r)
      → key_of r ≡ key
      → Carried o r x.tables
      → Asks db config
          (StaysCarried o r)
          (λ r'. same r.id r'.id ≡ false)
          (λ id. same r.id id ≡ false)
          (carried-Closed o r)
          locks
          x.tables
          s
  asked (reading reply employee location) locks x key o r free flown own k = tt
  asked (submitting hcm now args) locks x key o r free flown own k = tt
  asked (approving hcm now id) locks x key o r free flown own k =
      let other = not_flown x.flights key id o r x.tables flown own k free in
      λ r' e fresh. let apart = apart_from r id r' x.tables e other in (apart, apart)
  asked (rejecting hcm now id) locks x key o r free flown own k =
      let other = not_flown x.flights key id o r x.tables flown own k free in
      λ r' e live. (other, apart_from r id r' x.tables e other)
  asked (cancelling hcm now id) locks x key o r free flown own k =
      let other = not_flown x.flights key id o r x.tables flown own k free in
      λ r' e live. (other, apart_from r id r' x.tables e other)
  asked (expiring id) locks x key o r free flown own k =
      let other = not_flown x.flights key id o r x.tables flown own k free in
      λ r' e live. (other, apart_from r id r' x.tables e other)
  asked (dispatching hcm now id) locks x key o r free flown own k = absurd (cc free)
  asked (resolving employee location) locks x key o r free flown own k = tt
  asked (guarding corpus) locks x key o r free flown own k = tt
  asked (recording corpus) locks x key o r free flown own k = tt
  asked (reconciling as_of entry) locks x key o r free flown own k = tt

  -- The flights that are left when one ends.
  pub left_over :
      (flights : Flights) (done key : String) (f : Outbox × TimeOffRequest)
      → without_flight done flights key ≡ some f
      → (flights key ≡ some f) × (same done key ≡ false)
  left_over flights done key f e = elim (Bool-cases (same done key)) [
    | inl here ↦ absurd (cc (rw here at e))
    | inr other ↦ (rw other at e, other)
  ]

  pub running-Aloft :
      (s : Section) (locks : List String) (x : Service)
      → can_run (memory_of db) config s x ≡ true
      → Aloft x
      → Aloft (record x { tables = perform (memory_of db) config s locks x.tables })
  running-Aloft s locks x free a = record {
    inv = perform-Inv db config s locks x.tables a.inv;
    flown = λ key o r e.
        let (own, k) = a.flown key o r e in
        (
          own,
          perform-Respects db config (StaysCarried o r) (λ r'. same r.id r'.id ≡ false)
              (λ id. same r.id id ≡ false) (carried-Closed o r) s locks x.tables
              (asked s locks x key o r free e own k) k,
        );
  }
