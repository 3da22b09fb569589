-- ===== src/Ledger/Halves.antt =====
-- The two halves of a dispatch keep the invariants of the service and of its flights.
use mathlib.Core.Option
use wizdaa_takehome.Prelude.{
  ℕ, String, true, false, Option, none, some, List, ◌≡◌, ap, sym, ◌∙◌, subst, inl, inr, first, same,
  same_refl, refl, eq_of_same, first-holds, Bool-cases, Option-cases,
}
use wizdaa_takehome.Entities.{
  TimeOffRequest, Outbox, OutboxStatus, request_id_is, outbox_id_is, is_waiting,
}
use wizdaa_takehome.Config.{AppConfig}
use wizdaa_takehome.Database.{Tables, Database, memory_of, Outcome, ok, err, deadlock, settle}
use wizdaa_takehome.Dispatcher.{
  HcmWrites, acked_at, call_hcm, take_tx, take_row, reflect_tx, count_attempt, set_outbox_status,
}
use wizdaa_takehome.Ledger.Value.{SameValue}
use wizdaa_takehome.Ledger.Moves.{Inv}
use wizdaa_takehome.Ledger.Dispatch.{AfterTake, Taken, take_tx-After}
use wizdaa_takehome.Ledger.Reached.{Reached, no_rows_yet, in_memory-Inv}
use wizdaa_takehome.Ledger.Flights.{
  Service, key_of, is_unlocked, with_flight, without_flight, taken_off, dispatch_key, key_of_row,
  take_off, land, move, Move, running, taking_off, landing, dropping, Interleaved, start, next,
  can_run,
}
use wizdaa_takehome.Ledger.Carried.{Carried, StaysCarried, other_row}
use wizdaa_takehome.Ledger.Landed.{reflect_tx-landed}
use wizdaa_takehome.Ledger.Passing.{rows_apart, reflect_tx-passes}
use wizdaa_takehome.Ledger.Aloft.{Aloft, not_flown, left_over, running-Aloft}

-- What holds of the tables before a transaction and after its body holds after it.
pub settled :
    (P : Tables → Type 0) {A : Type 0} (t : Tables) (out : Outcome A × Tables)
    → P t
    → P out.1
    → P (settle t out).1
settled P t (ok a, t') h h' = h'
settled P t (err e, t') h h' = h
settled P t (deadlock, t') h h' = h

-- Flights of two locks are of two requests.
flights_apart :
    (t : Tables) (o o' : Outbox) (r r' : TimeOffRequest)
    → Carried o r t
    → Carried o' r' t
    → same (key_of r') (key_of r) ≡ false
    → same r.id r'.id ≡ false
flights_apart t o o' r r' k k' other = elim (Bool-cases (same r.id r'.id)) [
  | inr apart ↦ apart
  | inl here ↦
      let found_eq : first (request_id_is r.id) t.requests
          ≡ some (record r' { idempotency_key = k'.key }) =
        rw (eq_of_same r.id r'.id here) k'.found in
      let key_eq : some (key_of r) ≡ some (key_of r') =
        ap (Option.map key_of) (sym k.found ∙ found_eq) in
      let key_back : key_of r ≡ key_of r' = cc key_eq in
      let same_key : same (key_of r') (key_of r) ≡ true =
        subst (λ key. same (key_of r') key ≡ true) (sym key_back) (same_refl (key_of r')) in
      absurd (cc (other, same_key))
]

-- What is known of the flight of a key.
abbrev InAir : String → Tables → Option (Outbox × TimeOffRequest) → Type 0
InAir key t none = Unit
InAir key t (some (o, r)) = (key_of r ≡ key) × Carried o r t

module _ (db : Database) (config : AppConfig) where
  land-Aloft :
      (hcm : HcmWrites) (now : ℕ) (locks : List String) (key : String) (x : Service)
      → Aloft x
      → Aloft (land (memory_of db) config hcm now locks key x)
  unfolding land
  land-Aloft hcm now locks key x a = elim (Option-cases (x.flights key)) [
    | inl e ↦ rw e a
    | inr ((o, r), e) ↦
        let (own, k) = a.flown key o r e in
        let acked = acked_at now (call_hcm hcm o) in
        rw e (record {
          inv =
              settled Inv x.tables (reflect_tx (memory_of db) config acked o r locks x.tables) a.inv
                (reflect_tx-landed db x.tables o r locks a.inv k config acked).0;
          flown = λ key' o' r' e'.
              let (e'', other) = left_over db config x.flights key key' (o', r') e' in
              let (own', k') = a.flown key' o' r' e'' in
              let apart = flights_apart x.tables o' o r' r k' k (rw (own, own') other) in
              (
                own',
                settled (Carried o' r') x.tables
                    (reflect_tx (memory_of db) config acked o r locks x.tables) k'
                    (reflect_tx-passes db o' o r' r
                      (rows_apart x.tables o' o r' o.id k' k.row (rw k.own apart)) apart config
                      acked locks x.tables k'),
              );
        })
  ]

  -- Transaction 1 that takes nothing.
  after-Inv :
      (t : Tables) (out : Outcome (Option (Outbox × TimeOffRequest)) × Tables)
      → AfterTake db t out
      → Inv out.1
  after-Inv t (ok (some (o, r)), t') h = h.0
  after-Inv t (ok none, t') h = h.0
  after-Inv t (err e, t') h = h.0
  after-Inv t (deadlock, t') h = h.0

  -- Transaction 1 leaves what the other flights have in memory.
  take_tx-passes :
      (id : String) (locks : List String) (x : Service) (key : String) (o : Outbox)
      (r : TimeOffRequest)
      → is_unlocked x.flights (dispatch_key (memory_of db) config id x.tables) ≡ true
      → x.flights key ≡ some (o, r)
      → key_of r ≡ key
      → StaysCarried o r x.tables (take_tx (memory_of db) id locks x.tables).1
  unfolding take_tx take_row
  take_tx-passes id locks x key o r free flown own k =
      let t = x.tables in
      elim (Option-cases (first (outbox_id_is id) t.outbox)) [
        | inl e ↦ rw e k
        | inr (o', e) ↦ elim (Bool-cases (is_waiting o'.status)) [
          | inr done ↦ rw (e, done) k
          | inl wait ↦
              let apart = not_flown x.flights key o'.aggregate_id o r t flown own k (
                subst (λ row. is_unlocked x.flights (key_of_row (memory_of db) config row t) ≡ true)
                  e free) in
              let row_apart : same o.id o'.id ≡ false =
                rw (← eq_of_same id o'.id (first-holds (outbox_id_is id) t.outbox o' e))
                  (rows_apart t o o' r id k e apart) in
              elim (Option-cases (first (request_id_is o'.aggregate_id) t.requests)) [
                | inl e' ↦
                    rw (e, wait, e')
                      (other_row o r t (set_outbox_status OutboxStatus.failed o') row_apart k)
                | inr (r', e') ↦ rw (e, wait, e') (other_row o r t (count_attempt o') row_apart k)
              ]
        ]
      ]

  -- Transaction 1 run with its commit, from a service whose lock is free.
  module _ (locks : List String) (x : Service) (a : Aloft x) where
    new_flight :
        (t : Tables) (o : Outbox) (r : TimeOffRequest)
        → Taken t o r
        → Inv t
        → ((key : String) (o' : Outbox) (r' : TimeOffRequest)
            → x.flights key ≡ some (o', r')
            → Carried o' r' t)
        → Aloft (record { tables = t; flights = with_flight (o, r) x.flights })
    new_flight t o r taken inv passes = record {
      inv = inv;
      flown = λ key o' r' e. elim (Bool-cases (same (key_of r) key)) [
        | inl here ↦
            let e' : some (o, r) ≡ some (o', r') = rw here at e in
            subst (InAir key t) e' (
              eq_of_same (key_of r) key here,
              record {
                row = taken.row;
                own = taken.own;
                wait = taken.wait;
                key = r.idempotency_key;
                found = taken.found;
              },
            )
        | inr other ↦
            let e' : x.flights key ≡ some (o', r') = rw other at e in
            ((a.flown key o' r' e').0, passes key o' r' e')
      ];
    }

    taken-Aloft :
        (out : Outcome (Option (Outbox × TimeOffRequest)) × Tables)
        → AfterTake db x.tables out
        → ((key : String) (o' : Outbox) (r' : TimeOffRequest)
            → x.flights key ≡ some (o', r')
            → Carried o' r' out.1)
        → Aloft (record {
          tables = (settle x.tables out).1;
          flights = taken_off (settle x.tables out).0 x.flights;
        })
    taken-Aloft (ok (some (o, r)), t) (inv, value, taken) passes = new_flight t o r taken inv passes
    taken-Aloft (ok none, t) (inv, value) passes = record {
      inv = inv;
      flown = λ key o' r' e. ((a.flown key o' r' e).0, passes key o' r' e);
    }
    taken-Aloft (err e, t) h passes = record { inv = a.inv; flown = a.flown }
    taken-Aloft (deadlock, t) h passes = record { inv = a.inv; flown = a.flown }

  take_off-Aloft :
      (id : String) (locks : List String) (x : Service)
      → is_unlocked x.flights (dispatch_key (memory_of db) config id x.tables) ≡ true
      → Aloft x
      → Aloft (take_off (memory_of db) config id locks x)
  unfolding take_off
  take_off-Aloft id locks x free a =
      taken-Aloft locks x a (take_tx (memory_of db) id locks x.tables)
        (take_tx-After db id x.tables locks a.inv)
        (λ key o r e.
          let (own, k) = a.flown key o r e in take_tx-passes id locks x key o r free e own k)

  dropped-Aloft :
      (key : String) (x : Service)
      → Aloft x
      → Aloft (record x { flights = without_flight key x.flights })
  dropped-Aloft key x a = record {
    inv = a.inv;
    flown = λ key' o r e. a.flown key' o r (left_over db config x.flights key key' (o, r) e).0;
  }

  move-Aloft :
      (m : Move) (locks : List String) (x : Service)
      → Aloft x
      → Aloft (move (memory_of db) config m locks x)
  unfolding move
  move-Aloft (running s) locks x a = elim (Bool-cases (can_run (memory_of db) config s x)) [
    | inl free ↦ rw free (running-Aloft db config s locks x free a)
    | inr held ↦ rw held a
  ]
  move-Aloft (taking_off id) locks x a =
      elim (Bool-cases (is_unlocked x.flights (dispatch_key (memory_of db) config id x.tables))) [
        | inl free ↦ rw free (take_off-Aloft id locks x free a)
        | inr held ↦ rw held a
      ]
  move-Aloft (landing hcm now key) locks x a = land-Aloft hcm now locks key x a
  move-Aloft (dropping key) locks x a = dropped-Aloft key x a

  pub run-Aloft : (x : Service) → Interleaved (memory_of db) config x → Aloft x
  run-Aloft x start = record {
    inv = in_memory-Inv db config no_rows_yet Reached.start;
    flown = λ key o r e. absurd (cc e);
  }
  run-Aloft x (next m locks y run) = move-Aloft m locks y (run-Aloft y run)

  -- Transaction 1 moves no days.
  after-SameValue :
      (t : Tables) (out : Outcome (Option (Outbox × TimeOffRequest)) × Tables)
      → AfterTake db t out
      → SameValue t out.1
  after-SameValue t (ok (some (o, r)), t') h = h.1
  after-SameValue t (ok none, t') h = h.1
  after-SameValue t (err e, t') h = h.1
  after-SameValue t (deadlock, t') h = h.1

  pub take_off-SameValue :
      (id : String) (locks : List String) (x : Service)
      → Aloft x
      → SameValue x.tables (take_off (memory_of db) config id locks x).tables
  unfolding take_off
  take_off-SameValue id locks x a =
      settled (SameValue x.tables) x.tables (take_tx (memory_of db) id locks x.tables)
        (λ employee location. refl)
        (after-SameValue x.tables (take_tx (memory_of db) id locks x.tables)
          (take_tx-After db id x.tables locks a.inv))

  pub land-SameValue :
      (hcm : HcmWrites) (now : ℕ) (locks : List String) (key : String) (x : Service)
      → Aloft x
      → SameValue x.tables (land (memory_of db) config hcm now locks key x).tables
  unfolding land
  land-SameValue hcm now locks key x a = elim (Option-cases (x.flights key)) [
    | inl e ↦ rw e (λ employee location. refl)
    | inr ((o, r), e) ↦
        let acked = acked_at now (call_hcm hcm o) in
        rw e (
          settled (SameValue x.tables) x.tables
            (reflect_tx (memory_of db) config acked o r locks x.tables) (λ employee location. refl)
            (reflect_tx-landed db x.tables o r locks a.inv (a.flown key o r e).1 config acked).1)
  ]
