-- ===== src/Tests/Flights.antt =====
-- A dispatch that waits for HCM while another employee submits.
use wizdaa_takehome.Prelude.{String, true, none, some, [], ◌∷◌, ◌≡◌, refl, subst, first}
use wizdaa_takehome.Entities.{
  TimeOffRequest, Outbox, RequestStatus, request_id_is, outbox_id_is, is_waiting,
}
use wizdaa_takehome.Balances.{snapshot}
use wizdaa_takehome.Database.{Tables}
use wizdaa_takehome.Dispatcher.{take_tx, take_row}
use wizdaa_takehome.Ledger.Moves.{Inv}
use wizdaa_takehome.Ledger.Reached.{reading, submitting, approving, no_rows_yet, perform}
use wizdaa_takehome.Ledger.Flights.{
  Service, Interleaved, running, dropping, taking_off, landing, move, take_off, land, with_flight,
  key_of,
}
use wizdaa_takehome.Guarantees.Interleavings.{
  flights_keep_consistent, flight_is_current, outbox_only_progresses, halves_keep_days,
  requests_follow_the_diagram,
}
use wizdaa_takehome.Ledger.Trying.{Counting, start, next, Counting-Interleaved}
use wizdaa_takehome.Ledger.Progress.{Progress}
use wizdaa_takehome.Ledger.Lifecycle.{Follows}
use wizdaa_takehome.Ledger.Value.{SameValue}
use wizdaa_takehome.Tests.Reference.{reference}
use wizdaa_takehome.Tests.Data.{
  settings, hcm_up, hcm_fails, today, ten_days, june_week, june_request, june_row, pending_tables,
  synced_tables, after_submit,
}
use wizdaa_takehome.Tests.Runs.{after_submit-eq, approved}

-- No dispatch waits for HCM.
abbrev grounded : Tables → Service
grounded t = record { tables = t; flights = λ key. none }

submit-Counting : Counting reference.engine settings 0 (grounded after_submit)
unfolding move
submit-Counting =
    next (running (submitting hcm_up today june_week)) ("e1::l1" ∷ []) 0 _
      (next (running (reading (snapshot ten_days) "e1" "l1")) [] 0 (grounded no_rows_yet) start)

pending-Counting : Counting reference.engine settings 0 (grounded pending_tables)
pending-Counting =
    subst (λ t. Counting reference.engine settings 0 (grounded t)) after_submit-eq submit-Counting

approve_moved : Counting reference.engine settings 0 (
    grounded (
      perform reference.engine settings
        (approving hcm_up today "k")
        ("e1::l1" ∷ [])
        pending_tables))
unfolding move
approve_moved =
    next (running (approving hcm_up today "k")) ("e1::l1" ∷ []) 0 (grounded pending_tables)
      pending-Counting

synced-Counting : Counting reference.engine settings 0 (grounded synced_tables)
synced-Counting =
    subst (λ t. Counting reference.engine settings 0 (grounded t)) approved approve_moved

abbrev counted_row : Outbox
counted_row = record june_row { attempts = 1 }

abbrev june_synced : TimeOffRequest
june_synced = june_request RequestStatus.pending_sync (some today)

-- The first transaction of the dispatch has run.
abbrev in_flight : Service
in_flight = record {
  tables = record synced_tables { outbox = counted_row ∷ [] };
  flights = with_flight (counted_row, june_synced) (λ key. none);
}

in_flight-Counting : Counting reference.engine settings 0 in_flight
unfolding move take_off take_tx take_row
in_flight-Counting =
    next (taking_off "k") ("e1::l1" ∷ []) 0 (grounded synced_tables) synced-Counting

in_flight-Interleaved : Interleaved reference.engine settings in_flight
in_flight-Interleaved =
    Counting-Interleaved reference.engine settings 0 in_flight in_flight-Counting

-- The process has ended while HCM was called.
abbrev after_crash : Service
after_crash = move reference.engine settings (dropping "e1::l1") [] in_flight

flights_keep_consistent_example : Inv in_flight.tables
flights_keep_consistent_example =
    flights_keep_consistent reference settings in_flight in_flight-Interleaved

flight_is_current_example :
    (key_of june_synced ≡ "e1::l1")
    × (first (outbox_id_is "k") in_flight.tables.outbox ≡ some counted_row)
    × (is_waiting counted_row.status ≡ true)
    × (k : String) × (first (request_id_is "k") in_flight.tables.requests
        ≡ some (record june_synced { idempotency_key = k }))
flight_is_current_example =
    flight_is_current reference settings in_flight "e1::l1" counted_row june_synced
      in_flight-Interleaved refl

outbox_only_progresses_example :
    (o' : Outbox) × (first
        (outbox_id_is "k")
        (move reference.engine settings
          (landing hcm_fails today "e1::l1")
          []
          in_flight).tables.outbox
      ≡ some o')
    × Progress counted_row o'
outbox_only_progresses_example =
    outbox_only_progresses reference settings (landing hcm_fails today "e1::l1") [] in_flight "k"
      counted_row in_flight-Interleaved refl

halves_keep_days_example :
    SameValue in_flight.tables
      (take_off reference.engine settings "k" ("e1::l1" ∷ []) in_flight).tables
    × SameValue in_flight.tables
        (land reference.engine settings hcm_fails today ("e1::l1" ∷ []) "e1::l1" in_flight).tables
halves_keep_days_example =
    halves_keep_days reference settings hcm_fails today "k" "e1::l1" ("e1::l1" ∷ []) in_flight
      in_flight-Interleaved

requests_follow_the_diagram_example :
    (r : TimeOffRequest) × (first
        (request_id_is "k")
        (move reference.engine settings
          (landing hcm_fails today "e1::l1")
          []
          in_flight).tables.requests
      ≡ some r)
    × Follows june_synced r
requests_follow_the_diagram_example =
    requests_follow_the_diagram reference settings (landing hcm_fails today "e1::l1") [] in_flight
      "k" june_synced in_flight-Interleaved refl
