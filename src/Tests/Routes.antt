-- ===== src/Tests/Routes.antt =====
-- The routes at concrete requests.
use wizdaa_takehome.Prelude.{String, true, Option, some, List, [], ◌∷◌, ◌≡◌, ◌⊎◌}
use wizdaa_takehome.Entities.{TimeOffRequest, request_id_is}
use wizdaa_takehome.Database.{pure, ◌>>◌}
use wizdaa_takehome.Balances.{snapshot, get_balance, resolve_review}
use wizdaa_takehome.Requests.{submit, approve, reject, cancel}
use wizdaa_takehome.Http.{
  SubmitBody, submit_args, submit_route, is_valid_body, post_approve, post_reject, post_cancel,
  get_balances, patch_resolve_review,
}
use wizdaa_takehome.Ledger.Moves.{Inv}
use wizdaa_takehome.Ledger.Reached.{no_rows_yet}
use wizdaa_takehome.Guarantees.Access.{
  Guarded, submit_is_own, managers_only, cancel_is_own, balance_is_own,
}
use wizdaa_takehome.Guarantees.Served.{
  Headers, Call, balance_call, submit_call, approve_call, dispatch_tick, batch_call, serve_all,
  service_stays_consistent,
}
use wizdaa_takehome.Tests.Reference.{reference}
use wizdaa_takehome.Tests.Data.{
  settings, hcm_up, hcm_fails, ten_days, today, june_batch, pending_tables, synced_tables,
}

abbrev june_body : SubmitBody
june_body = record {
  employee_id = "e1";
  location_id = "l1";
  start_date = "2026-06-01";
  end_date = "2026-06-05";
}

submit_is_own_example :
    Guarded
      ((is_valid_body (λ _. true) june_body ≡ true)
        × (◌≡◌ {A = Option String} (some "e2") (some "e1")))
      (submit_route reference.engine settings
        (λ _. true)
        (some "e2")
        (some "employee")
        hcm_up
        today
        june_body
        (some "key")
        []
        pending_tables)
      (submit reference.engine settings hcm_up today
        (submit_args june_body (some "key"))
        []
        pending_tables)
      pending_tables
submit_is_own_example =
    submit_is_own reference.engine settings (λ _. true) (some "e2") (some "employee") hcm_up today
      june_body (some "key") [] pending_tables

managers_only_example :
    Guarded
      (◌≡◌ {A = Option String} (some "employee") (some "manager"))
      (post_approve reference.engine settings
        (some "e1")
        (some "employee")
        hcm_up
        today
        (λ _. true)
        "k"
        []
        pending_tables)
      (approve reference.engine settings hcm_up today "k" [] pending_tables)
      pending_tables
    × Guarded
        (◌≡◌ {A = Option String} (some "employee") (some "manager"))
        (post_reject reference.engine settings
          (some "e1")
          (some "employee")
          hcm_up
          today
          (λ _. true)
          "k"
          []
          pending_tables)
        (reject reference.engine settings hcm_up today "k" [] pending_tables)
        pending_tables
    × Guarded
        (◌≡◌ {A = Option String} (some "employee") (some "manager"))
        (patch_resolve_review reference.engine settings
          (some "e1")
          (some "employee")
          "e1"
          "l1"
          []
          pending_tables)
        ((resolve_review reference.engine "e1" "l1" >> pure true) [] pending_tables)
        pending_tables
managers_only_example =
    managers_only reference.engine settings (some "e1") (some "employee") hcm_up today (λ _. true)
      "k" "e1" "l1" [] pending_tables

cancel_is_own_example :
    Guarded
      ((◌≡◌ {A = Option String} (some "employee") (some "manager"))
        ⊎ ((r : TimeOffRequest) × (reference.engine.find_one TimeOffRequest
                (request_id_is "k")
                synced_tables.requests
              ≡ some r)
            × (◌≡◌ {A = Option String} (some "e1") (some r.employee_id))))
      (post_cancel reference.engine settings
        (some "e1")
        (some "employee")
        hcm_up
        today
        (λ _. true)
        "k"
        []
        synced_tables)
      (cancel reference.engine settings hcm_up today "k" [] synced_tables)
      synced_tables
cancel_is_own_example =
    cancel_is_own reference.engine settings (some "e1") (some "employee") hcm_up today (λ _. true)
      "k" [] synced_tables

balance_is_own_example :
    Guarded
      ((◌≡◌ {A = Option String} (some "employee") (some "manager"))
        ⊎ (◌≡◌ {A = Option String} (some "e2") (some "e1")))
      (get_balances reference.engine settings
        (some "e2")
        (some "employee")
        (snapshot ten_days)
        "e1"
        "l1"
        []
        pending_tables)
      (get_balance reference.engine settings (snapshot ten_days) "e1" "l1" [] pending_tables)
      pending_tables
balance_is_own_example =
    balance_is_own reference.engine settings (some "e2") (some "employee") (snapshot ten_days) "e1"
      "l1" [] pending_tables

abbrev employee : Headers
employee = record { principal = some "e1"; role = some "employee" }

abbrev manager : Headers
manager = record { principal = some "m1"; role = some "manager" }

abbrev june_calls : List Call
june_calls =
    balance_call employee (snapshot ten_days) "e1" "l1"
    ∷ submit_call employee hcm_up today june_body (some "key")
    ∷ approve_call manager hcm_up today "k"
    ∷ dispatch_tick hcm_fails today
    ∷ batch_call june_batch
    ∷ []

service_stays_consistent_example :
    Inv (serve_all reference.engine settings (λ _. true) (λ _. true) june_calls no_rows_yet)
service_stays_consistent_example =
    service_stays_consistent reference settings (λ _. true) (λ _. true) june_calls
