-- ===== src/Tests/Bodies.antt =====
-- Bodies of a batch and of a filing.
use wizdaa_takehome.Prelude.{join, ℕ, String, Bool, true, some, [], ◌∷◌, ◌≡◌, refl, ◌⊎◌, arith}
use wizdaa_takehome.Prelude.Int.{pos, ◌-ℤ◌}
use wizdaa_takehome.Entities.{TimeOffRequest, BatchCorpus, RequestStatus}
use wizdaa_takehome.Database.{err, bad_request}
use wizdaa_takehome.Requests.{build_file_command, build_reverse_command}
use wizdaa_takehome.Http.{text, whole, RawCorpus, batch_route, post_batch}
use wizdaa_takehome.MockHcm.{
  gives, accepts, store_key, get_entry, body_of, file_route, reverse_route, mock_file_time_off,
  mock_reverse_time_off,
}
use wizdaa_takehome.Guarantees.Bodies.{Reads, batch_is_its_body}
use wizdaa_takehome.Guarantees.Commands.{said_by, request_is_filed_and_reversed}
use wizdaa_takehome.Guarantees.MockRestored.{days_at}
use wizdaa_takehome.Tests.Mock.{june_store, june_entry}
use wizdaa_takehome.Tests.Reference.{reference}
use wizdaa_takehome.Tests.Data.{june_request, synced_tables}

abbrev any_text : String → Bool
any_text s = true

abbrev at_2000 : String → ℕ
at_2000 s = 2000

abbrev raw_batch : RawCorpus
raw_batch = record {
  sequence = whole (pos 3);
  as_of = text "2026-06-01T00:00:00Z";
  balances = some (
      record {
        employee_id = text "e1";
        location_id = text "l1";
        balance = whole (pos 10);
        as_of = text "2026-06-01T00:00:00Z";
      }
      ∷ []);
}

batch_is_its_body_example :
    ((c : BatchCorpus) × Reads any_text any_text at_2000 raw_batch c
      × (batch_route any_text any_text at_2000 reference.engine raw_batch [] synced_tables
          ≡ post_batch reference.engine c [] synced_tables))
    ⊎ ((¬ ((c : BatchCorpus) × Reads any_text any_text at_2000 raw_batch c))
        × (batch_route any_text any_text at_2000 reference.engine raw_batch [] synced_tables
            ≡ (err bad_request, synced_tables)))
batch_is_its_body_example =
    batch_is_its_body any_text any_text at_2000 reference.engine raw_batch [] synced_tables

abbrev june_approved : TimeOffRequest
june_approved = june_request RequestStatus.approved (some 1000)

request_is_filed_and_reversed_example :
    let key = join june_approved.hcm_idempotency_key ":FILE" in
    let key' = join june_approved.hcm_idempotency_key ":REVERSE" in
    let filed =
      file_route any_text 2000 (some key) (body_of (build_file_command june_approved)) june_store in
    let reversed =
      reverse_route any_text 3000
        (some key')
        (body_of (build_reverse_command june_approved))
        filed.1 in
    (filed ≡ mock_file_time_off key (said_by june_approved key) 2000 june_store)
    × (reversed ≡ mock_reverse_time_off key' (said_by june_approved key') 3000 filed.1)
    × (filed.0 ≡ gives (accepts 2000))
    × (days_at (get_entry (store_key "e1" "l1") filed.1) ≡ some (pos 10 -ℤ pos 5))
    × (reversed.0 ≡ gives (accepts 3000))
    × ((p : String) → days_at (get_entry p reversed.1) ≡ days_at (get_entry p june_store))
request_is_filed_and_reversed_example =
    request_is_filed_and_reversed any_text june_approved 2000 3000 june_store june_entry refl refl
      (omega arith) refl refl (refl, refl) refl refl refl refl refl
