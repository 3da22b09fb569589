-- ===== src/Tests/Doubles.antt =====
-- The client of the tests beside the mock service, on the balances that the mock begins with.
use wizdaa_takehome.Prelude.{◌≡◌, refl}
use wizdaa_takehome.Entities.{FileTimeOffCommand}
use wizdaa_takehome.MockHcm.{
  MockStore, reset_mock_store, mock_get_balance, mock_file_time_off, mock_reverse_time_off,
}
use wizdaa_takehome.FakeHcm.{
  no_calls, count_read, count_file, count_reverse, fake_get_balance, fake_file_time_off,
  fake_reverse_time_off,
}
use wizdaa_takehome.Guarantees.Doubles.{fake_of, SameResult, SameBalance, fake_mirrors_mock}

abbrev two_days : FileTimeOffCommand
two_days = record {
  employee_id = "emp1";
  location_id = "loc1";
  days = 2;
  start_date = "2026-06-01";
  end_date = "2026-06-02";
  idempotency_key = "uuid:FILE";
}

abbrev new_store : MockStore
new_store = reset_mock_store 1000

fake_mirrors_mock_example :
    (let fake = fake_get_balance 2000 "emp1" "loc1" (fake_of no_calls new_store) in
      let mock = mock_get_balance 2000 "emp1" "loc1" new_store in
      SameBalance "emp1" "loc1" fake.0 mock.0 × (fake.1 ≡ fake_of (count_read no_calls) mock.1))
    × (let fake = fake_file_time_off two_days 2000 (fake_of no_calls new_store) in
        let mock = mock_file_time_off "uuid:FILE" two_days 2000 new_store in
        SameResult fake.0 mock.0 × (fake.1 ≡ fake_of (count_file no_calls) mock.1))
    × (let fake = fake_reverse_time_off two_days 2000 (fake_of no_calls new_store) in
        let mock = mock_reverse_time_off "uuid:FILE" two_days 2000 new_store in
        SameResult fake.0 mock.0 × (fake.1 ≡ fake_of (count_reverse no_calls) mock.1))
fake_mirrors_mock_example =
    fake_mirrors_mock no_calls new_store 2000 "emp1" "loc1" two_days refl refl refl
