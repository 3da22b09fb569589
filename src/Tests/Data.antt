-- ===== src/Tests/Data.antt =====
-- One employee at one location, a week in June 2026, and the tables after some sections.
use wizdaa_takehome.Prelude.{ℕ, true, false, Option, none, some, List, [], ◌∷◌}
use wizdaa_takehome.Prelude.Int.{ℤ, pos}
use wizdaa_takehome.Entities.{
  Balance, TimeOffRequest, Outbox, RequestStatus, OutboxStatus, OutboxOperation, HcmBalance,
  BatchCorpus,
}
use wizdaa_takehome.Config.{AppConfig}
use wizdaa_takehome.Database.{Tables}
use wizdaa_takehome.Balances.{snapshot, unavailable}
use wizdaa_takehome.Requests.{HcmReplies, SubmitArgs}
use wizdaa_takehome.Dispatcher.{HcmWrites, threw}
use wizdaa_takehome.Ledger.Reached.{
  reading, submitting, approving, perform, Reached, start, next, no_rows_yet,
}
use wizdaa_takehome.Tests.Reference.{reference}

abbrev pub settings : AppConfig
settings = record {
  database_path = ":memory:";
  hcm_base_url = "http://localhost:3001";
  reservation_ttl_days = 7;
  hcm_retry_max_attempts = 1;
  hcm_retry_backoff_ms = 100;
  port = 3000;
  balance_lazy_load_enabled = true;
}

abbrev pub ten_days : HcmBalance
ten_days = record { employee_id = "e1"; location_id = "l1"; balance = pos 10; as_of = 1000 }

abbrev pub hcm_up : HcmReplies
hcm_up = record {
  prewarm = snapshot ten_days;
  refresh = snapshot ten_days;
  recheck = snapshot ten_days;
}

abbrev pub hcm_down : HcmReplies
hcm_down = record { prewarm = unavailable; refresh = unavailable; recheck = unavailable }

abbrev pub hcm_fails : HcmWrites
hcm_fails = record { file_time_off = λ n c. threw; reverse_time_off = λ n c. threw }

-- 2026-01-01.
abbrev pub today : ℕ
today = 1767225600000

abbrev pub june_week : SubmitArgs
june_week = record {
  employee_id = "e1";
  location_id = "l1";
  start_date = "2026-06-01";
  end_date = "2026-06-05";
  idempotency_key = "key";
}

abbrev pub june_batch : BatchCorpus
june_batch = record { sequence = 3; as_of = 2000; balances = ten_days ∷ [] }

abbrev pub june_request : RequestStatus → Option ℕ → TimeOffRequest
june_request status committed = record {
  id = "k";
  employee_id = "e1";
  location_id = "l1";
  start_date = "2026-06-01";
  end_date = "2026-06-05";
  days = 5;
  status = status;
  idempotency_key = "key";
  hcm_idempotency_key = "uuid";
  expires_at = 1767830400000;
  committed_at = committed;
  hcm_ack_at = none;
}

abbrev pub june_balance : ℤ → ℕ → Balance
june_balance available reserved = record {
  employee_id = "e1";
  location_id = "l1";
  available = available;
  reserved = reserved;
  needs_review = false;
  last_hcm_as_of = some 1000;
}

abbrev pub tables_of : Balance → List TimeOffRequest → List Outbox → Tables
tables_of b requests outbox = record {
  balances = b ∷ [];
  requests = requests;
  outbox = outbox;
  events = [];
  batch_logs = [];
}

abbrev pub june_row : Outbox
june_row = record {
  id = "k";
  aggregate_id = "k";
  operation = OutboxOperation.file;
  payload = record {
    employee_id = "e1";
    location_id = "l1";
    days = 5;
    start_date = "2026-06-01";
    end_date = "2026-06-05";
    idempotency_key = "uuid:FILE";
  };
  idempotency_key = "uuid:FILE";
  status = OutboxStatus.pending;
  attempts = 0;
}

-- The week is asked for, and then committed.
abbrev pub pending_tables : Tables
pending_tables =
    tables_of (june_balance (pos 10) 5) (june_request RequestStatus.pending none ∷ []) []

abbrev pub synced_tables : Tables
synced_tables =
    tables_of (june_balance (pos 5) 0) (june_request RequestStatus.pending_sync (some today) ∷ [])
      (june_row ∷ [])

-- The balance is read, and the week is asked for.
abbrev pub after_read : Tables
after_read =
    perform reference.engine settings (reading (snapshot ten_days) "e1" "l1") [] no_rows_yet

abbrev pub after_submit : Tables
after_submit =
    perform reference.engine settings (submitting hcm_up today june_week) ("e1::l1" ∷ []) after_read

abbrev pub after_approve : Tables
after_approve =
    perform reference.engine settings (approving hcm_up today "k") ("e1::l1" ∷ []) after_submit

pub submit-Reached : Reached reference.engine settings after_submit
submit-Reached =
    next (submitting hcm_up today june_week) ("e1::l1" ∷ []) after_read
      (next (reading (snapshot ten_days) "e1" "l1") [] no_rows_yet start)

pub approve-Reached : Reached reference.engine settings after_approve
approve-Reached = next (approving hcm_up today "k") ("e1::l1" ∷ []) after_submit submit-Reached
