-- ===== src/Requests/Defs.antt =====
-- The methods of `TimeOffRequestService`. HCM's answers and the time are arguments: a method reads
-- the clock once. What a manager's id and a reason would be is not read by the source.
use wizdaa_takehome.Prelude.{
  ℕ, ◌+◌, ◌*◌, String, Bool, not, Option, none, some, ◌&&◌, same, join, text_le, if◌then◌else◌,
}
use wizdaa_takehome.Entities.{
  TimeOffRequest, Outbox, RequestStatus, OutboxOperation, OutboxStatus, FileTimeOffCommand,
  ReverseTimeOffCommand, request_at, request_id_is, is_terminal, is_active, is_file, is_waiting,
}
use wizdaa_takehome.Config.{AppConfig}
use wizdaa_takehome.Calendar.{DayCount, misordered, unended, counted, ms_per_day}
use wizdaa_takehome.Database.{Tables, Engine, Action, deadlock, unprocessable, pure, throw, modify}
use wizdaa_takehome.Balances.{HcmReply}

-- HCM's answers to the read before the lock, to the refresh, and to a read under the lock.
pub record HcmReplies : Type 0 where
  pub prewarm : HcmReply
  pub refresh : HcmReply
  pub recheck : HcmReply

-- The arguments of `submit`.
pub record SubmitArgs : Type 0 where
  pub employee_id : String
  pub location_id : String
  pub start_date : String
  pub end_date : String
  pub idempotency_key : String

abbrev pub operation_text : OutboxOperation → String
operation_text OutboxOperation.file = "FILE"
operation_text OutboxOperation.reverse = "REVERSE"

-- `${key}:${operation}`.
abbrev pub operation_key : String → OutboxOperation → String
operation_key key op = join key (join ":" (operation_text op))

unfoldable pub build_file_command : TimeOffRequest → FileTimeOffCommand
build_file_command r = record {
  employee_id = r.employee_id;
  location_id = r.location_id;
  days = r.days;
  start_date = r.start_date;
  end_date = r.end_date;
  idempotency_key = operation_key r.hcm_idempotency_key OutboxOperation.file;
}

unfoldable pub build_reverse_command : TimeOffRequest → ReverseTimeOffCommand
build_reverse_command r = record {
  employee_id = r.employee_id;
  location_id = r.location_id;
  days = r.days;
  start_date = r.start_date;
  end_date = r.end_date;
  idempotency_key = operation_key r.hcm_idempotency_key OutboxOperation.reverse;
}

abbrev pub payload_of : TimeOffRequest → OutboxOperation → FileTimeOffCommand
payload_of r OutboxOperation.file = build_file_command r
payload_of r OutboxOperation.reverse = build_reverse_command r

-- The row, under the key that the database gives it.
unfoldable pub build_outbox_row : String → TimeOffRequest → OutboxOperation → Outbox
build_outbox_row id r op = record {
  id = id;
  aggregate_id = r.id;
  operation = op;
  payload = payload_of r op;
  idempotency_key = operation_key r.hcm_idempotency_key op;
  status = OutboxStatus.pending;
  attempts = 0;
}

abbrev pub set_status : RequestStatus → TimeOffRequest → TimeOffRequest
set_status status r = record r { status = status }

abbrev pub set_committed : ℕ → TimeOffRequest → TimeOffRequest
set_committed now r = record r { committed_at = some now; status = RequestStatus.pending_sync }

-- A FILE row of the request that is still to be sent.
abbrev pub is_pending_file_of : String → Outbox → Bool
is_pending_file_of id o = same id o.aggregate_id && is_file o.operation && is_waiting o.status

abbrev pub is_file_of : String → Outbox → Bool
is_file_of id o = same id o.aggregate_id && is_file o.operation

abbrev pub void : Outbox → Outbox
void o = record o { status = OutboxStatus.voided }

-- An active request of the same key whose range meets the range asked for.
abbrev pub overlaps : SubmitArgs → TimeOffRequest → Bool
overlaps args r =
    request_at args.employee_id args.location_id r
    && not (is_terminal r.status)
    && text_le r.start_date args.end_date
    && text_le args.start_date r.end_date

abbrev pub has_key : String → TimeOffRequest → Bool
has_key key r = same key r.idempotency_key

-- How the idempotency key stands.
pub data KeyUse : Type 0 where
  free : KeyUse
  replay : TimeOffRequest → KeyUse
  reused : KeyUse

abbrev pub same_body : SubmitArgs → TimeOffRequest → Bool
same_body args r =
    same r.employee_id args.employee_id
    && same r.location_id args.location_id
    && same r.start_date args.start_date
    && same r.end_date args.end_date

abbrev pub key_use : SubmitArgs → Option TimeOffRequest → KeyUse
key_use args none = free
key_use args (some r) =
    if is_active r.status then (if same_body args r then replay r else reused) else free

abbrev pub days_or_throw : DayCount → Action ℕ
days_or_throw misordered = throw unprocessable
days_or_throw unended = λ held t. (deadlock, t)
days_or_throw (counted n) = pure n

-- `reservationTtlDays * 24 * 60 * 60 * 1000`.
abbrev pub ttl_ms : AppConfig → ℕ
ttl_ms config = config.reservation_ttl_days * ms_per_day

abbrev pub new_request : AppConfig → ℕ → SubmitArgs → ℕ → String → String → TimeOffRequest
new_request config now args days id uuid = record {
  id = id;
  employee_id = args.employee_id;
  location_id = args.location_id;
  start_date = args.start_date;
  end_date = args.end_date;
  days = days;
  status = RequestStatus.pending;
  idempotency_key = args.idempotency_key;
  hcm_idempotency_key = uuid;
  expires_at = now + ttl_ms config;
  committed_at = none;
  hcm_ack_at = none;
}

-- The key that a finished request is left with when its key is used again.
abbrev pub retire_key : TimeOffRequest → TimeOffRequest
retire_key r = record r { idempotency_key = join r.idempotency_key (join ":terminal:" r.id) }

module _ (e : Engine) where
  abbrev pub find_request : String → Tables → Option TimeOffRequest
  find_request id t = e.find_one TimeOffRequest (request_id_is id) t.requests

  abbrev pub save_request_row : TimeOffRequest → Action (Unit {0})
  save_request_row r = modify λ t. record t { requests = e.save_request r t.requests }

  abbrev pub save_new_row : TimeOffRequest → OutboxOperation → Action (Unit {0})
  save_new_row r op = modify λ t. record t {
    outbox = e.save_outbox (build_outbox_row (e.new_outbox_id t.outbox) r op) t.outbox;
  }

  unfoldable pub void_pending_file_rows : String → Action (Unit {0})
  void_pending_file_rows id =
      modify λ t. record t { outbox = e.update Outbox (is_pending_file_of id) void t.outbox }

  -- The old row of the key, if it is finished, is renamed.
  abbrev pub retire : Option TimeOffRequest → Action (Unit {0})
  retire none = pure tt
  retire (some r) =
      if is_terminal r.status
      then modify (λ t. record t {
        requests = e.update TimeOffRequest (request_id_is r.id) retire_key t.requests;
      })
      else pure tt
