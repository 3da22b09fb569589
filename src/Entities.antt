-- ===== src/Entities.antt =====
-- The rows of the database (src/entities) and the shapes exchanged with HCM
-- (src/hcm/contracts/hcm.types.ts). Times are milliseconds; civil dates are texts YYYY-MM-DD, as in
-- the source. The columns `version`, `createdAt` and `updatedAt` are kept by the database alone and
-- are left out.
use wizdaa_takehome.Prelude.{ℕ, String, Bool, true, false, Option, List, ◌&&◌, same}
use wizdaa_takehome.Prelude.Int.{ℤ}

pub data RequestStatus : Type 0 where
  draft pending pending_sync approved rejected cancelled expired : RequestStatus

-- `TERMINAL_STATUSES.has(status)`.
abbrev pub is_terminal : RequestStatus → Bool
is_terminal RequestStatus.rejected = true
is_terminal RequestStatus.cancelled = true
is_terminal RequestStatus.expired = true
is_terminal _ = false

-- `ACTIVE_STATUSES.has(status)`.
abbrev pub is_active : RequestStatus → Bool
is_active RequestStatus.draft = true
is_active RequestStatus.pending = true
is_active RequestStatus.pending_sync = true
is_active RequestStatus.approved = true
is_active _ = false

abbrev pub is_pending : RequestStatus → Bool
is_pending RequestStatus.pending = true
is_pending _ = false

abbrev pub is_pending_sync : RequestStatus → Bool
is_pending_sync RequestStatus.pending_sync = true
is_pending_sync _ = false

abbrev pub is_approved : RequestStatus → Bool
is_approved RequestStatus.approved = true
is_approved _ = false

abbrev pub is_cancelled : RequestStatus → Bool
is_cancelled RequestStatus.cancelled = true
is_cancelled _ = false

pub data OutboxOperation : Type 0 where
  file reverse : OutboxOperation

abbrev pub is_file : OutboxOperation → Bool
is_file OutboxOperation.file = true
is_file _ = false

pub data OutboxStatus : Type 0 where
  pending sent failed voided : OutboxStatus

-- `status === OutboxStatus.PENDING`.
abbrev pub is_waiting : OutboxStatus → Bool
is_waiting OutboxStatus.pending = true
is_waiting _ = false

-- `status === OutboxStatus.SENT`.
abbrev pub is_sent : OutboxStatus → Bool
is_sent OutboxStatus.sent = true
is_sent _ = false

pub data ReconResolution : Type 0 where
  replayed flagged_negative no_change stale_rejected : ReconResolution

pub record Balance : Type 0 where
  pub employee_id : String
  pub location_id : String
  pub available : ℤ
  pub reserved : ℕ
  pub needs_review : Bool
  pub last_hcm_as_of : Option ℕ

pub record TimeOffRequest : Type 0 where
  pub id : String
  pub employee_id : String
  pub location_id : String
  pub start_date : String
  pub end_date : String
  pub days : ℕ
  pub status : RequestStatus
  pub idempotency_key : String
  pub hcm_idempotency_key : String
  pub expires_at : ℕ
  pub committed_at : Option ℕ
  pub hcm_ack_at : Option ℕ

pub record FileTimeOffCommand : Type 0 where
  pub employee_id : String
  pub location_id : String
  pub days : ℕ
  pub start_date : String
  pub end_date : String
  pub idempotency_key : String

-- The same fields.
abbrev pub ReverseTimeOffCommand : Type 0
ReverseTimeOffCommand = FileTimeOffCommand

pub record Outbox : Type 0 where
  pub id : String
  pub aggregate_id : String
  pub operation : OutboxOperation
  pub payload : FileTimeOffCommand
  pub idempotency_key : String
  pub status : OutboxStatus
  pub attempts : ℕ

pub record ReconciliationEvent : Type 0 where
  pub employee_id : String
  pub location_id : String
  pub local_value : ℤ
  pub hcm_value : ℤ
  pub resolution : ReconResolution

pub record BatchSyncLog : Type 0 where
  pub sequence : ℕ
  pub as_of : ℕ

pub record HcmBalance : Type 0 where
  pub employee_id : String
  pub location_id : String
  pub balance : ℤ
  pub as_of : ℕ

pub record BatchCorpus : Type 0 where
  pub sequence : ℕ
  pub as_of : ℕ
  pub balances : List HcmBalance

-- `FileTimeOffResult` and `ReverseTimeOffResult`: `ok`, `ackedAt` where it is a time, `errorHint`.
pub record TimeOffResult : Type 0 where
  pub is_ok : Bool
  pub acked_at : Option ℕ
  pub error_hint : Option String

-- `where: { employeeId, locationId }`.
abbrev pub balance_at : String → String → Balance → Bool
balance_at employee location b = same employee b.employee_id && same location b.location_id

-- `where: { id }`.
abbrev pub request_id_is : String → TimeOffRequest → Bool
request_id_is id r = same id r.id

-- `r.employeeId = :employeeId AND r.locationId = :locationId`.
abbrev pub request_at : String → String → TimeOffRequest → Bool
request_at employee location r = same employee r.employee_id && same location r.location_id

-- `where: { id }`.
abbrev pub outbox_id_is : String → Outbox → Bool
outbox_id_is id o = same id o.id
